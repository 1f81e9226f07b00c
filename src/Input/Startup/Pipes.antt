-- ===== src/Input/Startup/Pipes.antt =====
-- `InitDescriptors` and `InitPipes`: what they need, and what they leave.
use vendor_specific_usbdrive.Base.{
  ℕ, ◌≡◌, ◌≢◌, Bool, true, Option, none, some, List, [], ◌∷◌, arith, length, is_some, M, Ensures,
  Ensures-bind,
}
use vendor_specific_usbdrive.Kit.{Ref, is_success, UsbPipeData}
use vendor_specific_usbdrive.Input.State.{Ivars, Event, Input, Env, Side, in_side, out_side}
use vendor_specific_usbdrive.Input.Session.{requests, transmits, holds}
use vendor_specific_usbdrive.Input.Startup.{
  zero_ivars, init_descriptors, copy_pipe, claim_endpoint, pipes_loop, init_pipes,
}

-- The stored variables, where there are some.
abbrev pub vars : Input → Ivars
vars s = elim s.ivars [ none ↦ zero_ivars | some v ↦ v ]

abbrev pub memory_size : Option (List ℕ) → ℕ
memory_size none = 0
memory_size (some m) = length m

-- USBDriverKit and DriverKit, as they are documented: a buffer that is created is there, and a
-- mapping that succeeds gives memory of the length that it tells.
pub record IsDocumented (env : Env) : Type 0 where
  pub creates :
      (log : List Event) (i : Ref) (size : ℕ) (old : Option Ref)
      → is_success (env.create_io_buffer log i size old).0 ≡ true
      → is_some (env.create_io_buffer log i size old).1 ≡ true
  pub maps :
      (log : List Event) (b : Ref)
      → is_success (env.map_buffer log b).0 ≡ true
      → is_some (env.map_buffer log b).1 ≡ true
  pub measures :
      (log : List Event) (b : Ref)
      → is_success (env.map_buffer log b).0 ≡ true
      → (env.map_buffer log b).2 ≡ memory_size (env.map_buffer log b).1

-- What all the parts keep: the interface, the counter, the flag, and the packets so far.
pub record IsKept (i : Ref) (c : ℕ) (e : Bool) (n m h : ℕ) (t : Input) : Type 0 where
  pub live : is_some t.ivars ≡ true
  pub opened : (vars t).interface ≡ some i
  pub counter : (vars t).out_counter ≡ c
  pub flag : (vars t).enabled ≡ e
  pub asked : requests t.log ≡ n
  pub sent : transmits t.log ≡ m
  pub held : holds t.log ≡ h

pub record IsPiped (t : Input) : Type 0 where
  pub in_piped : is_some (vars t).in_pipe.pipe ≡ true
  pub out_piped : is_some (vars t).out_pipe.pipe ≡ true

pub record IsPrepared (p : UsbPipeData) : Type 0 where
  pub mapped : is_some p.memory.address ≡ true
  pub measured : p.memory.length ≡ memory_size p.memory.address
  pub buffered : is_some p.memory.buffer ≡ true
  pub paced : p.interval ≢ 0
  pub sized : p.max_packet_size ≢ 0

module _ (env : Env) (i : Ref) (c : ℕ) (e : Bool) (n m h : ℕ) where
  pub init_descriptors-IsKept :
      (s : Input)
      → IsKept i c e n m h s
      → Ensures (λ b. IsKept i c e n m h) (init_descriptors env s)
  unfolding init_descriptors
  init_descriptors-IsKept s k = ground arith

  abbrev pub Piped : Bool → Input → Type 0
  Piped b t = IsKept i c e n m h t × (b ≡ true → IsPiped t)

  copy_pipe-Piped :
      (side : Side) (endpoint : Ref) (s : Input)
      → IsKept i c e n m h s
      → Ensures (λ (ret, both). Piped both) (copy_pipe env side endpoint s)
  unfolding copy_pipe
  copy_pipe-Piped in_side endpoint s k = ground arith
  copy_pipe-Piped out_side endpoint s k = ground arith

  claim_endpoint-Piped :
      (side : Side) (endpoint : Ref) (rest : M Input Bool)
      → ((t : Input) → IsKept i c e n m h t → Ensures Piped (rest t))
      → (s : Input) → IsKept i c e n m h s
      → Ensures Piped (claim_endpoint env side endpoint rest s)
  unfolding claim_endpoint
  claim_endpoint-Piped side endpoint rest next s k =
      Ensures-bind (λ (ret, both). Piped both) Piped (copy_pipe env side endpoint) _ s
        (copy_pipe-Piped side endpoint s k) λ (ret, both) t p. ground (arith, next t p.0)

  pipes_loop-Piped :
      (endpoints : List Ref) (s : Input)
      → IsKept i c e n m h s
      → Ensures Piped (pipes_loop env endpoints s)
  unfolding pipes_loop
  pipes_loop-Piped [] s k = ground arith
  pipes_loop-Piped (endpoint ∷ endpoints) s k = ground (
    arith,
    pipes_loop-Piped endpoints s k,
    claim_endpoint-Piped in_side endpoint (pipes_loop env endpoints) (pipes_loop-Piped endpoints) s
        k,
    claim_endpoint-Piped out_side endpoint (pipes_loop env endpoints) (pipes_loop-Piped endpoints) s
        k,
  )

  -- From stored variables with a provider, the loop of `InitPipes` ends without undefined behaviour
  -- on every list of endpoints, and keeps the provider, the counter, the flag and the numbers of
  -- requests, packets and references so far. If it returns true, both pipes are there.
  pub init_pipes-Piped : (s : Input) → IsKept i c e n m h s → Ensures Piped (init_pipes env s)
  unfolding init_pipes
  init_pipes-Piped s k = ground (
    arith,
    pipes_loop-Piped (env.endpoints (vars s).configuration_descriptor (vars s).interface_descriptor)
        s k,
  )
