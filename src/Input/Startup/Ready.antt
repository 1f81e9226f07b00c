-- ===== src/Input/Startup/Ready.antt =====
-- `handleStart`: what a started interface is.
use vendor_specific_usbdrive.Base.{
  ℕ, ◌+◌, ◌%◌, ◌≡◌, ◌≤◌, ◌<◌, refl, Bool, true, false, List, arith, length, if◌then◌else◌, leb,
  Ensures, Ensures-bind, Ensures-guard, Option-cases, Bool-cases, inl, inr,
}
use vendor_specific_usbdrive.Kit.{Ref, KernReturn}
use vendor_specific_usbdrive.Input.State.{Input, Env}
use vendor_specific_usbdrive.Input.Send.{send_interrupt_data}
use vendor_specific_usbdrive.Input.Send.Laws.{
  HasOut, length-out_memory, send_interrupt_data_sends, send_interrupt_data_refuses,
}
use vendor_specific_usbdrive.Input.Receive.{request_async_interrupt_data}
use vendor_specific_usbdrive.Input.Session.{requests, transmits, holds}
use vendor_specific_usbdrive.Input.Startup.{
  init_packet, init_packet_size, swap_to_wired_packet, swap_to_wired_packet_size, create_action,
  retain_interface, begin_communication, init_descriptors, init_pipes, handle_start,
  call_super_handle_start,
}
use vendor_specific_usbdrive.Input.Setup.{setup_pipes}
use vendor_specific_usbdrive.Input.Startup.Pipes.{
  vars, IsDocumented, IsKept, IsPiped, IsPrepared, init_descriptors-IsKept, Piped, init_pipes-Piped,
}
use vendor_specific_usbdrive.Input.Startup.Prepare.{AllSetUp, setup_pipes-AllSetUp}

-- Both pipes are there and set up, and the memory of the `OUT` pipe has `room` bytes.
pub record IsStarted (i : Ref) (c : ℕ) (e : Bool) (n m h room : ℕ) (t : Input) : Type 0 where
  pub kept : IsKept i c e n m h t
  pub piped : IsPiped t
  pub in_prepared : IsPrepared (vars t).in_pipe
  pub out_prepared : IsPrepared (vars t).out_pipe
  pub roomy : (vars t).out_pipe.memory.length ≡ room

module _ (i : Ref) (c : ℕ) (e : Bool) (n m h room : ℕ) (t : Input)
    (st : IsStarted i c e n m h room t) where
  pub started-HasOut : (pipe : Ref) × (memory : List ℕ) × HasOut t (vars t) pipe memory
  started-HasOut = elim (Option-cases (vars t).out_pipe.pipe) [
    | inl gone ↦ absurd (ground (arith, gone))
    | inr (pipe, piped) ↦ elim (Option-cases (vars t).out_pipe.memory.address) [
      | inl gone ↦ absurd (ground (arith, gone))
      | inr (memory, mapped) ↦ (pipe, memory, ground (arith, piped, mapped))
    ]
  ]

  -- One packet: it is sent if it fits.
  abbrev Sent : ℕ → KernReturn → Input → Type 0
  Sent size ret =
      IsStarted i (if leb size room then (c + 1) % 256 else c) e n
        (if leb size room then m + 1 else m) h room

  module _ (env : Env) (bytes : List ℕ) (size : ℕ) (long : 2 < size)
      (whole : size ≤ length bytes) where
    send_over :
        (pipe : Ref) (memory : List ℕ)
        → HasOut t (vars t) pipe memory
        → Ensures (Sent size) (send_interrupt_data env bytes size t)
    send_over pipe memory out = elim (Bool-cases (leb size room)) [
      | inl fits ↦
          rw
            (send_interrupt_data_sends env t (vars t) pipe memory out bytes size long whole
              (ground (arith, out.measured, fits)))
            (ground (arith, fits, length-out_memory bytes size memory (vars t).out_counter whole))
      | inr big ↦
          rw
            (send_interrupt_data_refuses env t (vars t) bytes size out.loaded (ground (arith, big)))
            (ground (arith, big))
    ]

    send-IsStarted : Ensures (Sent size) (send_interrupt_data env bytes size t)
    send-IsStarted = let (pipe, memory, out) = started-HasOut in send_over pipe memory out

  request-IsStarted :
      (env : Env)
      → Ensures (λ _. IsStarted i c e (n + 1) m h room) (request_async_interrupt_data env t)
  unfolding request_async_interrupt_data
  request-IsStarted env = ground arith

  retain-IsStarted :
      Ensures (λ b u. IsStarted i c e n m (h + 1) room u × (b ≡ true)) (retain_interface t)
  unfolding retain_interface
  retain-IsStarted = ground arith

-- The counter and the number of packets after the two packets that start the controller, which are
-- sent if they fit.
abbrev pub start_counter : (room c : ℕ) → ℕ
start_counter room c = if leb init_packet_size room then ((c + 1) % 256 + 1) % 256 else c

abbrev pub start_transmits : (room m : ℕ) → ℕ
start_transmits room m = if leb init_packet_size room then m + 1 + 1 else m

module _ (env : Env) (i : Ref) (c : ℕ) (e : Bool) (n m h : ℕ) where
  -- The state that a successful start leaves.
  abbrev pub Begun : Bool → Input → Type 0
  Begun b t =
      let room = (vars t).out_pipe.memory.length in
      IsKept i (vars t).out_counter e (requests t.log) (transmits t.log) (holds t.log) t
      × (b ≡ false → holds t.log ≡ h)
      × (b ≡ true
          → IsStarted i (start_counter room c) e (n + 1) (start_transmits room m) (h + 1) room t)

  begin-Begun :
      (room : ℕ) (t : Input)
      → IsStarted i c e n m h room t
      → Ensures Begun (begin_communication env t)
  unfolding begin_communication
  begin-Begun room t st =
      Ensures-bind _ Begun (send_interrupt_data env init_packet init_packet_size) _ t
        (send-IsStarted i c e n m h room t st env init_packet 5 (omega arith) (omega arith))
        λ _ t₁ h₁.
          Ensures-bind _ Begun
            (send_interrupt_data env swap_to_wired_packet swap_to_wired_packet_size) _ t₁
            (send-IsStarted i _ e n _ h room t₁ h₁ env swap_to_wired_packet 5 (omega arith)
              (omega arith))
            λ _ t₂ h₂.
              Ensures-bind _ Begun (request_async_interrupt_data env) _ t₂
                (request-IsStarted i _ e n _ h room t₂ h₂ env)
                λ _ t₃ h₃. ground (arith, retain-IsStarted i _ e (n + 1) _ h room t₃ h₃)

  kept-Begun : (t : Input) → IsKept i c e n m h t → Begun false t
  kept-Begun t k = ground arith

  action-AllSetUp :
      (t : Input)
      → AllSetUp env i c e n m h true t
      → Ensures (AllSetUp env i c e n m h) (create_action env t)
  unfolding create_action
  action-AllSetUp t a = ground (arith, a.1 refl)

  super-IsKept :
      (s : Input)
      → IsKept i c e n m h s
      → Ensures (λ _. IsKept i c e n m h) (call_super_handle_start env s)
  unfolding call_super_handle_start
  super-IsKept s k = ground arith

  all-IsStarted :
      (t : Input)
      → IsKept i c e n m h t
      → IsPiped t × IsPrepared (vars t).in_pipe × IsPrepared (vars t).out_pipe
      → IsStarted i c e n m h (vars t).out_pipe.memory.length t
  all-IsStarted t k a = record {
    kept = k;
    piped = a.0;
    in_prepared = a.1;
    out_prepared = a.2;
    roomy = refl;
  }

  pub handle_start-Begun :
      IsDocumented env → (s : Input) → IsKept i c e n m h s → Ensures Begun (handle_start env s)
  unfolding handle_start
  handle_start-Begun doc s k =
      Ensures-bind (λ _. IsKept i c e n m h) Begun (call_super_handle_start env) _ s
        (super-IsKept s k)
        λ b₀ t₀ k₀. Ensures-guard Begun b₀ _ t₀ (kept-Begun t₀ k₀) λ _.
          Ensures-bind (λ b. IsKept i c e n m h) Begun (init_descriptors env) _ t₀
            (init_descriptors-IsKept env i c e n m h t₀ k₀)
            λ b₁ t₁ k₁. Ensures-guard Begun b₁ _ t₁ (kept-Begun t₁ k₁) λ _.
              Ensures-bind (Piped env i c e n m h) Begun (init_pipes env) _ t₁
                (init_pipes-Piped env i c e n m h t₁ k₁)
                λ b₂ t₂ k₂. Ensures-guard Begun b₂ _ t₂ (kept-Begun t₂ k₂.0) λ y₂.
                  Ensures-bind (AllSetUp env i c e n m h) Begun (setup_pipes env) _ t₂
                    (setup_pipes-AllSetUp env i c e n m h doc t₂ k₂.0 (k₂.1 y₂))
                    λ b₃ t₃ k₃. Ensures-guard Begun b₃ _ t₃ (kept-Begun t₃ k₃.0) λ y₃.
                      Ensures-bind (AllSetUp env i c e n m h) Begun (create_action env) _ t₃
                        (action-AllSetUp t₃ (k₃.0, λ _. k₃.1 y₃))
                        λ b₄ t₄ k₄. Ensures-guard Begun b₄ _ t₄ (kept-Begun t₄ k₄.0) λ y₄.
                          begin-Begun (vars t₄).out_pipe.memory.length t₄
                            (all-IsStarted t₄ k₄.0 (k₄.1 y₄))
