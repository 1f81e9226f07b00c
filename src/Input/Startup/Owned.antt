-- ===== src/Input/Startup/Owned.antt =====
-- What the stored variables own: the accounts of the objects taken and given back, and the steps
-- that do not change them.
pub mod Endpoints
pub mod Buffers
pub mod Dictionary
pub mod Begin
pub mod Release
pub mod Service
use vendor_specific_usbdrive.Base.{
  ℕ, suc, ◌+◌, ◌≡◌, refl, Bool, true, false, Option, none, some, List, [], ◌∷◌, arith, ◌==◌, ◌&&◌,
  if◌then◌else◌, not, is_some, M, pure, ◌>>=◌, ◌>>◌, Ensures, Ensures-bind, Allows, Allows-bind,
  Allows-guard, Allows-step, Allows-some, Option-cases, Bool-cases, inl, inr,
}
use vendor_specific_usbdrive.Kit.{
  Ref, is_success, is_interrupt, EndpointDirection, in_direction, out_direction, unknown_direction,
}
use vendor_specific_usbdrive.Input.State.{
  Ivars, Resource, usb_interface, configuration, in_endpoint, out_endpoint, in_buffer, out_buffer,
  action, properties, self, provider, Event, acquire, release, transmit, request, report, opened,
  called, cancelled, Input, Env, PropertyKey, Side, in_side, out_side, pipe_of,
  max_input_report_size, max_output_report_size, emit_some,
}
use vendor_specific_usbdrive.Input.Setup.{
  create_buffer, map_created, map_memory, setup_memory, measure_pipe, set_report_size, setup_out,
  setup_both, setup_pipes, setup_pipe,
}
use vendor_specific_usbdrive.Input.Startup.{
  init_descriptors, copy_pipe, claim_endpoint, pipes_loop, init_pipes, create_action, handle_start,
  call_super_handle_start, retain_interface, begin_communication, init_packet, init_packet_size,
  swap_to_wired_packet, swap_to_wired_packet_size,
}
use vendor_specific_usbdrive.Input.Shutdown.{release_ivars, clear_ivars, free}
use vendor_specific_usbdrive.Input.Send.{send_interrupt_data}
use vendor_specific_usbdrive.Input.Receive.{request_async_interrupt_data}
use vendor_specific_usbdrive.Input.Startup.Pipes.{vars, IsDocumented}
use vendor_specific_usbdrive.Input.Startup.Outcome.{free-handle_start}

abbrev resource_code : Resource → ℕ
resource_code usb_interface = 0
resource_code in_endpoint = 1
resource_code out_endpoint = 2
resource_code self = 3
resource_code provider = 4
resource_code configuration = 5
resource_code in_buffer = 6
resource_code out_buffer = 7
resource_code action = 8
resource_code properties = 9

-- The configuration descriptor, the buffers, the action and the properties. A pipe may be
-- overwritten by another one, and the interface is retained without need.
abbrev pub is_settled : Resource → Bool
is_settled configuration = true
is_settled in_buffer = true
is_settled out_buffer = true
is_settled action = true
is_settled properties = true
is_settled _ = false

-- 1 if the two are the same object of the same kind.
pub hit : Resource → Ref → Resource → Ref → ℕ
hit k x q r = if (resource_code k == resource_code q) && (x == r) then 1 else 0

-- How often an object has been taken, and given back.
abbrev pub takes : Resource → Ref → List Event → ℕ
takes k x [] = 0
takes k x (acquire q r ∷ es) = hit k x q r + takes k x es
takes k x (_ ∷ es) = takes k x es

abbrev pub gives : Resource → Ref → List Event → ℕ
gives k x [] = 0
gives k x (release q r ∷ es) = hit k x q r + gives k x es
gives k x (_ ∷ es) = gives k x es

-- USBDriverKit and DriverKit, as they are documented: a creation that fails leaves the pointer as it
-- was.
pub record LeavesPointers (env : Env) : Type 0 where
  pub buffers :
      (log : List Event) (i : Ref) (size : ℕ) (old : Option Ref)
      → is_success (env.create_io_buffer log i size old).0 ≡ false
      → (env.create_io_buffer log i size old).1 ≡ old
  pub actions :
      (log : List Event) (size : ℕ) (old : Option Ref)
      → is_success (env.create_action log size old).0 ≡ false
      → (env.create_action log size old).1 ≡ old

module _ (k : Resource) (x : Ref) (settled : is_settled k ≡ true) where
  pub hit_interface : (r : Ref) → hit k x usb_interface r ≡ 0
  unfolding hit
  hit_interface r = ground arith

  pub hit_in_endpoint : (r : Ref) → hit k x in_endpoint r ≡ 0
  unfolding hit
  hit_in_endpoint r = ground arith

  pub hit_out_endpoint : (r : Ref) → hit k x out_endpoint r ≡ 0
  unfolding hit
  hit_out_endpoint r = ground arith

abbrev pub held : Resource → Ref → Resource → Option Ref → ℕ
held k x q none = 0
held k x q (some r) = hit k x q r

pub held_zero :
    (k : Resource) (x : Ref) (q : Resource)
    → ((r : Ref) → hit k x q r ≡ 0)
    → (p : Option Ref) → held k x q p ≡ 0
held_zero k x q z none = refl
held_zero k x q z (some r) = z r

abbrev pub holding : Resource → Ref → Ivars → ℕ
holding k x v =
    held k x configuration v.configuration_descriptor
    + held k x in_buffer v.in_pipe.memory.buffer
    + held k x out_buffer v.out_pipe.memory.buffer
    + held k x action v.got_data_action

-- What is taken is given back or held, but for `n`; `taken` and `given` are the counts before. The
-- flags tell which pointers are still null.
pub record IsOwned (k : Resource) (x : Ref) (taken given n : ℕ) (c i o a : Bool) (t : Input)
    : Type 0 where
  pub accounts : takes k x t.log + given ≡ gives k x t.log + holding k x (vars t) + taken + n
  pub no_configuration : c ≡ true → (vars t).configuration_descriptor ≡ none
  pub no_in_buffer : i ≡ true → (vars t).in_pipe.memory.buffer ≡ none
  pub no_out_buffer : o ≡ true → (vars t).out_pipe.memory.buffer ≡ none
  pub no_action : a ≡ true → (vars t).got_data_action ≡ none

-- A step that touches nothing of this.
pub record IsSame (k : Resource) (x : Ref) (s t : Input) : Type 0 where
  pub same_takes : takes k x t.log ≡ takes k x s.log
  pub same_gives : gives k x t.log ≡ gives k x s.log
  pub same_configuration : (vars t).configuration_descriptor ≡ (vars s).configuration_descriptor
  pub same_in_buffer : (vars t).in_pipe.memory.buffer ≡ (vars s).in_pipe.memory.buffer
  pub same_out_buffer : (vars t).out_pipe.memory.buffer ≡ (vars s).out_pipe.memory.buffer
  pub same_action : (vars t).got_data_action ≡ (vars s).got_data_action

module _ (env : Env) (k : Resource) (x : Ref) where
  pub set_report_size-Keeps :
      (p : Option Ref) (key : PropertyKey) (s : Input)
      → Allows (λ _. IsSame k x s) (set_report_size env p key s)
  set_report_size-Keeps p key s = ground arith

  pub measure_pipe-Keeps :
      (side : Side) (s : Input) → Allows (λ _. IsSame k x s) (measure_pipe env side s)
  unfolding measure_pipe
  measure_pipe-Keeps in_side s = ground arith
  measure_pipe-Keeps out_side s = ground arith

  pub map_memory-Keeps :
      (side : Side) (b : Ref) (s : Input) → Allows (λ _. IsSame k x s) (map_memory env side b s)
  unfolding map_memory
  map_memory-Keeps in_side b s = ground arith
  map_memory-Keeps out_side b s = ground arith

  pub send_interrupt_data-Keeps :
      (bytes : List ℕ) (size : ℕ) (s : Input)
      → Allows (λ _. IsSame k x s) (send_interrupt_data env bytes size s)
  unfolding send_interrupt_data
  send_interrupt_data-Keeps bytes size s = ground arith

  pub request_async_interrupt_data-Keeps :
      (s : Input) → Allows (λ _. IsSame k x s) (request_async_interrupt_data env s)
  unfolding request_async_interrupt_data
  request_async_interrupt_data-Keeps s = ground arith

  pub call_super_handle_start-Keeps :
      (s : Input) → Allows (λ _. IsSame k x s) (call_super_handle_start env s)
  unfolding call_super_handle_start
  call_super_handle_start-Keeps s = ground arith

module _ (k : Resource) (x : Ref) (taken given n : ℕ) (c i o a : Bool) where
  IsSame-IsOwned :
      (s t : Input)
      → IsSame k x s t
      → IsOwned k x taken given n c i o a s
      → IsOwned k x taken given n c i o a t
  IsSame-IsOwned s t e w = ground arith

  pub keeping :
      {A : Type 0} (r : Option (A × Input)) (s : Input)
      → Allows (λ _. IsSame k x s) r
      → IsOwned k x taken given n c i o a s
      → Allows (λ _. IsOwned k x taken given n c i o a) r
  keeping none s h w = tt
  keeping (some (b, t)) s h w = IsSame-IsOwned s t h w
