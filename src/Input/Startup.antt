-- ===== src/Input/Startup.antt =====
-- `init`, `Start` and `handleStart` with what they call.
pub mod Pipes
pub mod Prepare
pub mod Ready
pub mod Outcome
pub mod ReportSize
pub mod Run
pub mod Whole
pub mod Owned
pub mod Unmatched
use vendor_specific_usbdrive.Base.{
  ℕ, Bool, true, false, Option, none, some, List, [], ◌∷◌, not, ◌==◌, ◌&&◌, if◌then◌else◌, is_some,
  M, pure, deref, ◌>>=◌, ◌>>◌,
}
use vendor_specific_usbdrive.Kit.{
  Ref, KernReturn, success, is_success, zero_pipe_data, in_direction, out_direction,
  unknown_direction, is_interrupt,
}
use vendor_specific_usbdrive.Input.State.{
  Ivars, acquire, release, opened, called, super_init, super_handle_start, usb_interface,
  configuration, action, properties, PropertyKey, max_input_report_size, max_output_report_size,
  Input, Env, Side, in_side, out_side, pipe_of, endpoint_of, buffer_of, load_ivars, store_ivars,
  emit, emit_some, ask, change_pipe,
}
use vendor_specific_usbdrive.Input.Send.{send_interrupt_data}
use vendor_specific_usbdrive.Input.Receive.{request_async_interrupt_data}
use vendor_specific_usbdrive.Input.Setup.{setup_pipes}

-- What `IONewZero` allocates.
abbrev pub zero_ivars : Ivars
zero_ivars = record {
  interface = none;
  configuration_descriptor = none;
  interface_descriptor = none;
  in_pipe = zero_pipe_data;
  out_pipe = zero_pipe_data;
  got_data_action = none;
  out_counter = 0;
  enabled = false;
}

unfoldable pub init : Env → M Input Bool
init env = do
  result ← ask env.super_init
  emit (called super_init)
  if not result then pure false else do
    allocated ← ask env.allocates
    if not allocated
        then pure false
        else do store_ivars (record zero_ivars { enabled = true }); pure true

-- `super_start` is `Start` of `IOUserHIDDevice`, which calls `handleStart` toward its end.
unfoldable pub start : Env → M Input KernReturn → Option Ref → M Input KernReturn
start env super_start provider = do
  v ← load_ivars
  let interface = env.as_host_interface provider
  store_ivars (record v { interface = interface })
  if not (is_some interface) then pure success else do
    i ← deref interface
    ret ← ask (λ log. env.open_interface log i)
    emit (opened i)
    if not (is_success ret) then pure ret else super_start

unfoldable pub init_descriptors : Env → M Input Bool
init_descriptors env = do
  v ← load_ivars
  i ← deref v.interface
  c ← ask (λ log. env.copy_configuration_descriptor log i)
  store_ivars (record v { configuration_descriptor = c })
  if not (is_some c) then pure false else do
    r ← deref c
    emit (acquire configuration r)
    let d = env.get_interface_descriptor i r
    store_ivars (record v { configuration_descriptor = c; interface_descriptor = d })
    pure (is_some d)

-- `CopyPipe` for one endpoint; the variable for the pipe may hold another one already. Then
-- whether both pipes are there.
unfoldable pub copy_pipe : Env → Side → Ref → M Input (KernReturn × Bool)
copy_pipe env side endpoint = do
  change_pipe side (λ p. record p { descriptor = some endpoint })
  v ← load_ivars
  i ← deref v.interface
  (ret, pipe) ←
      ask (λ log. env.copy_pipe log i (env.endpoint_address endpoint) (pipe_of side v).pipe)
  change_pipe side (λ p. record p { pipe = pipe })
  if not (is_success ret) then pure (ret, false) else do
    emit_some (acquire (endpoint_of side)) pipe
    w ← load_ivars
    pure (ret, is_some w.in_pipe.pipe && is_some w.out_pipe.pipe)

-- The end of the loop's body, for an endpoint of a known direction; `rest` is the next round.
unfoldable pub claim_endpoint : Env → Side → Ref → M Input Bool → M Input Bool
claim_endpoint env side endpoint rest = do
  (ret, both) ← copy_pipe env side endpoint
  if not (is_success ret) then pure false else if both then pure true else rest

-- The `while` loop over the endpoint descriptors, each in its turn.
unfoldable pub pipes_loop : Env → List Ref → M Input Bool
pipes_loop env [] = pure false
pipes_loop env (endpoint ∷ endpoints) =
    let rest = pipes_loop env endpoints in
    if not (is_interrupt (env.endpoint_type endpoint))
    then rest
    else elim (env.endpoint_direction endpoint) [
      | in_direction ↦ claim_endpoint env in_side endpoint rest
      | out_direction ↦ claim_endpoint env out_side endpoint rest
      | unknown_direction ↦ rest
    ]

unfoldable pub init_pipes : Env → M Input Bool
init_pipes env = do
  v ← load_ivars
  pipes_loop env (env.endpoints v.configuration_descriptor v.interface_descriptor)

abbrev pub init_packet : List ℕ
init_packet = 0x05 ∷ 0x20 ∷ 0x00 ∷ 0x01 ∷ 0x00 ∷ []

abbrev pub init_packet_size : ℕ
init_packet_size = 5

abbrev pub swap_to_wired_packet : List ℕ
swap_to_wired_packet = 0x05 ∷ 0x20 ∷ 0x00 ∷ 0x0f ∷ 0x06 ∷ []

abbrev pub swap_to_wired_packet_size : ℕ
swap_to_wired_packet_size = 5

unfoldable pub retain_interface : M Input Bool
retain_interface = do
  v ← load_ivars
  i ← deref v.interface
  emit (acquire usb_interface i)
  pure true

-- The packets that start the controller, the first request, and the reference to the interface.
unfoldable pub begin_communication : Env → M Input Bool
begin_communication env = do
  first ← send_interrupt_data env init_packet init_packet_size
  second ← send_interrupt_data env swap_to_wired_packet swap_to_wired_packet_size
  requested ← request_async_interrupt_data env
  retain_interface

unfoldable pub create_action : Env → M Input Bool
create_action env = do
  v ← load_ivars
  (ret, a) ← ask (λ log. env.create_action log v.in_pipe.memory.length v.got_data_action)
  store_ivars (record v { got_data_action = a })
  if not (is_success ret) then pure false else do emit_some (acquire action) a; pure true

unfoldable pub call_super_handle_start : Env → M Input Bool
call_super_handle_start env = do
  started ← ask env.super_handle_start
  emit (called super_handle_start)
  pure started

unfoldable pub handle_start : Env → M Input Bool
handle_start env = do
  started ← call_super_handle_start env
  if not started then pure false else do
    described ← init_descriptors env
    if not described then pure false else do
      piped ← init_pipes env
      if not piped then pure false else do
        prepared ← setup_pipes env
        if not prepared then pure false else do
          created ← create_action env
          if not created then pure false else begin_communication env
