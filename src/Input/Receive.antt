-- ===== src/Input/Receive.antt =====
-- Data from the device: `RequestAsyncInterruptData`, the handlers of the reports, `GotData`, and
-- `SetEnable`, by which the user client turns the handling on and off.
pub mod Laws
pub mod Reaction
pub mod Answer
use vendor_specific_usbdrive.Base.{
  ℕ, ◌%◌, ◌^◌, Bool, true, false, Option, List, [], ◌∷◌, ◌==◌, if◌then◌else◌, not, none, some,
  replicate, M, pure, deref, ◌>>=◌, ◌>>◌,
}
use vendor_specific_usbdrive.Kit.{Ref, KernReturn, is_success}
use vendor_specific_usbdrive.Packets.{
  ReportHeader, read_header, in_button, in_guide, packet_type_code, GuideResponse,
  guide_response_bytes, button_report_size, guide_report_size, guide_response_size,
}
use vendor_specific_usbdrive.Input.State.{
  Ivars, request, report, Input, Env, load_ivars, store_ivars, emit, ask,
}
use vendor_specific_usbdrive.Input.Send.{send_interrupt_data}

-- `AsyncIO` on the `IN` pipe, with the action of `GotData`. The length is cast to 32 bits.
unfoldable pub request_async_interrupt_data : Env → M Input KernReturn
request_async_interrupt_data env = do
  v ← load_ivars
  pipe ← deref v.in_pipe.pipe
  ret ← ask (λ log. env.async_io log pipe)
  emit (request pipe v.in_pipe.memory.buffer (v.in_pipe.memory.length % 2 ^ 32) v.got_data_action)
  pure ret

-- `handleReport` of the superclass.
abbrev pub pass_report : Env → ℕ → Option Ref → ℕ → M Input KernReturn
pass_report env time buffer count = do
  ret ← ask (λ log. env.handle_report log time buffer count)
  emit (report time buffer count)
  pure ret

unfoldable pub handle_report_generic : Env → List ℕ → ℕ → ℕ → ℕ → ℕ → M Input Bool
handle_report_generic env bytes count time packet_type size = do
  header ← deref (read_header bytes)
  if not (header.packet_type == packet_type) then pure false else do
    if not (header.size == size) then pure false else do
      v ← load_ivars
      ret ← pass_report env time v.in_pipe.memory.buffer count
      pure (is_success ret)

unfoldable pub handle_controller_report : Env → List ℕ → ℕ → ℕ → M Input Bool
unfolding handle_report_generic
handle_controller_report env bytes count time =
    handle_report_generic env bytes count time (packet_type_code in_button) button_report_size

abbrev pub guide_response : GuideResponse
guide_response = record {
  header = record { packet_type = 0x01; version = 0x20; counter = 0x00; size = 0x09 };
  const_data = 0x00 ∷ 0x07 ∷ 0x20 ∷ 0x02 ∷ [];
  padding = replicate 5 0;
}

unfoldable pub handle_guide_report : Env → List ℕ → ℕ → ℕ → M Input Bool
unfolding handle_report_generic
handle_guide_report env bytes count time = do
  result ← handle_report_generic env bytes count time (packet_type_code in_guide) guide_report_size
  if not result then pure false else do
    header ← deref (read_header bytes)
    if not (header.version == 0x30) then pure true else do
      ret ← send_interrupt_data env (guide_response_bytes guide_response) guide_response_size
      pure true

-- The handlers, in turn. `bytes` is the memory of the `IN` pipe, which the pointer `header` names.
unfoldable pub dispatch_report : Env → List ℕ → ℕ → ℕ → M Input (Unit {0})
unfolding handle_controller_report handle_guide_report
dispatch_report env bytes count time = do
  handled ← handle_controller_report env bytes count time
  if handled then pure tt else do handled' ← handle_guide_report env bytes count time; pure tt

-- Every path leads to `Exit`, which asks for the next packet.
unfoldable pub got_data : Env → KernReturn → ℕ → ℕ → M Input (Unit {0})
unfolding dispatch_report request_async_interrupt_data
got_data env status count time =
    (if not (is_success status) then pure tt else do
      v ← load_ivars
      if not v.enabled
          then pure tt
          else do bytes ← deref v.in_pipe.memory.address; dispatch_report env bytes count time)
    >> (do ret ← request_async_interrupt_data env; pure tt)

-- After `free` the pointer to the stored variables is null, and nothing happens.
unfoldable pub set_enable : Bool → Input → Input
set_enable on s = elim s.ivars [
  | none ↦ s
  | some v ↦ record s { ivars = some (record v { enabled = on }) }
]
