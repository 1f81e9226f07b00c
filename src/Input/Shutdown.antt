-- ===== src/Input/Shutdown.antt =====
-- `Stop` and `free`.
pub mod Laws
use vendor_specific_usbdrive.Base.{
  none, some, not, if◌then◌else◌, is_some, M, pure, deref, ◌>>=◌, ◌>>◌,
}
use vendor_specific_usbdrive.Kit.{Ref, KernReturn, success}
use vendor_specific_usbdrive.Input.State.{
  Ivars, acquire, release, called, cancelled, super_stop, super_free, usb_interface, configuration,
  in_endpoint, out_endpoint, in_buffer, out_buffer, action, self, provider, Input, Env, load_ivars,
  emit, emit_some, ask,
}

abbrev pub call_super_stop : Env → M Input KernReturn
call_super_stop env = do ret ← ask env.super_stop; emit (called super_stop); pure ret

-- With no action to cancel `Stop` is passed on at once. Otherwise the driver and the provider are
-- retained, and `finalize` follows when the cancellation is complete.
unfoldable pub stop : Env → (this from : Ref) → M Input KernReturn
stop env this from = do
  v ← load_ivars
  if not (is_some v.got_data_action) then call_super_stop env else do
    emit (acquire self this)
    emit (acquire provider from)
    a ← deref v.got_data_action
    emit (cancelled a)
    pure success

-- The block that `Cancel` calls.
unfoldable pub finalize : Env → (this from : Ref) → M Input (Unit {0})
finalize env this from = do
  status ← call_super_stop env
  emit (release self this)
  emit (release provider from)

abbrev pub release_ivars : Ivars → M Input (Unit {0})
release_ivars v = do
  emit_some (release configuration) v.configuration_descriptor
  emit_some (release in_endpoint) v.in_pipe.pipe
  emit_some (release in_buffer) v.in_pipe.memory.buffer
  emit_some (release out_endpoint) v.out_pipe.pipe
  emit_some (release out_buffer) v.out_pipe.memory.buffer
  emit_some (release action) v.got_data_action
  emit_some (release usb_interface) v.interface

abbrev pub clear_ivars : M Input (Unit {0})
clear_ivars s = some (tt, record s { ivars = none })

unfoldable pub free : M Input (Unit {0})
free s = elim s.ivars [
  | none ↦ emit (called super_free) s
  | some v ↦ (do release_ivars v; clear_ivars; emit (called super_free)) s
]
