-- ===== src/Client/Lifecycle.antt =====
-- Startup, creation and shutdown of a user client.
pub mod Laws
use vendor_specific_usbdrive.Base.{
  Bool, true, false, Option, none, some, not, if◌then◌else◌, M, pure, deref, ◌>>=◌, ◌>>◌, is_some,
}
use vendor_specific_usbdrive.Kit.{Ref, KernReturn, success, error, is_success}
use vendor_specific_usbdrive.Client.State.{
  System, ClientEnv, load_client, load_client_ivars, store_client_ivars, note, ask_log,
  client_released, service_registered, super_started, super_stopped, super_freed,
}

unfoldable pub init : ClientEnv → Ref → M System Bool
init env this = do
  result ← ask_log env.super_init
  if not result then pure false else do
    allocated ← ask_log env.allocates
    if not allocated
        then pure false
        else do store_client_ivars this (some (record { input_interface = none })); pure true

unfoldable pub start : ClientEnv → Ref → M System KernReturn
start env this = do
  ret ← ask_log (λ log. env.super_start log this)
  note (super_started this)
  if not (is_success ret) then pure ret else do
    ret' ← ask_log (λ log. env.register_service log this)
    note (service_registered this)
    if not (is_success ret') then pure ret' else pure success

unfoldable pub set_input_interface : ClientEnv → Ref → Option Ref → M System (Unit {0})
set_input_interface env this interface = do
  v ← load_client_ivars this
  store_client_ivars this (some (record v { input_interface = env.as_input_interface interface }))

unfoldable pub stop : ClientEnv → Ref → M System KernReturn
stop env this = do
  ret ← ask_log (λ log. env.super_stop log this)
  note (super_stopped this)
  pure ret

unfoldable pub free : Ref → M System (Unit {0})
free this = do c ← load_client this; store_client_ivars this none; note (super_freed this)

-- `XboxOneInputInterface::NewUserClient_Impl`: the result, and what is left in `*userClient`.
-- `NewUserClient` starts with a null pointer in `client`, and `before` in `*userClient`.
unfoldable pub new_user_client : ClientEnv → Ref → Option Ref → M System (KernReturn × Option Ref)
unfolding set_input_interface
new_user_client env this before = do
  (ret, client) ← ask_log (λ log. env.create log this)
  if not (is_success ret) then pure (ret, before) else do
    let user_client = env.as_user_client client
    if not (is_some user_client)
        then (do c ← deref client; note (client_released c); pure (error, user_client))
        else do
          u ← deref user_client
          set_input_interface env u (some this)
          pure (ret, user_client)
