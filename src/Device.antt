-- ===== src/Device.antt =====
-- XboxControllerDriver/XboxOne/XboxOneDevice.cpp: the driver of the USB device, which makes the
-- interfaces of the controller appear.
pub mod Laws
pub mod Success
use vendor_specific_usbdrive.Base.{
  ℕ, Bool, true, false, Option, none, some, List, ◌∷◌, ltb, not, if◌then◌else◌, is_some, M, pure,
  deref, ◌>>=◌, ◌>>◌,
}
use vendor_specific_usbdrive.Kit.{Ref, KernReturn, success, error, is_success}

pub data Descriptor : Type 0 where
  device_descriptor configuration_descriptor : Descriptor

-- What the driver has done to its environment.
pub data DeviceEvent : Type 0 where
  copied freed : Descriptor → Ref → DeviceEvent
  opened : Ref → DeviceEvent
  -- `SetConfiguration` with its value and `matchInterfaces`.
  configured : Ref → ℕ → Bool → DeviceEvent
  registered super_inited super_started super_stopped super_freed : DeviceEvent

-- `XboxOneDevice_IVars` has no members; they are allocated or null.
pub record Device : Type 0 where
  pub allocated : Bool
  pub log : List DeviceEvent

-- USBDriverKit and DriverKit, as the device driver calls them.
pub record DeviceEnv : Type 0 where
  pub super_init : List DeviceEvent → Bool
  pub allocates : List DeviceEvent → Bool
  pub as_host_device : Option Ref → Option Ref
  pub copy_device_descriptor : List DeviceEvent → Ref → Option Ref
  pub num_configurations : Ref → ℕ
  pub open_device : List DeviceEvent → Ref → KernReturn
  pub copy_configuration_descriptor : List DeviceEvent → Ref → ℕ → Option Ref
  pub set_configuration : List DeviceEvent → Ref → ℕ → Bool → KernReturn
  pub super_start : List DeviceEvent → KernReturn
  pub register_service : List DeviceEvent → KernReturn
  pub super_stop : List DeviceEvent → KernReturn

abbrev pub emit : DeviceEvent → M Device (Unit {0})
emit e s = some (tt, record s { log = e ∷ s.log })

abbrev pub emit_some : (Ref → DeviceEvent) → Option Ref → M Device (Unit {0})
emit_some f none s = some (tt, s)
emit_some f (some r) s = emit (f r) s

abbrev pub ask : {A : Type 0} → (List DeviceEvent → A) → M Device A
ask f s = some (f s.log, s)

abbrev pub set_allocated : Bool → M Device (Unit {0})
set_allocated b s = some (tt, record s { allocated = b })

abbrev pub target_configuration : ℕ
target_configuration = 1

unfoldable pub init : DeviceEnv → M Device Bool
init env = do
  result ← ask env.super_init
  emit super_inited
  if not result
      then pure false
      else do allocated ← ask env.allocates; set_allocated allocated; pure allocated

-- Behind the label `Exit` of `Start`.
abbrev pub exit : KernReturn → (device configuration : Option Ref) → M Device KernReturn
exit ret device configuration = do
  emit_some (freed device_descriptor) device
  emit_some (freed configuration_descriptor) configuration
  pure ret

-- From `SetConfiguration` on.
unfoldable pub activate :
    DeviceEnv → Ref → (device configuration : Option Ref) → M Device KernReturn
activate env device dd cd = do
  ret ← ask (λ log. env.set_configuration log device target_configuration true)
  emit (configured device target_configuration true)
  if not (is_success ret) then exit ret dd cd else do
    ret' ← ask env.super_start
    emit super_started
    if not (is_success ret') then exit ret' dd cd else do
      ret'' ← ask env.register_service
      emit registered
      if not (is_success ret'') then exit ret'' dd cd else exit success dd cd

unfoldable pub start : DeviceEnv → Option Ref → M Device KernReturn
unfolding activate
start env provider =
    if not (is_some (env.as_host_device provider)) then exit error none none else do
      device ← deref (env.as_host_device provider)
      dd ← ask (λ log. env.copy_device_descriptor log device)
      if not (is_some dd) then exit success dd none else do
        descriptor ← deref dd
        emit (copied device_descriptor descriptor)
        if ltb (env.num_configurations descriptor) 1 then exit success dd none else do
          ret ← ask (λ log. env.open_device log device)
          emit (opened device)
          if not (is_success ret) then exit ret dd none else do
            cd ← ask (λ log. env.copy_configuration_descriptor log device target_configuration)
            if not (is_some cd) then exit ret dd cd else do
              configuration ← deref cd
              emit (copied configuration_descriptor configuration)
              activate env device dd cd

unfoldable pub stop : DeviceEnv → M Device KernReturn
stop env = do ret ← ask env.super_stop; emit super_stopped; pure ret

unfoldable pub free : M Device (Unit {0})
free = do set_allocated false; emit super_freed
