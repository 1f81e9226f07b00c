-- ===== src/Interface.antt =====
-- XboxControllerDriver/XboxOne/XboxOneInterface.cpp: a driver of an interface by its number. No target
-- of the project builds it, and the header that it includes is not in the repository.
pub mod Laws
use vendor_specific_usbdrive.Base.{
  ℕ, Bool, true, false, Option, none, some, List, ◌∷◌, not, ◌==◌, if◌then◌else◌, is_some, M, pure,
  deref, ◌>>=◌, ◌>>◌,
}
use vendor_specific_usbdrive.Kit.{Ref, KernReturn, is_success}
use vendor_specific_usbdrive.Input.State.{
  Super, super_init, super_start, super_handle_start, super_stop, super_free,
}

-- `XboxOneInterfaceType`.
abbrev pub interface_type_unknown : ℕ
interface_type_unknown = 255

abbrev pub interface_type_input : ℕ
interface_type_input = 0

-- `XboxOneInterface_IVars`.
pub record CoreIvars : Type 0 where
  pub interface_type : ℕ
  pub interface : Option Ref

-- What the driver has done to its environment. The latest event is first.
pub data CoreEvent : Type 0 where
  descriptor_copied descriptor_freed : Ref → CoreEvent
  super_called : Super → CoreEvent

-- An interface object; `ivars` is null before `init` and after `free`.
pub record Core : Type 0 where
  pub ivars : Option CoreIvars
  pub log : List CoreEvent

-- The frameworks.
pub record CoreEnv : Type 0 where
  pub super_init_result : List CoreEvent → Bool
  pub allocates : List CoreEvent → Bool
  pub super_start_result : List CoreEvent → KernReturn
  pub super_handle_start_result : List CoreEvent → Bool
  pub super_stop_result : List CoreEvent → KernReturn
  pub as_host_interface : Option Ref → Option Ref
  pub copy_configuration_descriptor : List CoreEvent → Ref → Option Ref
  pub get_interface_descriptor : Ref → Ref → Option Ref
  pub interface_number : Ref → ℕ

abbrev pub emit : CoreEvent → M Core (Unit {0})
emit e s = some (tt, record s { log = e ∷ s.log })

abbrev pub ask : {A : Type 0} → (List CoreEvent → A) → M Core A
ask f s = some (f s.log, s)

abbrev pub load_ivars : M Core CoreIvars
load_ivars s = elim s.ivars [ none ↦ none | some v ↦ some (v, s) ]

abbrev pub store_ivars : Option CoreIvars → M Core (Unit {0})
store_ivars v s = some (tt, record s { ivars = v })

-- `IONewZero` leaves zeroes.
unfoldable pub init : CoreEnv → M Core Bool
init env = do
  result ← ask env.super_init_result
  emit (super_called super_init)
  if not result then pure false else do
    allocated ← ask env.allocates
    if not allocated
        then pure false
        else do store_ivars (some (record { interface_type = 0; interface = none })); pure true

unfoldable pub start : CoreEnv → M Core KernReturn
start env = do ret ← ask env.super_start_result; emit (super_called super_start); pure ret

-- Behind the label `Exit` of `handleStart`.
abbrev pub exit : Bool → (configuration : Option Ref) → M Core Bool
exit result none = pure result
exit result (some r) = do emit (descriptor_freed r); pure result

-- The `switch` on the number of the interface, and the superclass.
unfoldable pub handle_number : CoreEnv → (number configuration : ℕ) → M Core Bool
handle_number env number configuration =
    if number == interface_type_input
    then (do
      result ← ask env.super_handle_start_result
      emit (super_called super_handle_start)
      exit result (some configuration))
    else exit false (some configuration)

unfoldable pub handle_start : CoreEnv → (provider : Option Ref) → M Core Bool
unfolding handle_number
handle_start env provider = do
  v ← load_ivars
  let interface = env.as_host_interface provider
  store_ivars (some (record v { interface = interface }))
  if not (is_some interface) then exit false none else do
    i ← deref interface
    configuration ← ask (λ log. env.copy_configuration_descriptor log i)
    if not (is_some configuration) then exit false none else do
      c ← deref configuration
      emit (descriptor_copied c)
      let descriptor = env.get_interface_descriptor i c
      if not (is_some descriptor)
          then exit false (some c)
          else do d ← deref descriptor; handle_number env (env.interface_number d) c

unfoldable pub stop : CoreEnv → M Core KernReturn
stop env = do ret ← ask env.super_stop_result; emit (super_called super_stop); pure ret

unfoldable pub free : M Core (Unit {0})
free = do store_ivars none; emit (super_called super_free)
