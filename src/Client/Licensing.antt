-- ===== src/Client/Licensing.antt =====
-- The external methods of the user client.
pub mod Laws
pub mod Effect
pub mod Safety
use vendor_specific_usbdrive.Base.{
  ℕ, zero, Bool, true, false, Option, none, some, List, [], ◌∷◌, not, ◌==◌, ltb, if◌then◌else◌,
  is_some, get_elem?, set, length, M, pure, fault, deref, ◌>>=◌, ◌>>◌,
}
use vendor_specific_usbdrive.Kit.{Ref, KernReturn, success, error, not_found}
use vendor_specific_usbdrive.Input.Receive.{set_enable}
use vendor_specific_usbdrive.Client.State.{
  System, ClientEnv, Arguments, Method, licensing_method, MethodDispatch, load_client_ivars,
  load_interface, store_interface,
}

-- `ExternalMethodType`.
abbrev pub external_method_type_unknown : ℕ
external_method_type_unknown = 0

abbrev pub external_method_type_licensing : ℕ
external_method_type_licensing = 1

abbrev pub number_of_external_methods : ℕ
number_of_external_methods = 2

abbrev pub licensing_dispatch : MethodDispatch
licensing_dispatch = record {
  function = some licensing_method;
  check_completion_exists = false;
  check_scalar_input_count = 1;
  check_structure_input_size = 0;
  check_scalar_output_count = 1;
  check_structure_output_size = 0;
}

-- `externalMethodChecks`; its first element is not populated.
abbrev pub external_method_checks : List MethodDispatch
external_method_checks =
    record {
      function = none;
      check_completion_exists = false;
      check_scalar_input_count = 0;
      check_structure_input_size = 0;
      check_scalar_output_count = 0;
      check_structure_output_size = 0;
    }
    ∷ licensing_dispatch
    ∷ []

-- `scalarOutput[0] = b`.
abbrev pub put_output : Arguments → Bool → M System Arguments
put_output a b =
    if ltb 0 (length a.scalar_output)
    then pure (record a { scalar_output = set a.scalar_output 0 (if b then 1 else 0) })
    else fault

unfoldable pub handle_licensing : Ref → Arguments → M System (KernReturn × Arguments)
handle_licensing this a = do
  input ← deref (get_elem? a.scalar_input 0)
  let enable = not (input == 0)
  v ← load_client_ivars this
  if is_some v.input_interface
      then (do
        r ← deref v.input_interface
        i ← load_interface r
        store_interface r (set_enable enable i)
        b ← put_output a enable
        pure (success, b))
      else (do b ← put_output a false; pure (success, b))

unfoldable pub static_handle_licensing : Option Ref → Arguments → M System (KernReturn × Arguments)
unfolding handle_licensing
static_handle_licensing target a = elim target [
  | none ↦ pure (error, a)
  | some this ↦ handle_licensing this a
]

-- A call through the function pointer of a dispatch entry.
abbrev pub invoke : Method → Option Ref → Arguments → M System (KernReturn × Arguments)
invoke licensing_method target a = static_handle_licensing target a

-- The selector is an unsigned 64-bit number.
unfoldable pub external_method :
    ClientEnv
    → Ref
    → ℕ
    → Arguments
    → Option MethodDispatch
    → Option Ref
    → ℕ
    → M System (KernReturn × Arguments)
external_method env this selector a dispatch target reference =
    if not (ltb external_method_type_unknown selector)
    then pure (not_found, a)
    else if ltb selector number_of_external_methods
    then (do
      entry ← deref (get_elem? external_method_checks selector)
      env.super_external_method selector a (some entry)
          (if is_some target then target else some this) reference)
    else env.super_external_method selector a dispatch target reference
