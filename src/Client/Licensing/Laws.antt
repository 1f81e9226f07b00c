-- ===== src/Client/Licensing/Laws.antt =====
-- What the licensing call of the user client does, with DriverKit's part of it.
use vendor_specific_usbdrive.Base.{
  ℕ, ◌≡◌, Bool, true, false, Option, none, some, [], ◌∷◌, arith, length, not, ◌==◌, ◌&&◌,
  if◌then◌else◌,
}
use vendor_specific_usbdrive.Kit.{Ref, success, bad_argument}
use vendor_specific_usbdrive.Input.State.{Ivars, Input}
use vendor_specific_usbdrive.Input.Receive.{set_enable}
use vendor_specific_usbdrive.Client.State.{
  Client, System, ClientEnv, Arguments, licensing_method, MethodDispatch, update,
}
use vendor_specific_usbdrive.Client.Licensing.{
  licensing_dispatch, external_method, static_handle_licensing, invoke,
}

-- The arguments have the counts of a dispatch entry.
abbrev pub counts_match : MethodDispatch → Arguments → Bool
counts_match d a =
    length a.scalar_input == d.check_scalar_input_count
    && (length a.scalar_output == d.check_scalar_output_count
        && (a.structure_input_size == d.check_structure_input_size
            && a.structure_output_size == d.check_structure_output_size))

-- `IOUserClient::ExternalMethod` with the licensing entry, as it is documented: it checks the
-- counts, and then calls the function of the entry.
pub record ChecksArguments (env : ClientEnv) : Type 0 where
  pub calls :
      (selector : ℕ) (a : Arguments) (target : Option Ref) (reference : ℕ) (s : System)
      → counts_match licensing_dispatch a ≡ true
      → a.has_completion ≡ false
      → env.super_external_method selector a (some licensing_dispatch) target reference s
        ≡ invoke licensing_method target a s
  pub refuses :
      (selector : ℕ) (a : Arguments) (target : Option Ref) (reference : ℕ) (s : System)
      → counts_match licensing_dispatch a ≡ false
      → env.super_external_method selector a (some licensing_dispatch) target reference s
        ≡ some ((bad_argument, a), s)

-- The call of the licensing method with one number and room for one.
abbrev pub licensing_arguments : (input output : ℕ) → Arguments
licensing_arguments input output = record {
  scalar_input = input ∷ [];
  scalar_output = output ∷ [];
  structure_input_size = 0;
  structure_output_size = 0;
  has_completion = false;
}

abbrev pub attached : Option Ref → Client
attached r = record { ivars = some (record { input_interface = r }) }

-- A number is true if it is not 0.
abbrev pub truth : ℕ → Bool
truth n = not (n == 0)

abbrev pub truth_value : ℕ → ℕ
truth_value n = if n == 0 then 0 else 1

abbrev pub with_enabled : Input → Ivars → Bool → Input
with_enabled i v on = record i { ivars = some (record v { enabled = on }) }

module _ (env : ClientEnv) (this : Ref) (dispatch : Option MethodDispatch) (reference : ℕ) where
  module _ (checks : ChecksArguments env) (s : System) where
    pub external_method-static :
        (a : Arguments)
        → counts_match licensing_dispatch a ≡ true
        → a.has_completion ≡ false
        → external_method env this 1 a dispatch none reference s
          ≡ static_handle_licensing (some this) a s
    unfolding external_method
    external_method-static a m c = checks.calls 1 a (some this) reference s m c

    -- With DriverKit's check of the counts, and a client that is attached to a live interface: a
    -- licensing call succeeds, enables the interface if its number is not 0 and disables it if it
    -- is 0, and returns 1 or 0 accordingly. All else in the interface, every other interface and
    -- every client stay as they were.
    pub external_method-licensing :
        (r input output : ℕ) (i : Input) (v : Ivars)
        → s.clients this ≡ some (attached (some r))
        → s.interfaces r ≡ some i
        → i.ivars ≡ some v
        → external_method env this 1 (licensing_arguments input output) dispatch none reference s
          ≡ some (
            (success, licensing_arguments input (truth_value input)),
            record s { interfaces = update s.interfaces r (with_enabled i v (truth input)) },
          )
    unfolding static_handle_licensing set_enable
    external_method-licensing r input output i v e f g =
        ground (arith, external_method-static (licensing_arguments input output))
