-- ===== src/Tester/Enables.antt =====
-- The program, the user client and the interface together.
use vendor_specific_usbdrive.Base.{
  ℕ, ◌≡◌, true, false, Option, none, some, List, [], ◌∷◌, arith, length, pure, ◌>>=◌,
}
use vendor_specific_usbdrive.Kit.{Ref, success}
use vendor_specific_usbdrive.Input.State.{Ivars, Input}
use vendor_specific_usbdrive.Client.State.{System, ClientEnv, Arguments, update}
use vendor_specific_usbdrive.Client.Licensing.{external_method}
use vendor_specific_usbdrive.Client.Licensing.Laws.{
  ChecksArguments, attached, with_enabled, external_method-licensing,
}
use vendor_specific_usbdrive.Tester.{
  printed, searching, opened_service, input_line, output_line, tried, iterator_released, World,
  TesterEnv, find_service, print_results, call_licensing, announce, conclude, main,
}

-- The arguments of a call with scalars only.
abbrev pub scalar_arguments : (input output : List ℕ) → Arguments
scalar_arguments input output = record {
  scalar_input = input;
  scalar_output = output;
  structure_input_size = 0;
  structure_output_size = 0;
  has_completion = false;
}

-- IOKit, as it is documented: a call over the connection becomes an `ExternalMethod` of the user
-- client, without an entry and a target, and hands its result and its outputs back.
pub record Delivers (env : TesterEnv) (client : ClientEnv) (connection this : Ref) : Type 0 where
  pub delivers :
      (selector : ℕ) (input output : List ℕ) (s : System)
      → env.call_scalar_method connection selector input output s
        ≡ (external_method client this selector (scalar_arguments input output) none none 0
              >>= λ (ret, a). pure (ret, a.scalar_output, length a.scalar_output))
            s

-- With IOKit and DriverKit as documented: where the first service opens, and its user client is
-- attached to a live interface, the program enables that interface, prints the input and the output
-- 1, and exits with 0. All else in the system stays as it was.
pub main-enables :
    (env : TesterEnv) (client : ClientEnv) (connection this : Ref)
    → Delivers env client connection this
    → ChecksArguments client
    → (w : World) (iterator : Option Ref) (service : Ref) (services : List Ref)
    → env.matching_services w.events ≡ (success, iterator)
    → env.services iterator ≡ service ∷ services
    → env.open_service (printed searching ∷ w.events) service ≡ (success, connection)
    → (r : Ref) (i : Input) (v : Ivars) → w.system.clients this ≡ some (attached (some r))
    → w.system.interfaces r ≡ some i
    → i.ivars ≡ some v
    → main env w
      ≡ some (
        0,
        record {
          system = record (w.system) {
            interfaces = update w.system.interfaces r (with_enabled i v true);
          };
          events =
              printed (output_line 1 1)
              ∷ printed (input_line 1 1)
              ∷ iterator_released iterator
              ∷ printed opened_service
              ∷ tried service success
              ∷ printed searching
              ∷ w.events;
        },
      )
unfolding main announce find_service conclude call_licensing print_results
main-enables env client connection this d checks w iterator service services e f g r i v h k l =
    ground (
      arith,
      d.delivers 1 (1 ∷ []) (0 ∷ []) w.system,
      external_method-licensing client this none 0 checks w.system r 1 0 i v h k l,
    )
