-- ===== src/Tests/Client.antt =====
-- A user client that is attached to an interface, and calls of its external methods.
use vendor_specific_usbdrive.Base.{
  ℕ, ◌≡◌, refl, true, false, Option, none, some, List, [], ◌∷◌, arith, ◌==◌, if◌then◌else◌, M,
}
use vendor_specific_usbdrive.Kit.{Ref, KernReturn, success, bad_argument}
use vendor_specific_usbdrive.Packets.{read_header}
use vendor_specific_usbdrive.Input.State.{Input, report, request}
use vendor_specific_usbdrive.Input.Session.{
  Signal, completed, run, step, completions, HasHeaders, StaysOff,
}
use vendor_specific_usbdrive.Input.Session.Off.{IsQuiet}
use vendor_specific_usbdrive.Client.State.{System, ClientEnv, Arguments, MethodDispatch, update}
use vendor_specific_usbdrive.Client.Lifecycle.{new_user_client}
use vendor_specific_usbdrive.Client.Lifecycle.Laws.{new_user_client-attaches}
use vendor_specific_usbdrive.Client.Licensing.{external_method, invoke}
use vendor_specific_usbdrive.Client.Licensing.Laws.{
  counts_match, ChecksArguments, licensing_arguments, attached, with_enabled,
  external_method-licensing,
}
use vendor_specific_usbdrive.Client.Licensing.Safety.{IsConfined, external_method-IsConfined}
use vendor_specific_usbdrive.Client.Licensing.Effect.{licensing_off, licensing_on}
use vendor_specific_usbdrive.Tests.Fixtures.{
  sample_env, ready_ivars, ready_input, ready-IsReady, button_bytes,
}

-- The superclass checks the counts and calls the function of the entry.
pub checked_call :
    ℕ → Arguments → Option MethodDispatch → Option Ref → ℕ → M System (KernReturn × Arguments)
checked_call selector a none target reference s = some ((bad_argument, a), s)
checked_call selector a (some d) target reference s = elim d.function [
  | none ↦ some ((bad_argument, a), s)
  | some f ↦ if counts_match d a then invoke f target a s else some ((bad_argument, a), s)
]

-- Client 3 is created, and object 4 is none.
abbrev pub sample_client_env : ClientEnv
sample_client_env = record {
  super_init = λ log. true;
  allocates = λ log. true;
  super_start = λ log this. success;
  register_service = λ log this. success;
  super_stop = λ log this. success;
  as_input_interface = λ r. r;
  as_user_client = λ r. elim r [ none ↦ none | some q ↦ if q == 3 then some 3 else none ];
  create = λ log this. (success, some 3);
  super_external_method = checked_call;
}

pub sample-ChecksArguments : ChecksArguments sample_client_env
unfolding checked_call
sample-ChecksArguments = record {
  calls = λ selector a target reference s m c. ground arith;
  refuses = λ selector a target reference s m. ground arith;
}

-- Client 3 is attached to interface 5, and client 6 to none.
abbrev pub sample_system : System
sample_system = record {
  clients = λ r.
      if r == 3 then some (attached (some 5)) else if r == 6 then some (attached none) else none;
  interfaces = λ r. if r == 5 then some ready_input else none;
  log = [];
}

-- Two numbers in.
abbrev wide_arguments : Arguments
wide_arguments = record (licensing_arguments 1 7) { scalar_input = 1 ∷ 2 ∷ [] }

external_method-IsConfined_example :
    (ret : KernReturn) × (b : Arguments) × (t : System) × (external_method sample_client_env 3 1
        wide_arguments none none 0 sample_system
      ≡ some ((ret, b), t))
    × IsConfined 1 wide_arguments (some 5) sample_system ret b t
external_method-IsConfined_example =
    external_method-IsConfined sample_client_env 3 none 0 sample-ChecksArguments sample_system
      (some 5) refl 1 wide_arguments refl (omega arith) refl

external_method-licensing_example :
    external_method sample_client_env 3 1 (licensing_arguments 0 7) none none 0 sample_system
    ≡ some (
      (success, licensing_arguments 0 0),
      record sample_system {
        interfaces = update sample_system.interfaces 5 (with_enabled ready_input ready_ivars false);
      },
    )
external_method-licensing_example =
    external_method-licensing sample_client_env 3 none 0 sample-ChecksArguments sample_system 5 0 7
      ready_input ready_ivars refl refl refl

licensing_off_example :
    (s' : System) × (j : Input) × (external_method sample_client_env 3 1
        (licensing_arguments 0 7)
        none
        none
        0
        sample_system
      ≡ some ((success, licensing_arguments 0 0), s'))
    × (s'.interfaces 5 ≡ some j)
    × ((xs : List Signal)
        → HasHeaders xs
        → StaysOff xs
        → (t : Input) × (run sample_env xs j ≡ some (tt, t))
          × IsQuiet ready_input t (completions xs))
licensing_off_example =
    licensing_off sample_client_env sample_env 3 none 0 sample-ChecksArguments sample_system 5
      ready_input refl refl ready-IsReady 7

licensing_on_example :
    (s' : System) × (j : Input) × (t : Input) × (external_method sample_client_env 3 1
        (licensing_arguments 2 7)
        none
        none
        0
        sample_system
      ≡ some ((success, licensing_arguments 2 1), s'))
    × (s'.interfaces 5 ≡ some j)
    × (step sample_env (completed success 18 1000 button_bytes) j ≡ some (tt, t))
    × (t.log ≡ request 31 (some 41) 18 (some 60) ∷ report 1000 (some 41) 18 ∷ [])
unfolding read_header ready-IsReady
licensing_on_example =
    licensing_on sample_client_env sample_env 3 none 0 sample-ChecksArguments sample_system 5
      ready_input refl refl ready-IsReady 2 7 18 1000 button_bytes
      (record { packet_type = 0x20; version = 0x00; counter = 7; size = 14 })
      (λ e. absurd (omega (arith, e))) refl refl

abbrev new_system : System
new_system = record sample_system { clients = λ r. if r == 3 then some (attached none) else none }

new_user_client-attaches_example :
    new_user_client sample_client_env 5 none new_system
    ≡ some (
      (success, some 3),
      record new_system { clients = update new_system.clients 3 (attached (some 5)) },
    )
new_user_client-attaches_example =
    new_user_client-attaches sample_client_env 5 none new_system 3 3
      (record { input_interface = none }) refl refl refl

-- The properties name a class that is no user client.
abbrev misnamed_env : ClientEnv
misnamed_env = record sample_client_env { create = λ log this. (success, some 4) }
