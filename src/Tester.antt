-- ===== src/Tester.antt =====
-- UserClientTester/main.cpp: a program that looks for the driver's service and enables the driver by
-- the licensing method of its user client.
pub mod Laws
pub mod Enables
use vendor_specific_usbdrive.Base.{
  ℕ, Option, none, some, List, [], ◌∷◌, not, if◌then◌else◌, is_some, get_elem?, M, pure, deref,
  ◌>>=◌, ◌>>◌,
}
use vendor_specific_usbdrive.Kit.{Ref, KernReturn, is_success}
use vendor_specific_usbdrive.Client.State.{System}

-- What is printed.
pub data Line : Type 0 where
  matching_failed opening_failed call_failed : KernReturn → Line
  searching opened_service no_match : Line
  input_line output_line : (size value : ℕ) → Line

-- A service has been tried, by `IOServiceOpen`, with its result.
pub data TesterEvent : Type 0 where
  printed : Line → TesterEvent
  tried : Ref → KernReturn → TesterEvent
  service_released : Ref → TesterEvent
  iterator_released : Option Ref → TesterEvent

-- The program beside the system that it calls. The latest event is first.
pub record World : Type 0 where
  pub system : System
  pub events : List TesterEvent

-- IOKit.
pub record TesterEnv : Type 0 where
  -- `IOServiceGetMatchingServices`: the result, and the iterator that it leaves.
  pub matching_services : List TesterEvent → KernReturn × Option Ref
  -- The services that `IOIteratorNext` gives, in their order.
  pub services : Option Ref → List Ref
  -- `IOServiceOpen`: the result, and the connection that it leaves.
  pub open_service : List TesterEvent → Ref → KernReturn × Ref
  -- `IOConnectCallScalarMethod`, with the output array: the result, and what it leaves there.
  pub call_scalar_method :
      Ref → (selector : ℕ) → (input output : List ℕ) → M System (KernReturn × List ℕ × ℕ)

abbrev pub note_event : TesterEvent → M World (Unit {0})
note_event e w = some (tt, record w { events = e ∷ w.events })

abbrev pub print : Line → M World (Unit {0})
print l = note_event (printed l)

abbrev pub ask_kit : {A : Type 0} → (List TesterEvent → A) → M World A
ask_kit f w = some (f w.events, w)

-- A call that reaches the system.
abbrev pub in_system : {A : Type 0} → M System A → M World A
in_system m w = elim (m w.system) [ none ↦ none | some (a, s) ↦ some (a, record w { system = s }) ]

-- The `while` loop: the connection to the first service that opens, if one does.
unfoldable pub find_service : TesterEnv → List Ref → M World (Option Ref)
find_service env [] = pure none
find_service env (service ∷ services) =
    let rest = find_service env services in
    do
      (ret, connection) ← ask_kit (λ log. env.open_service log service)
      note_event (tried service ret)
      if is_success ret
          then (do print opened_service; pure (some connection))
          else do print (opening_failed ret); note_event (service_released service); rest

abbrev pub licensing_selector : ℕ
licensing_selector = 1

-- The input array: `true`.
abbrev pub input_array : List ℕ
input_array = 1 ∷ []

unfoldable pub print_results : KernReturn × List ℕ × ℕ → M World (Unit {0})
print_results (ret, output, output_size) = do
  (if not (is_success ret) then print (call_failed ret) else pure tt)
  i ← deref (get_elem? input_array 0)
  print (input_line 1 i)
  o ← deref (get_elem? output 0)
  print (output_line output_size o)

unfoldable pub call_licensing : TesterEnv → (connection : Ref) → M World (Unit {0})
call_licensing env connection = do
  answer ← in_system (env.call_scalar_method connection licensing_selector input_array (0 ∷ []))
  print_results answer

abbrev pub exit_success : ℕ
exit_success = 0

-- `EXIT_FAILURE`.
abbrev pub exit_failure : ℕ
exit_failure = 1

-- Before the search.
unfoldable pub announce : KernReturn → M World (Unit {0})
announce ret = do
  (if not (is_success ret) then print (matching_failed ret) else pure tt)
  print searching

-- After the search: the exit code.
unfoldable pub conclude : TesterEnv → (iterator connection : Option Ref) → M World ℕ
conclude env iterator found = do
  note_event (iterator_released iterator)
  if not (is_some found)
      then (do print no_match; pure exit_failure)
      else do connection ← deref found; call_licensing env connection; pure exit_success

unfoldable pub main : TesterEnv → M World ℕ
main env = do
  (ret, iterator) ← ask_kit env.matching_services
  announce ret
  found ← find_service env (env.services iterator)
  conclude env iterator found
