-- ===== src/Input/Session.antt =====
-- A started interface under any sequence of completed transfers and license calls. The device
-- writes the memory of the `IN` pipe, then `GotData` is called; license calls come in between.
pub mod Ready
pub mod Laws
pub mod Off
use vendor_specific_usbdrive.Base.{
  ℕ, zero, suc, ◌+◌, ◌≤◌, ◌≡◌, Bool, true, false, none, some, List, [], ◌∷◌, length, M, pure, ◌>>◌,
}
use vendor_specific_usbdrive.Kit.{KernReturn}
use vendor_specific_usbdrive.Input.State.{
  Ivars, Event, acquire, release, usb_interface, transmit, request, report, acquire, release,
  opened, called, cancelled, Input, Env,
}
use vendor_specific_usbdrive.Input.Receive.{got_data, set_enable}

pub data Signal : Type 0 where
  completed : (status : KernReturn) (count time : ℕ) (bytes : List ℕ) → Signal
  licensed : (on : Bool) → Signal

abbrev pub with_in_memory : Ivars → List ℕ → Ivars
with_in_memory v bytes = record v {
  in_pipe = record (v.in_pipe) { memory = record (v.in_pipe.memory) { address = some bytes } };
}

-- The device's write.
unfoldable pub arrive : List ℕ → Input → Input
arrive bytes s = elim s.ivars [
  | none ↦ s
  | some v ↦ record s { ivars = some (with_in_memory v bytes) }
]

unfoldable pub step : Env → Signal → M Input (Unit {0})
unfolding arrive
step env (completed status count time bytes) s = got_data env status count time (arrive bytes s)
step env (licensed on) s = pure tt (set_enable on s)

unfoldable pub run : Env → List Signal → M Input (Unit {0})
run env [] = pure tt
run env (x ∷ xs) = step env x >> run env xs

-- What is in a log, and in a list of signals.
abbrev pub requests : List Event → ℕ
requests [] = 0
requests (request _ _ _ _ ∷ es) = suc (requests es)
requests (_ ∷ es) = requests es

abbrev pub reports : List Event → ℕ
reports [] = 0
reports (report _ _ _ ∷ es) = suc (reports es)
reports (_ ∷ es) = reports es

abbrev pub transmits : List Event → ℕ
transmits [] = 0
transmits (transmit _ _ ∷ es) = suc (transmits es)
transmits (_ ∷ es) = transmits es

-- How often the provider has been retained.
abbrev pub holds : List Event → ℕ
holds [] = 0
holds (acquire usb_interface _ ∷ es) = suc (holds es)
holds (_ ∷ es) = holds es

-- And how often given back.
abbrev pub drops : List Event → ℕ
drops [] = 0
drops (release usb_interface _ ∷ es) = suc (drops es)
drops (_ ∷ es) = drops es

abbrev pub completion : Signal → ℕ
completion (completed _ _ _ _) = 1
completion (licensed _) = 0

abbrev pub completions : List Signal → ℕ
completions [] = 0
completions (x ∷ xs) = completion x + completions xs

-- The memory of the `IN` pipe holds a header at least.
abbrev pub HasHeader : Signal → Type 0
HasHeader (completed _ _ _ bytes) = 4 ≤ length bytes
HasHeader (licensed _) = Unit {0}

abbrev pub HasHeaders : List Signal → Type 0
HasHeaders [] = Unit {0}
HasHeaders (x ∷ xs) = HasHeader x × HasHeaders xs

-- No call turns the handling on.
abbrev pub LeavesOff : Signal → Type 0
LeavesOff (completed _ _ _ _) = Unit {0}
LeavesOff (licensed on) = on ≡ false

abbrev pub StaysOff : List Signal → Type 0
StaysOff [] = Unit {0}
StaysOff (x ∷ xs) = LeavesOff x × StaysOff xs

abbrev pub counter_of : Input → ℕ
counter_of s = elim s.ivars [ none ↦ 0 | some v ↦ v.out_counter ]

abbrev pub enabled_of : Input → Bool
enabled_of s = elim s.ivars [ none ↦ false | some v ↦ v.enabled ]
