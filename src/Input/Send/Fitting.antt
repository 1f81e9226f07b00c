-- ===== src/Input/Send/Fitting.antt =====
-- A run of `SendInterruptData` with packets of all lengths.
use vendor_specific_usbdrive.Base.{ℕ, ◌≡◌, ◌<◌, some, List, [], ◌∷◌, length, leb, if◌then◌else◌}
use vendor_specific_usbdrive.Kit.{Ref}
use vendor_specific_usbdrive.Input.State.{Input, Env}
use vendor_specific_usbdrive.Input.Send.Counter.{send_each, numbered}

-- Each packet has the bytes up to its counter.
abbrev pub HasCounters : List (List ℕ) → Type 0
HasCounters [] = Unit {0}
HasCounters (p ∷ ps) = (2 < length p) × HasCounters ps

-- The packets of at most so many bytes.
abbrev pub fitting : ℕ → List (List ℕ) → List (List ℕ)
fitting room [] = []
fitting room (p ∷ ps) = if leb (length p) room then p ∷ fitting room ps else fitting room ps

module _ (env : Env) where
  abbrev Sends : List (List ℕ) → ℕ → Ref → ℕ → Input → Type 0
  Sends ps first pipe room s =
      (s' : Input) × (send_each env ps s ≡ some (tt, s'))
      × (s'.log ≡ numbered pipe first (fitting room ps) s.log)
