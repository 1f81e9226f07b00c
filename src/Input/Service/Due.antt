-- ===== src/Input/Service/Due.antt =====
-- No packet that is due for a report is lost: what a run reports, in its order.
use vendor_specific_usbdrive.Base.{
  ℕ, ◌≡◌, refl, ◌∙◌, Bool, false, some, List, [], ◌∷◌, arith, ◌==◌, ◌&&◌, ◌||◌, if◌then◌else◌,
}
use vendor_specific_usbdrive.Kit.{is_success}
use vendor_specific_usbdrive.Packets.{ReportHeader, read_header}
use vendor_specific_usbdrive.Input.State.{Input, Env}
use vendor_specific_usbdrive.Input.Session.{
  Signal, completed, licensed, run, HasHeaders, enabled_of,
}
use vendor_specific_usbdrive.Input.Session.Ready.{IsReady}
use vendor_specific_usbdrive.Input.Service.{
  Output, listens, reports, answers, Service, Serves, ignores, passes_over, tells_buttons,
  tells_guide, answers_guide, switches, Served, idle, serve, outputs_of,
}
use vendor_specific_usbdrive.Input.Service.Refines.{run-Served}

-- The bytes are those of a button packet or of a guide packet, by their type and size.
abbrev pub is_ours : List ℕ → Bool
is_ours (t ∷ _ ∷ _ ∷ n ∷ _) = (t == 0x20 && n == 14) || (t == 0x07 && n == 2)
is_ours _ = false

-- The times and counts that are to be reported, behind those that have been; the latest is first.
-- A packet is due if its transfer has succeeded and the last license call before it, or else the
-- flag at the start, has enabled the interface.
abbrev pub due : Bool → List Signal → List (ℕ × ℕ) → List (ℕ × ℕ)
due on [] told = told
due on (licensed on' ∷ xs) told = due on' xs told
due on (completed status count time bytes ∷ xs) told =
    due on xs (if is_success status && (on && is_ours bytes) then (time, count) ∷ told else told)

abbrev pub told : List Output → List (ℕ × ℕ)
told [] = []
told (reports time count ∷ os) = (time, count) ∷ told os
told (listens ∷ os) = told os
told (answers _ ∷ os) = told os

is_ours_lem :
    (bytes : List ℕ) (h : ReportHeader)
    → read_header bytes ≡ some h
    → is_ours bytes
      ≡ ((h.packet_type == 0x20 && h.size == 14) || (h.packet_type == 0x07 && h.size == 2))
unfolding read_header
is_ours_lem [] h e = cc
is_ours_lem (t ∷ []) h e = cc
is_ours_lem (t ∷ v ∷ []) h e = cc
is_ours_lem (t ∷ v ∷ c ∷ []) h e = cc
is_ours_lem (t ∷ v ∷ c ∷ n ∷ bytes) h e = ground arith

-- One step.
Serves-due :
    (x : Signal) (xs : List Signal) (m n : Service)
    → Serves x m n
    → due n.enabled xs (told n.outputs) ≡ due m.enabled (x ∷ xs) (told m.outputs)
Serves-due _ xs _ _ (ignores status count time bytes m off) = ground arith
Serves-due _ xs _ _ (passes_over status count time bytes m h e k) =
    ground (arith, is_ours_lem bytes h e)
Serves-due _ xs _ _ (tells_buttons status count time bytes m h on e k) =
    ground (arith, is_ours_lem bytes h e)
Serves-due _ xs _ _ (tells_guide status count time bytes m h wants_answer on e k) =
    ground (arith, is_ours_lem bytes h e)
Serves-due _ xs _ _ (answers_guide status count time bytes m h on e k) =
    ground (arith, is_ours_lem bytes h e)
Serves-due _ xs _ _ (switches on m) = refl

Served-due :
    (xs : List Signal) (m n : Service)
    → Served xs m n
    → told n.outputs ≡ due m.enabled xs (told m.outputs)
Served-due _ _ _ (idle m) = refl
Served-due (x ∷ xs) m k (serve {n = n} first rest) =
    Served-due xs n k rest ∙ Serves-due x xs m n first

-- From a ready interface, a run of completed transfers, with at least a header in the memory, and of
-- license calls reports exactly the packets that are due, each once and in their order: every
-- button and guide packet of a transfer that succeeds while the interface is enabled, and no other.
pub run-due :
    (env : Env) (xs : List Signal) (s : Input)
    → IsReady s
    → HasHeaders xs
    → (t : Input) × (run env xs s ≡ some (tt, t))
      × (told (outputs_of t.log) ≡ due (enabled_of s) xs (told (outputs_of s.log)))
run-due env xs s r h =
    let (t, ran, served, _) = run-Served env xs s r h in (t, ran, Served-due xs _ _ served)
