-- ===== src/Input/Service.antt =====
-- What the data path of the interface promises, without pipes, buffers and references: a step
-- relation on the flag, the counter and what goes out. `view` is what it sees of an interface.
pub mod Refines
pub mod Due
use vendor_specific_usbdrive.Base.{
  ℕ, ◌+◌, ◌%◌, ◌^◌, ◌≡◌, Bool, true, false, some, List, [], ◌∷◌, ◌&&◌,
}
use vendor_specific_usbdrive.Kit.{KernReturn, is_success}
use vendor_specific_usbdrive.Packets.{ReportHeader, read_header}
use vendor_specific_usbdrive.Input.State.{
  Event, transmit, request, report, acquire, release, opened, called, cancelled, Input,
}
use vendor_specific_usbdrive.Input.Receive.Reaction.{
  kind_of, button_packet, guide_packet, foreign_packet,
}
use vendor_specific_usbdrive.Input.Session.{Signal, completed, licensed, counter_of, enabled_of}

-- A request for a transfer, a report to the system with its time and its size, and a packet to the
-- controller.
pub data Output : Type 0 where
  listens : Output
  reports : (time count : ℕ) → Output
  answers : List ℕ → Output

-- The latest output is first.
pub record Service : Type 0 where
  pub enabled : Bool
  pub counter : ℕ
  pub outputs : List Output

abbrev pub listening : Service → Service
listening m = record m { outputs = listens ∷ m.outputs }

abbrev pub telling : (time count : ℕ) → Service → Service
telling time count m = record m { outputs = reports time count ∷ m.outputs }

abbrev pub answer : ℕ → List ℕ
answer counter = 0x01 ∷ 0x20 ∷ counter ∷ 0x09 ∷ 0x00 ∷ 0x07 ∷ 0x20 ∷ 0x02 ∷ 0x00 ∷ []

abbrev pub answering : Service → Service
answering m = record m {
  counter = (m.counter + 1) % 2 ^ 8;
  outputs = answers (answer m.counter) ∷ m.outputs;
}

-- Nothing comes of a failed transfer, or while the interface is disabled, or of another packet; a
-- button or guide packet is reported; a guide packet that wants an answer may be answered too.
pub data Serves : Signal → Service → Service → Type 0 where
  ignores :
      (status : KernReturn) (count time : ℕ) (bytes : List ℕ) (m : Service)
      → is_success status && m.enabled ≡ false
      → Serves (completed status count time bytes) m (listening m)
  passes_over :
      (status : KernReturn) (count time : ℕ) (bytes : List ℕ) (m : Service) (h : ReportHeader)
      → read_header bytes ≡ some h
      → kind_of h ≡ foreign_packet
      → Serves (completed status count time bytes) m (listening m)
  tells_buttons :
      (status : KernReturn) (count time : ℕ) (bytes : List ℕ) (m : Service) (h : ReportHeader)
      → is_success status && m.enabled ≡ true
      → read_header bytes ≡ some h
      → kind_of h ≡ button_packet
      → Serves (completed status count time bytes) m (listening (telling time count m))
  tells_guide :
      (status : KernReturn) (count time : ℕ) (bytes : List ℕ) (m : Service) (h : ReportHeader)
      (wants_answer : Bool)
      → is_success status && m.enabled ≡ true
      → read_header bytes ≡ some h
      → kind_of h ≡ guide_packet wants_answer
      → Serves (completed status count time bytes) m (listening (telling time count m))
  answers_guide :
      (status : KernReturn) (count time : ℕ) (bytes : List ℕ) (m : Service) (h : ReportHeader)
      → is_success status && m.enabled ≡ true
      → read_header bytes ≡ some h
      → kind_of h ≡ guide_packet true
      → Serves (completed status count time bytes) m (listening (answering (telling time count m)))
  switches : (on : Bool) (m : Service) → Serves (licensed on) m (record m { enabled = on })

pub data Served : List Signal → Service → Service → Type 0 where
  idle : (m : Service) → Served [] m m
  serve :
      {x : Signal} {xs : List Signal} {m n k : Service}
      → Serves x m n
      → Served xs n k
      → Served (x ∷ xs) m k

abbrev pub outputs_of : List Event → List Output
outputs_of [] = []
outputs_of (transmit _ bytes ∷ es) = answers bytes ∷ outputs_of es
outputs_of (request _ _ _ _ ∷ es) = listens ∷ outputs_of es
outputs_of (report time _ count ∷ es) = reports time count ∷ outputs_of es
outputs_of (acquire _ _ ∷ es) = outputs_of es
outputs_of (release _ _ ∷ es) = outputs_of es
outputs_of (opened _ ∷ es) = outputs_of es
outputs_of (called _ ∷ es) = outputs_of es
outputs_of (cancelled _ ∷ es) = outputs_of es

abbrev pub view : Input → Service
view s = record { enabled = enabled_of s; counter = counter_of s; outputs = outputs_of s.log }
