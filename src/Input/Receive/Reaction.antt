-- ===== src/Input/Receive/Reaction.antt =====
-- What `GotData` is to do with a completed transfer, described by the kind of its packet.
use vendor_specific_usbdrive.Base.{
  ℕ, ◌%◌, ◌^◌, ◌≡◌, ◌≤◌, Bool, some, List, ◌∷◌, ◌==◌, ◌&&◌, if◌then◌else◌, length,
}
use vendor_specific_usbdrive.Kit.{Ref, KernReturn, is_success}
use vendor_specific_usbdrive.Packets.{ReportHeader, read_header, guide_response_bytes}
use vendor_specific_usbdrive.Input.State.{Ivars, request, report, Input, Env}
use vendor_specific_usbdrive.Input.Send.Laws.{HasOut, sent}
use vendor_specific_usbdrive.Input.Receive.{guide_response}

-- A guide packet wants an answer if its version is 0x30.
pub data Kind : Type 0 where
  button_packet foreign_packet : Kind
  guide_packet : (wants_answer : Bool) → Kind

-- A button packet has 14 bytes behind its header, a guide packet 2.
abbrev pub kind_of : ReportHeader → Kind
kind_of h =
    if h.packet_type == 0x20 && h.size == 14
    then button_packet
    else if h.packet_type == 0x07 && h.size == 2
    then guide_packet (h.version == 0x30)
    else foreign_packet

-- An interface whose pipes are set up, and that has a packet in the memory of its `IN` pipe.
pub record IsLinked (s : Input) : Type 0 where
  pub v : Ivars
  pub in_ref : Ref
  pub out_ref : Ref
  pub in_bytes : List ℕ
  pub out_bytes : List ℕ
  pub header : ReportHeader
  pub has_out : HasOut s v out_ref out_bytes
  pub in_piped : v.in_pipe.pipe ≡ some in_ref
  pub in_mapped : v.in_pipe.memory.address ≡ some in_bytes
  pub readable : read_header in_bytes ≡ some header
  pub out_room : 9 ≤ length out_bytes

module _ (env : Env) (s : Input) (l : IsLinked s) where
  abbrev pub reported : ℕ → ℕ → Input
  reported count time = record s { log = report time l.v.in_pipe.memory.buffer count ∷ s.log }

  abbrev pub report_accepted : ℕ → ℕ → Bool
  report_accepted count time =
      is_success (env.handle_report s.log time l.v.in_pipe.memory.buffer count)

  abbrev pub answered : ℕ → ℕ → Input
  answered count time =
      sent (reported count time) l.v l.out_ref l.out_bytes (guide_response_bytes guide_response) 9

  -- The state after the packet is dealt with: a report to the system for the two kinds, and an
  -- answer to the controller for an accepted guide packet that wants one.
  abbrev pub reaction : Kind → ℕ → ℕ → Input
  reaction button_packet count time = reported count time
  reaction (guide_packet wants_answer) count time =
      if report_accepted count time && wants_answer
      then answered count time
      else reported count time
  reaction foreign_packet count time = s

  -- Then the next transfer is asked for.
  abbrev pub rearmed : Input → Input
  rearmed t = record t {
    log =
        request l.in_ref l.v.in_pipe.memory.buffer (l.v.in_pipe.memory.length % 2 ^ 32)
          l.v.got_data_action
        ∷ t.log;
  }

  abbrev pub after_got_data : KernReturn → ℕ → ℕ → Input
  after_got_data status count time =
      rearmed
        (if is_success status && l.v.enabled then reaction (kind_of l.header) count time else s)
