-- ===== src/Tests/Input.antt =====
-- The data path of an interface that is set up.
use vendor_specific_usbdrive.Base.{
  ℕ, ◌+◌, ◌≡◌, refl, true, false, some, List, [], ◌∷◌, arith, length, replicate,
}
use vendor_specific_usbdrive.Kit.{success, error}
use vendor_specific_usbdrive.Packets.{read_header}
use vendor_specific_usbdrive.Input.State.{Input, transmit, request, report}
use vendor_specific_usbdrive.Input.Send.{send_interrupt_data}
use vendor_specific_usbdrive.Input.Send.Laws.{sent, send_interrupt_data_sends}
use vendor_specific_usbdrive.Input.Send.Counter.{send_each, send_each-numbered}
use vendor_specific_usbdrive.Input.Receive.{got_data}
use vendor_specific_usbdrive.Input.Receive.Reaction.{IsLinked, after_got_data}
use vendor_specific_usbdrive.Input.Receive.Laws.{got_data_lem}
use vendor_specific_usbdrive.Input.Receive.Answer.{got_data-answer, announced_length}
use vendor_specific_usbdrive.Input.Session.{Signal, completed, licensed, arrive, run}
use vendor_specific_usbdrive.Input.Session.Laws.{run-Progress}
use vendor_specific_usbdrive.Input.Session.Ready.{Progress, arrive-IsLinked, IsReady}
use vendor_specific_usbdrive.Input.Session.Off.{IsQuiet, run-IsQuiet}
use vendor_specific_usbdrive.Tests.Fixtures.{
  sample_env, ready_ivars, ready_input, ready-HasOut, ready-IsReady, button_bytes, guide_bytes,
}

abbrev start_bytes : List ℕ
start_bytes = 0x05 ∷ 0x20 ∷ 0x00 ∷ 0x01 ∷ 0x00 ∷ []

send_interrupt_data_sends_example :
    send_interrupt_data sample_env start_bytes 5 ready_input
    ≡ some (success, sent ready_input ready_ivars 32 (replicate 16 0) start_bytes 5)
send_interrupt_data_sends_example =
    send_interrupt_data_sends sample_env ready_input ready_ivars 32 (replicate 16 0) ready-HasOut
      start_bytes 5 (omega arith) (omega arith) (omega arith)

-- The counter wraps.
send_each-numbered_example :
    (t : Input) × (send_each sample_env (start_bytes ∷ start_bytes ∷ []) ready_input ≡ some (tt, t))
    × (t.log
        ≡ transmit 32 (0x05 ∷ 0x20 ∷ 0x00 ∷ 0x01 ∷ 0x00 ∷ [])
          ∷ transmit 32 (0x05 ∷ 0x20 ∷ 0xff ∷ 0x01 ∷ 0x00 ∷ [])
          ∷ [])
send_each-numbered_example =
    send_each-numbered sample_env (start_bytes ∷ start_bytes ∷ []) 255 ready_input ready_ivars 32
      (replicate 16 0) ready-HasOut refl (omega arith)

guide-IsLinked : IsLinked (arrive guide_bytes ready_input)
unfolding read_header
guide-IsLinked =
    arrive-IsLinked guide_bytes
      (record { packet_type = 0x07; version = 0x30; counter = 8; size = 2 }) ready-IsReady refl

got_data_lem_example :
    got_data sample_env success 6 1000 (arrive guide_bytes ready_input)
    ≡ some (
      tt,
      after_got_data sample_env (arrive guide_bytes ready_input) guide-IsLinked success 6 1000,
    )
got_data_lem_example =
    got_data_lem sample_env (arrive guide_bytes ready_input) guide-IsLinked 6 1000 success

got_data-answer_example :
    (t : Input) × (answer : List ℕ) × (got_data sample_env success 6 1000
        (arrive guide_bytes ready_input)
      ≡ some (tt, t))
    × (t.log
        ≡ request 31 (some 41) 18 (some 60) ∷ transmit 32 answer ∷ report 1000 (some 41) 6 ∷ [])
    × (answer ≡ 0x01 ∷ 0x20 ∷ 0xff ∷ 0x09 ∷ 0x00 ∷ 0x07 ∷ 0x20 ∷ 0x02 ∷ 0x00 ∷ [])
    × (length answer + 4 ≡ announced_length answer)
unfolding guide-IsLinked arrive-IsLinked arrive ready-IsReady
got_data-answer_example =
    got_data-answer sample_env (arrive guide_bytes ready_input) guide-IsLinked 6 1000 refl refl refl

abbrev pub signals : List Signal
signals =
    completed success 18 1000 button_bytes
    ∷ licensed false
    ∷ completed error 0 1001 button_bytes
    ∷ licensed true
    ∷ completed success 6 1002 guide_bytes
    ∷ []

run-Progress_example :
    (t : Input) × (run sample_env signals ready_input ≡ some (tt, t)) × Progress ready_input t 3
run-Progress_example = run-Progress sample_env signals ready_input ready-IsReady (omega arith)

abbrev off_input : Input
off_input = record { ivars = some (record ready_ivars { enabled = false }); log = [] }

off-IsReady : IsReady off_input
off-IsReady = record {
  v = record ready_ivars { enabled = false };
  in_ref = 31;
  out_ref = 32;
  out_bytes = replicate 16 0;
  has_out = record { loaded = refl; piped = refl; mapped = refl; measured = refl };
  in_piped = refl;
  out_room = omega arith;
  byte = omega arith;
}

abbrev quiet_signals : List Signal
quiet_signals =
    completed success 18 1000 button_bytes
    ∷ licensed false
    ∷ completed success 6 1002 guide_bytes
    ∷ []

run-IsQuiet_example :
    (t : Input) × (run sample_env quiet_signals off_input ≡ some (tt, t)) × IsQuiet off_input t 2
run-IsQuiet_example =
    run-IsQuiet sample_env quiet_signals off_input off-IsReady refl (omega arith)
      (tt, (refl, (tt, tt)))
