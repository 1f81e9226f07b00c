-- ===== src/Descriptor/Gamepad.antt =====
-- The report descriptor against the structs of XboxOneInputPackets.h: what a HID host reads from
-- the bytes of a packet, by the descriptor, and what the struct has there.
use vendor_specific_usbdrive.Base.{
  ℕ, ◌+◌, ◌*◌, ◌/◌, ◌%◌, ◌^◌, ◌<◌, ◌≡◌, ◌≢◌, ◌-◌, refl, ap, ◌∙◌, ltb, leb, if◌then◌else◌, ℤ, pos,
  negsuc, Option, Bool, true, List, [], ◌∷◌, ◌||◌, ◌&&◌, none, some, arith, ◌==◌,
}
use vendor_specific_usbdrive.Packets.{
  InPacketType, in_guide, in_button, packet_type_code, sizeof_guide_report, sizeof_button_report,
  ButtonReport, Button, sync, guide_button, menu, view, button_a, button_b, button_x, button_y,
  dpad_up, dpad_down, dpad_left, dpad_right, left_shoulder, right_shoulder, left_thumb, right_thumb,
  button_mask, button_report_bytes,
}
use vendor_specific_usbdrive.Hid.{Control, controls, report_bits}
use vendor_specific_usbdrive.Hid.Values.{Reading, reading_of, usage_reading}
use vendor_specific_usbdrive.Descriptor.{report_descriptor}

abbrev pub button_page : ℕ
button_page = 0x09

-- The number of a button on the HID button page; the guide button is in the other report.
abbrev pub button_usage : Button → ℕ
button_usage button_a = 1
button_usage button_b = 2
button_usage button_x = 3
button_usage button_y = 4
button_usage left_shoulder = 5
button_usage right_shoulder = 6
button_usage left_thumb = 7
button_usage right_thumb = 8
button_usage menu = 9
button_usage view = 10
button_usage sync = 11
button_usage dpad_up = 12
button_usage dpad_down = 13
button_usage dpad_left = 14
button_usage dpad_right = 15
button_usage guide_button = 16

-- A button has the minimum 1 and no maximum.
reading_of-bit :
    (b : ℕ)
    → b < 2
    → reading_of (some (pos 1)) none 1 b ≡ record { value = pos b; in_range = b == 1 }
reading_of-bit b h = ground arith

-- For a button packet with a 16-bit `buttons` field, and for every button but the guide button: what
-- a host reads through the descriptor for the button's usage is the button's bit of `buttons`. But
-- only a pressed button is in the logical range that the descriptor declares; the 0 of a released
-- one is below its minimum, a null value.
pub usage_reading-button :
    (r : ButtonReport) (k : Button)
    → r.header.packet_type ≡ packet_type_code in_button
    → r.buttons < 2 ^ 16
    → k ≢ guide_button
    → usage_reading report_descriptor button_page (button_usage k) (button_report_bytes r)
      ≡ some (record {
        value = pos (r.buttons / button_mask k % 2);
        in_range = r.buttons / button_mask k % 2 == 1;
      })
unfolding usage_reading report_descriptor
usage_reading-button r guide_button e h n = absurd (n refl)
usage_reading-button r k e h n = rw e (
    ap (λ b. some (reading_of (some (pos 1)) none 1 b)) (omega arith)
    ∙ ap some (reading_of-bit (r.buttons / button_mask k % 2) (omega arith)))

-- The triggers and the stick axes.
pub data Axis : Type 0 where
  trig_l trig_r left_x left_y right_x right_y : Axis

abbrev pub desktop_page : ℕ
desktop_page = 0x01

-- X, Y and Z, and their rotations, on the generic desktop page.
abbrev pub axis_usage : Axis → ℕ
axis_usage left_x = 0x30
axis_usage left_y = 0x31
axis_usage trig_l = 0x32
axis_usage right_x = 0x33
axis_usage right_y = 0x34
axis_usage trig_r = 0x35

abbrev pub axis_value : Axis → ButtonReport → ℕ
axis_value trig_l r = r.trig_l
axis_value trig_r r = r.trig_r
axis_value left_x r = r.left_x
axis_value left_y r = r.left_y
axis_value right_x r = r.right_x
axis_value right_y r = r.right_y

-- `int16_t`.
abbrev pub int16 : ℕ → ℤ
int16 n = if ltb n 32768 then pos n else negsuc (65535 - n)

-- The structs' comment: the triggers go from 0 to 1023, the sticks over all of `int16_t`.
abbrev pub expected_reading : Axis → ℕ → Reading
expected_reading trig_l n = record { value = pos n; in_range = leb n 1023 }
expected_reading trig_r n = record { value = pos n; in_range = leb n 1023 }
expected_reading _ n = record { value = int16 n; in_range = true }

trigger_reading :
    (n : ℕ)
    → reading_of (some (pos 0)) (some (pos 1023)) 16 n
      ≡ record { value = pos n; in_range = leb n 1023 }
trigger_reading n = ground arith

stick_reading :
    (n : ℕ)
    → n < 65536
    → reading_of (some (negsuc 32767)) (some (pos 32767)) 16 n
      ≡ record { value = int16 n; in_range = true }
stick_reading n h = ground arith

abbrev range_of : Axis → Option ℤ × Option ℤ
range_of trig_l = (some (pos 0), some (pos 1023))
range_of trig_r = (some (pos 0), some (pos 1023))
range_of _ = (some (negsuc 32767), some (pos 32767))

reading_of-range_of :
    (k : Axis) (n : ℕ)
    → n < 65536
    → reading_of (range_of k).0 (range_of k).1 16 n ≡ expected_reading k n
reading_of-range_of trig_l n h = trigger_reading n
reading_of-range_of trig_r n h = trigger_reading n
reading_of-range_of k n h = stick_reading n h

-- For a button packet, and a trigger or a stick axis whose member of the struct has 16 bits: what a
-- host reads through the descriptor for the usage of a trigger is the member, unsigned, and it is
-- in the declared logical range just if it is at most 1023; for the usage of a stick axis it is the
-- member as an `int16_t`, and always in the range.
pub usage_reading-axis :
    (r : ButtonReport) (k : Axis)
    → r.header.packet_type ≡ packet_type_code in_button
    → axis_value k r < 2 ^ 16
    → usage_reading report_descriptor desktop_page (axis_usage k) (button_report_bytes r)
      ≡ some (expected_reading k (axis_value k r))
unfolding usage_reading report_descriptor
usage_reading-axis r trig_l e h = rw e (
    ap (λ n. some (reading_of (some (pos 0)) (some (pos 1023)) 16 n)) (omega arith)
    ∙ ap some (trigger_reading r.trig_l))
usage_reading-axis r k e h = rw e (
    ap (λ n. some (reading_of (range_of k).0 (range_of k).1 16 n)) (omega arith)
    ∙ ap some (reading_of-range_of k (axis_value k r) h))

-- The bits that the descriptor gives to a report, its identifier included; 0 if it is malformed.
bits_of : ℕ → Option (List Control) → ℕ
unfolding report_bits
bits_of id none = 0
bits_of id (some cs) = report_bits id cs

pub described_bits : ℕ → ℕ
unfolding controls bits_of report_descriptor
described_bits id = bits_of id (controls report_descriptor)

-- The struct of a packet type.
abbrev pub sizeof_report : InPacketType → ℕ
sizeof_report in_guide = sizeof_guide_report
sizeof_report in_button = sizeof_button_report

-- Every control is in one of the two reports.
in_reports : List Control → Bool
in_reports [] = true
in_reports (c ∷ cs) =
    (c.report_id == packet_type_code in_button || c.report_id == packet_type_code in_guide)
    && in_reports cs

report_bits-in_reports :
    (id : ℕ) (cs : List Control)
    → in_reports cs ≡ true
    → id ≢ packet_type_code in_button
    → id ≢ packet_type_code in_guide
    → report_bits id cs ≡ 0
unfolding in_reports report_bits
report_bits-in_reports id [] h n m = refl
report_bits-in_reports id (c ∷ cs) h n m = ground (arith, report_bits-in_reports id cs)

are_in_reports : Option (List Control) → Bool
unfolding in_reports
are_in_reports none = true
are_in_reports (some cs) = in_reports cs

bits_of-in_reports :
    (id : ℕ) (o : Option (List Control))
    → are_in_reports o ≡ true
    → id ≢ packet_type_code in_button
    → id ≢ packet_type_code in_guide
    → bits_of id o ≡ 0
unfolding are_in_reports bits_of
bits_of-in_reports id none h n m = refl
bits_of-in_reports id (some cs) h n m = report_bits-in_reports id cs h n m

described_in_reports : are_in_reports (controls report_descriptor) ≡ true
unfolding are_in_reports controls report_descriptor
described_in_reports = refl

described_bits_other :
    (id : ℕ)
    → id ≢ packet_type_code in_button
    → id ≢ packet_type_code in_guide
    → described_bits id ≡ 0
unfolding described_bits
described_bits_other id n m = bits_of-in_reports id _ described_in_reports n m

-- The descriptor gives a button report exactly the bits of its struct. To a guide report it gives
-- five bits less than its struct has, which is no whole number of bytes. To every other identifier
-- it gives none.
pub described_bits-sizeof :
    (described_bits (packet_type_code in_button) ≡ 8 * sizeof_report in_button)
    × (described_bits (packet_type_code in_guide) + 5 ≡ 8 * sizeof_report in_guide)
    × ((id : ℕ)
        → id ≢ packet_type_code in_button
        → id ≢ packet_type_code in_guide
        → described_bits id ≡ 0)
unfolding described_bits
described_bits-sizeof = (refl, refl, described_bits_other)
