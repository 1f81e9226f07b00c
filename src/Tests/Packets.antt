-- ===== src/Tests/Packets.antt =====
-- The descriptor on a packet.
use vendor_specific_usbdrive.Base.{◌≡◌, refl, true, some, arith, pos, negsuc}
use vendor_specific_usbdrive.Packets.{ButtonReport, button_a, button_report_bytes}
use vendor_specific_usbdrive.Hid.Values.{usage_reading}
use vendor_specific_usbdrive.Descriptor.{report_descriptor}
use vendor_specific_usbdrive.Descriptor.Gamepad.{
  usage_reading-button, usage_reading-axis, left_x, button_page, desktop_page,
}

abbrev pub pressed : ButtonReport
pressed = record {
  header = record { packet_type = 0x20; version = 0; counter = 7; size = 14 };
  buttons = 0x1010;
  trig_l = 1023;
  trig_r = 0;
  left_x = 0x8000;
  left_y = 0x7fff;
  right_x = 1;
  right_y = 2;
}

usage_reading-button_example :
    usage_reading report_descriptor button_page 1 (button_report_bytes pressed)
    ≡ some (record { value = pos 1; in_range = true })
usage_reading-button_example = usage_reading-button pressed button_a refl (omega arith) (λ e. cc)

usage_reading-axis_example :
    usage_reading report_descriptor desktop_page 0x30 (button_report_bytes pressed)
    ≡ some (record { value = negsuc 32767; in_range = true })
usage_reading-axis_example = usage_reading-axis pressed left_x refl (omega arith)
