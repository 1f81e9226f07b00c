-- ===== src/Tests/Debug.antt =====
-- A button packet in a debug build.
use vendor_specific_usbdrive.Base.{
  ◌≡◌, refl, some, [], ◌∷◌, ◌++◌, arith, replicate, if◌then◌else◌, pure, ◌>>=◌,
}
use vendor_specific_usbdrive.Packets.{button_report_bytes}
use vendor_specific_usbdrive.Input.State.{Ivars, Input}
use vendor_specific_usbdrive.Input.Receive.{handle_controller_report}
use vendor_specific_usbdrive.Input.Debug.{ButtonLine, debug_handle_controller_report}
use vendor_specific_usbdrive.Input.Debug.Reads.{
  report_of_line, IsSized, debug_handle_controller_report-reads,
}
use vendor_specific_usbdrive.Tests.Fixtures.{sample_env, in_pipe, ready_ivars}
use vendor_specific_usbdrive.Tests.Packets.{pressed}

-- The packet is in the memory, with other bytes behind it.
abbrev pressed_ivars : Ivars
pressed_ivars = record ready_ivars {
  in_pipe = record in_pipe {
    memory = record {
      buffer = some 41;
      address = some (button_report_bytes pressed ++ replicate 46 0);
      length = 64;
    };
  };
}

abbrev pressed_input : Input
pressed_input = record { ivars = some pressed_ivars; log = [] }

pressed-IsSized : IsSized pressed
pressed-IsSized = record {
  buttons = omega arith;
  trig_l = omega arith;
  trig_r = omega arith;
  left_x = omega arith;
  left_y = omega arith;
  right_x = omega arith;
  right_y = omega arith;
}

debug_handle_controller_report-reads_example :
    (l : ButtonLine) × (debug_handle_controller_report sample_env
        (button_report_bytes pressed ++ replicate 46 0)
        18
        1000
        pressed_input
      ≡ (handle_controller_report sample_env (button_report_bytes pressed ++ replicate 46 0) 18 1000
            >>= λ result. pure (result, if result then l ∷ [] else []))
          pressed_input)
    × (report_of_line l ≡ pressed)
debug_handle_controller_report-reads_example =
    debug_handle_controller_report-reads sample_env pressed (replicate 46 0) pressed_input
      pressed_ivars 18 1000 refl refl pressed-IsSized
