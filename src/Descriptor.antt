-- ===== src/Descriptor.antt =====
-- XboxControllerDriver/XboxOne/XboxOneDescriptors.h: the HID report descriptor of the driver.
pub mod Gamepad
use vendor_specific_usbdrive.Base.{ℕ, List, [], ◌∷◌, ◌++◌, length}

-- Header content, and the sync button; its neighbour is constant.
abbrev gamepad_header : List ℕ
gamepad_header =
    0x05 ∷ 0x01 ∷ 0x09 ∷ 0x05 ∷ 0xa1 ∷ 0x01 ∷ 0xa1 ∷ 0x00 ∷ 0x85 ∷ 0x20 ∷ 0x75 ∷ 0x08 ∷ 0x95 ∷ 0x03
    ∷ 0x81 ∷ 0x03 ∷ 0x05 ∷ 0x09 ∷ 0x09 ∷ 0x0b ∷ 0x15 ∷ 0x01 ∷ 0x75 ∷ 0x01 ∷ 0x95 ∷ 0x01 ∷ 0x81
    ∷ 0x02 ∷ 0x81 ∷ 0x03 ∷ []

-- Menu and view, A to Y, the directional pad, the bumpers and the stick buttons.
abbrev gamepad_buttons : List ℕ
gamepad_buttons =
    0x19 ∷ 0x09 ∷ 0x29 ∷ 0x0a ∷ 0x95 ∷ 0x02 ∷ 0x81 ∷ 0x02 ∷ 0x19 ∷ 0x01 ∷ 0x29 ∷ 0x04 ∷ 0x95 ∷ 0x04
    ∷ 0x81 ∷ 0x02 ∷ 0x19 ∷ 0x0c ∷ 0x29 ∷ 0x0f ∷ 0x81 ∷ 0x02 ∷ 0x19 ∷ 0x05 ∷ 0x29 ∷ 0x06 ∷ 0x95
    ∷ 0x02 ∷ 0x81 ∷ 0x02 ∷ 0x19 ∷ 0x07 ∷ 0x29 ∷ 0x08 ∷ 0x81 ∷ 0x02 ∷ []

-- The triggers and the sticks.
abbrev gamepad_axes : List ℕ
gamepad_axes =
    0x05 ∷ 0x01 ∷ 0x09 ∷ 0x32 ∷ 0x09 ∷ 0x35 ∷ 0x15 ∷ 0x00 ∷ 0x26 ∷ 0xff ∷ 0x03 ∷ 0x75 ∷ 0x10 ∷ 0x81
    ∷ 0x02 ∷ 0x09 ∷ 0x30 ∷ 0x09 ∷ 0x31 ∷ 0x09 ∷ 0x33 ∷ 0x09 ∷ 0x34 ∷ 0x16 ∷ 0x00 ∷ 0x80 ∷ 0x26
    ∷ 0xff ∷ 0x7f ∷ 0x95 ∷ 0x04 ∷ 0x81 ∷ 0x02 ∷ 0xc0 ∷ []

-- The report of the guide button.
abbrev guide_collection : List ℕ
guide_collection =
    0x05 ∷ 0x01 ∷ 0x09 ∷ 0x05 ∷ 0xa1 ∷ 0x00 ∷ 0x85 ∷ 0x07 ∷ 0x75 ∷ 0x08 ∷ 0x95 ∷ 0x03 ∷ 0x81 ∷ 0x03
    ∷ 0x05 ∷ 0x09 ∷ 0x09 ∷ 0x10 ∷ 0x15 ∷ 0x00 ∷ 0x25 ∷ 0x01 ∷ 0x75 ∷ 0x01 ∷ 0x95 ∷ 0x01 ∷ 0x81
    ∷ 0x02 ∷ 0x75 ∷ 0x0a ∷ 0x81 ∷ 0x03 ∷ 0xc0 ∷ 0xc0 ∷ []

unfoldable pub report_descriptor : List ℕ
report_descriptor = gamepad_header ++ (gamepad_buttons ++ (gamepad_axes ++ guide_collection))

unfoldable pub report_descriptor_size : ℕ
unfolding report_descriptor
report_descriptor_size = length report_descriptor
