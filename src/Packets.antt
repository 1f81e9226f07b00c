-- ===== src/Packets.antt =====
-- XboxControllerDriver/XboxOne/XboxOneInputPackets.h: the packets of the controller's protocol.
-- A struct is a record; what a cast of a pointer to bytes sees is the layout, low byte first.
use vendor_specific_usbdrive.Base.{ℕ, ◌+◌, ◌-◌, ◌/◌, ◌%◌, Option, none, some, List, [], ◌∷◌, ◌++◌}

-- The packet types that the driver handles.
pub data InPacketType : Type 0 where
  in_guide in_button : InPacketType

-- The first byte of a packet of the type.
abbrev pub packet_type_code : InPacketType → ℕ
packet_type_code in_guide = 0x07
packet_type_code in_button = 0x20

pub record ReportHeader : Type 0 where
  pub packet_type : ℕ
  pub version : ℕ
  pub counter : ℕ
  pub size : ℕ

pub record ButtonReport : Type 0 where
  pub header : ReportHeader
  pub buttons : ℕ
  pub trig_l : ℕ
  pub trig_r : ℕ
  -- The sticks are `int16_t`: here, their bit patterns.
  pub left_x : ℕ
  pub left_y : ℕ
  pub right_x : ℕ
  pub right_y : ℕ

pub record GuideReport : Type 0 where
  pub header : ReportHeader
  pub guide : ℕ
  pub reserved1 : ℕ

pub record GuideResponse : Type 0 where
  pub header : ReportHeader
  pub const_data : List ℕ
  pub padding : List ℕ

-- A 16-bit member in memory.
abbrev pub u16_bytes : ℕ → List ℕ
u16_bytes n = (n % 256) ∷ (n / 256 % 256) ∷ []

abbrev pub header_bytes : ReportHeader → List ℕ
header_bytes h = h.packet_type ∷ h.version ∷ h.counter ∷ h.size ∷ []

abbrev pub button_report_bytes : ButtonReport → List ℕ
button_report_bytes r =
    header_bytes r.header
    ++ (u16_bytes r.buttons
        ++ (u16_bytes r.trig_l
            ++ (u16_bytes r.trig_r
                ++ (u16_bytes r.left_x
                    ++ (u16_bytes r.left_y ++ (u16_bytes r.right_x ++ u16_bytes r.right_y))))))

abbrev pub guide_report_bytes : GuideReport → List ℕ
guide_report_bytes r = header_bytes r.header ++ (r.guide ∷ r.reserved1 ∷ [])

abbrev pub guide_response_bytes : GuideResponse → List ℕ
guide_response_bytes r = header_bytes r.header ++ (r.const_data ++ r.padding)

-- `sizeof` of the structs.
abbrev pub sizeof_report_header : ℕ
sizeof_report_header = 4

abbrev pub sizeof_button_report : ℕ
sizeof_button_report = sizeof_report_header + 2 + (2 + 2) + (2 + 2 + 2 + 2)

abbrev pub sizeof_guide_report : ℕ
sizeof_guide_report = sizeof_report_header + 1 + 1

abbrev pub sizeof_guide_response : ℕ
sizeof_guide_response = sizeof_report_header + 4 + 5

abbrev pub report_header_size : ℕ
report_header_size = sizeof_report_header

abbrev pub button_report_size : ℕ
button_report_size = sizeof_button_report - report_header_size

abbrev pub guide_report_size : ℕ
guide_report_size = sizeof_guide_report - report_header_size

abbrev pub guide_response_size : ℕ
guide_response_size = sizeof_guide_response - report_header_size

-- The buttons, in the order of `xboxone_buttons`.
pub data Button : Type 0 where
  sync guide_button menu view button_a button_b button_x button_y : Button
  dpad_up dpad_down dpad_left dpad_right : Button
  left_shoulder right_shoulder left_thumb right_thumb : Button

-- The bit of a button in `buttons`.
abbrev pub button_mask : Button → ℕ
button_mask sync = 0x0001
button_mask guide_button = 0x0002
button_mask menu = 0x0004
button_mask view = 0x0008
button_mask button_a = 0x0010
button_mask button_b = 0x0020
button_mask button_x = 0x0040
button_mask button_y = 0x0080
button_mask dpad_up = 0x0100
button_mask dpad_down = 0x0200
button_mask dpad_left = 0x0400
button_mask dpad_right = 0x0800
button_mask left_shoulder = 0x1000
button_mask right_shoulder = 0x2000
button_mask left_thumb = 0x4000
button_mask right_thumb = 0x8000

-- What `((xboxone_report_header*)data)->…` reads; fewer than four bytes are read past their end.
unfoldable pub read_header : List ℕ → Option ReportHeader
read_header (t ∷ v ∷ c ∷ s ∷ _) =
    some (record { packet_type = t; version = v; counter = c; size = s })
read_header _ = none
