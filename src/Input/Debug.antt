-- ===== src/Input/Debug.antt =====
-- What the debug builds add to the handler of button packets: `DebugPrintButtonPacket`, which reads
-- the memory of the `IN` pipe.
pub mod Reads
use vendor_specific_usbdrive.Base.{
  ℕ, ◌+◌, Bool, List, [], ◌∷◌, not, if◌then◌else◌, get_elem?, M, pure, deref, ◌>>=◌,
}
use vendor_specific_usbdrive.Packets.{in_button, packet_type_code, button_report_size}
use vendor_specific_usbdrive.Input.State.{Input, Env, load_ivars}
use vendor_specific_usbdrive.Input.Receive.{handle_report_generic}

-- The numbers that are printed, behind their labels.
pub record ButtonLine : Type 0 where
  pub header_type : ℕ
  pub header_version : ℕ
  pub header_counter : ℕ
  pub header_size : ℕ
  pub button : ℕ × ℕ
  pub trig_l : ℕ × ℕ
  pub trig_r : ℕ × ℕ
  pub left_x : ℕ × ℕ
  pub left_y : ℕ × ℕ
  pub right_x : ℕ × ℕ
  pub right_y : ℕ × ℕ

-- `data[i]`.
abbrev pub read_byte : List ℕ → ℕ → M Input ℕ
read_byte memory i = deref (get_elem? memory i)

abbrev pub read_pair : List ℕ → ℕ → M Input (ℕ × ℕ)
read_pair memory i = do a ← read_byte memory i; b ← read_byte memory (i + 1); pure (a, b)

unfoldable pub debug_print_button_packet : List ℕ → M Input ButtonLine
debug_print_button_packet memory = do
  d0 ← read_byte memory 0
  d1 ← read_byte memory 1
  d2 ← read_byte memory 2
  d3 ← read_byte memory 3
  b ← read_pair memory 4
  tl ← read_pair memory 6
  tr ← read_pair memory 8
  lx ← read_pair memory 10
  ly ← read_pair memory 12
  rx ← read_pair memory 14
  ry ← read_pair memory 16
  pure (record {
    header_type = d0;
    header_version = d1;
    header_counter = d2;
    header_size = d3;
    button = b;
    trig_l = tl;
    trig_r = tr;
    left_x = lx;
    left_y = ly;
    right_x = rx;
    right_y = ry;
  })

-- `HandleControllerReport` of a debug build: its result, and the lines printed.
unfoldable pub debug_handle_controller_report :
    Env → List ℕ → ℕ → ℕ → M Input (Bool × List ButtonLine)
debug_handle_controller_report env bytes count time = do
  result ←
      handle_report_generic env bytes count time (packet_type_code in_button) button_report_size
  if not result then pure (result, []) else do
    v ← load_ivars
    memory ← deref v.in_pipe.memory.address
    line ← debug_print_button_packet memory
    pure (result, line ∷ [])
