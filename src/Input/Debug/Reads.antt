-- ===== src/Input/Debug/Reads.antt =====
-- The line that is printed for a button packet, read back.
use vendor_specific_usbdrive.Base.{
  ℕ, ◌+◌, ◌*◌, ◌/◌, ◌%◌, refl, ◌<◌, ◌≡◌, some, List, [], ◌∷◌, ◌++◌, arith, if◌then◌else◌, pure,
  ◌>>=◌,
}
use vendor_specific_usbdrive.Packets.{ButtonReport, button_report_bytes, read_header}
use vendor_specific_usbdrive.Input.State.{Ivars, Input, Env, report}
use vendor_specific_usbdrive.Input.Receive.{handle_report_generic, handle_controller_report}
use vendor_specific_usbdrive.Input.Debug.{
  ButtonLine, debug_print_button_packet, debug_handle_controller_report,
}

abbrev little_endian : ℕ × ℕ → ℕ
little_endian (low, high) = low + 256 * high

-- The report that a reader of the log takes from a line.
abbrev pub report_of_line : ButtonLine → ButtonReport
report_of_line l = record {
  header = record {
    packet_type = l.header_type;
    version = l.header_version;
    counter = l.header_counter;
    size = l.header_size;
  };
  buttons = little_endian l.button;
  trig_l = little_endian l.trig_l;
  trig_r = little_endian l.trig_r;
  left_x = little_endian l.left_x;
  left_y = little_endian l.left_y;
  right_x = little_endian l.right_x;
  right_y = little_endian l.right_y;
}

-- The members of the struct are 16 bits wide.
pub record IsSized (r : ButtonReport) : Type 0 where
  pub buttons : r.buttons < 65536
  pub trig_l : r.trig_l < 65536
  pub trig_r : r.trig_r < 65536
  pub left_x : r.left_x < 65536
  pub left_y : r.left_y < 65536
  pub right_x : r.right_x < 65536
  pub right_y : r.right_y < 65536

abbrev pair_of : ℕ → ℕ × ℕ
pair_of n = (n % 256, n / 256 % 256)

little_endian-pair_of : (n : ℕ) → n < 65536 → little_endian (pair_of n) ≡ n
little_endian-pair_of n small = omega arith

abbrev line_of : ButtonReport → ButtonLine
line_of r = record {
  header_type = r.header.packet_type;
  header_version = r.header.version;
  header_counter = r.header.counter;
  header_size = r.header.size;
  button = pair_of r.buttons;
  trig_l = pair_of r.trig_l;
  trig_r = pair_of r.trig_r;
  left_x = pair_of r.left_x;
  left_y = pair_of r.left_y;
  right_x = pair_of r.right_x;
  right_y = pair_of r.right_y;
}

report_of_line-line_of : (r : ButtonReport) → IsSized r → report_of_line (line_of r) ≡ r
report_of_line-line_of r w = grind (
  arith,
  little_endian-pair_of r.buttons w.buttons,
  little_endian-pair_of r.trig_l w.trig_l,
  little_endian-pair_of r.trig_r w.trig_r,
  little_endian-pair_of r.left_x w.left_x,
  little_endian-pair_of r.left_y w.left_y,
  little_endian-pair_of r.right_x w.right_x,
  little_endian-pair_of r.right_y w.right_y,
)

debug_print_button_packet-line_of :
    (r : ButtonReport) (rest : List ℕ) (s : Input)
    → debug_print_button_packet (button_report_bytes r ++ rest) s ≡ some (line_of r, s)
unfolding debug_print_button_packet
debug_print_button_packet-line_of r rest s = refl

module _ (env : Env) (r : ButtonReport) (rest : List ℕ) (s : Input) (v : Ivars)
    (count time : ℕ) where
  abbrev after_report : Input
  after_report = record s { log = report time v.in_pipe.memory.buffer count ∷ s.log }

  prints :
      s.ivars ≡ some v
      → v.in_pipe.memory.address ≡ some (button_report_bytes r ++ rest)
      → debug_handle_controller_report env (button_report_bytes r ++ rest) count time s
        ≡ (handle_controller_report env (button_report_bytes r ++ rest) count time >>= λ result.
              pure (result, if result then line_of r ∷ [] else []))
            s
  unfolding debug_handle_controller_report handle_controller_report handle_report_generic
      read_header
  prints loaded mapped =
      ground (arith, loaded, mapped, debug_print_button_packet-line_of r rest after_report)

  -- In a debug build, with a button packet with 16-bit members in the memory of the `IN` pipe and
  -- any bytes behind it, `HandleControllerReport` has the result and the effects that it has without
  -- the printing, whatever the system answers to the report. Its reads of the memory stay within
  -- the memory, and if it returns true, the struct of the packet can be read back from the line that
  -- it has printed.
  pub debug_handle_controller_report-reads :
      s.ivars ≡ some v
      → v.in_pipe.memory.address ≡ some (button_report_bytes r ++ rest)
      → IsSized r
      → (l : ButtonLine) × (debug_handle_controller_report env
            (button_report_bytes r ++ rest)
            count
            time
            s
          ≡ (handle_controller_report env (button_report_bytes r ++ rest) count time >>= λ result.
                pure (result, if result then l ∷ [] else []))
              s)
        × (report_of_line l ≡ r)
  unfolding debug_handle_controller_report handle_controller_report
  debug_handle_controller_report-reads loaded mapped sized =
      (line_of r, prints loaded mapped, report_of_line-line_of r sized)
