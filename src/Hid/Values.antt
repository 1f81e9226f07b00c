-- ===== src/Hid/Values.antt =====
-- The values of the controls in a report, after "Device Class Definition for Human Interface
-- Devices" 1.11, sections 5.8, 5.10 and 6.2.2.7.
use vendor_specific_usbdrive.Base.{
  ℕ, ◌/◌, ◌%◌, ◌^◌, Bool, true, false, Option, none, some, List, [], ◌∷◌, ◌==◌, ◌&&◌, ◌||◌, take,
  drop, if◌then◌else◌, ℤ, pos, leb_ℤ, is_negative, twos_complement,
}
use vendor_specific_usbdrive.Hid.{le_value, Control, controls}

-- The first control of a report with a usage.
unfoldable pub find_control : ℕ → ℕ → ℕ → List Control → Option Control
find_control id page usage [] = none
find_control id page usage (c ∷ cs) = elim c.usage [
  | none ↦ find_control id page usage cs
  | some u ↦
      let rest = find_control id page usage cs in
      if c.report_id == id && (c.page == page && u == usage) then some c else rest
]

-- The bits of a control in the bytes of a report, as a number. The control lies in three bytes.
unfoldable pub read_control : Control → List ℕ → ℕ
read_control c report =
    le_value (take 3 (drop (c.offset / 8) report)) / 2 ^ (c.offset % 8) % 2 ^ c.size

-- A field is unsigned if neither of its bounds is negative, and in two's complement else.
abbrev bound_negative : Option ℤ → Bool
bound_negative none = false
bound_negative (some b) = is_negative b

abbrev at_least : Option ℤ → ℤ → Bool
at_least none v = true
at_least (some b) v = leb_ℤ b v

abbrev at_most : Option ℤ → ℤ → Bool
at_most none v = true
at_most (some b) v = leb_ℤ v b

-- What a host gets for a control: a value outside of the logical range is a null value, which
-- changes nothing. A bound that is not there is none.
pub record Reading : Type 0 where
  pub value : ℤ
  pub in_range : Bool

abbrev pub reading_of : (low high : Option ℤ) → (size raw : ℕ) → Reading
reading_of low high size raw =
    let v =
      if bound_negative low || bound_negative high then twos_complement size raw else pos raw in
    record { value = v; in_range = at_least low v && at_most high v }

-- What a host reads in a report for a usage of a page, by the descriptor.
unfoldable pub usage_reading : List ℕ → ℕ → ℕ → List ℕ → Option Reading
unfolding controls find_control read_control
usage_reading descriptor page usage [] = none
usage_reading descriptor page usage (id ∷ report) = elim (controls descriptor) [
  | none ↦ none
  | some cs ↦ elim (find_control id page usage cs) [
    | none ↦ none
    | some c ↦ some (reading_of c.logical_min c.logical_max c.size (read_control c (id ∷ report)))
  ]
]
