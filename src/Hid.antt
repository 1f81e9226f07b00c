-- ===== src/Hid.antt =====
-- A reading of HID report descriptors, after "Device Class Definition for Human Interface Devices"
-- 1.11, section 6.2.2: the specification that XboxOneDescriptors.h is written against. It has the
-- short items; of a report it gives the input controls, with their places in bits, the report's
-- identifier included, and their logical ranges. Collections only group, and physical ranges,
-- units, `Push` and `Pop`, which XboxOneDescriptors.h has not, are passed over.
pub mod Values
use vendor_specific_usbdrive.Base.{
  max, ℕ, zero, suc, ◌+◌, ◌-◌, ◌*◌, ◌/◌, ◌%◌, ◌^◌, Bool, ◌&&◌, Option, none, some, List, [], ◌∷◌,
  ◌++◌, take, drop, length, ◌==◌, leb, ℤ, pos, twos_complement, if◌then◌else◌,
}

pub record Item : Type 0 where
  pub kind : ℕ
  pub tag : ℕ
  pub width : ℕ
  pub value : ℕ

-- The value of an item with its sign, where the data are of that kind. No data are 0.
item_integer : ℕ → ℕ → ℤ
item_integer width v = if width == 0 then pos 0 else twos_complement (8 * width) v

-- Bytes to a number, the low byte first.
abbrev pub le_value : List ℕ → ℕ
le_value [] = 0
le_value (b ∷ bs) = b + 256 * le_value bs

data_size : ℕ → ℕ
data_size p = if p % 4 == 3 then 4 else p % 4

-- Each item takes a prefix byte at least, so fuel for the length of the bytes is enough.
items : ℕ → List ℕ → Option (List Item)
unfolding data_size
items fuel [] = some []
items zero (p ∷ bs) = none
items (suc fuel) (p ∷ bs) =
    let n = data_size p in
    let rest = items fuel (drop n bs) in
    if leb n (length bs)
    then elim rest [
      | none ↦ none
      | some is ↦
          some (
            record { kind = p / 4 % 4; tag = p / 16; width = n; value = le_value (take n bs) } ∷ is)
    ]
    else none

-- One input control. Constant controls are padding.
pub record Control : Type 0 where
  pub report_id : ℕ
  pub offset : ℕ
  pub size : ℕ
  pub constant : Bool
  pub page : ℕ
  pub usage : Option ℕ
  -- `Logical Minimum` and `Logical Maximum`, where there has been one.
  pub logical_min : Option ℤ
  pub logical_max : Option ℤ

-- The item state table. Offsets start behind the byte of the report's identifier.
record Scan : Type 0 where
  page : ℕ
  report_size : ℕ
  report_count : ℕ
  report_id : ℕ
  offset : ℕ
  usages : List ℕ
  usage_min : ℕ
  logical_min : Option ℤ
  logical_max : Option ℤ
  found : List Control

usage_range : ℕ → ℕ → List ℕ
usage_range zero u = []
usage_range (suc n) u = u ∷ usage_range n (u + 1)

-- `count` controls of one main item. The last usage serves for those that have none.
controls_of : ℕ → List ℕ → Control → List Control
controls_of zero us c = []
controls_of (suc n) [] c = c ∷ controls_of n [] (record c { offset = c.offset + c.size })
controls_of (suc n) (u ∷ []) c =
    record c { usage = some u } ∷ controls_of n (u ∷ []) (record c { offset = c.offset + c.size })
controls_of (suc n) (u ∷ v ∷ us) c =
    record c { usage = some u } ∷ controls_of n (v ∷ us) (record c { offset = c.offset + c.size })

clear_locals : Scan → Scan
clear_locals s = record s { usages = []; usage_min = 0 }

input_item : ℕ → Scan → Scan
unfolding controls_of clear_locals
input_item flags s = clear_locals (record s {
  offset = s.offset + s.report_size * s.report_count;
  found =
      s.found
      ++ controls_of s.report_count s.usages (record {
        report_id = s.report_id;
        offset = s.offset;
        size = s.report_size;
        constant = flags % 2 == 1;
        page = s.page;
        usage = none;
        logical_min = s.logical_min;
        logical_max = s.logical_max;
      });
})

-- Main items: input, and those that only clear the local state.
main_item : ℕ → ℕ → Scan → Scan
unfolding input_item clear_locals
main_item tag v s = if tag == 8 then input_item v s else clear_locals s

global_item : ℕ → ℕ → ℕ → Scan → Scan
unfolding item_integer
global_item tag width v s =
    if tag == 0
    then record s { page = v }
    else if tag == 1
    then record s { logical_min = some (item_integer width v) }
    else if tag == 2
    then record s { logical_max = some (item_integer width v) }
    else if tag == 7
    then record s { report_size = v }
    else if tag == 8
    then record s { report_id = v; offset = 8 }
    else if tag == 9
    then record s { report_count = v }
    else s

local_item : ℕ → ℕ → Scan → Scan
unfolding usage_range
local_item tag v s =
    if tag == 0
    then record s { usages = s.usages ++ v ∷ [] }
    else if tag == 1
    then record s { usage_min = v }
    else if tag == 2
    then record s { usages = s.usages ++ usage_range (v + 1 - s.usage_min) s.usage_min }
    else s

scan : List Item → Scan → Scan
unfolding main_item global_item local_item
scan [] s = s
scan (i ∷ is) s = scan is (
    if i.kind == 0
    then main_item i.tag i.value s
    else if i.kind == 1
    then global_item i.tag i.width i.value s
    else if i.kind == 2
    then local_item i.tag i.value s
    else s)

-- The input controls of a descriptor, in order; none if an item is cut short.
unfoldable pub controls : List ℕ → Option (List Control)
unfolding items scan
controls bytes = elim (items (length bytes) bytes) [
  | none ↦ none
  | some is ↦
      some
        (scan is (record {
          page = 0;
          report_size = 0;
          report_count = 0;
          report_id = 0;
          offset = 8;
          usages = [];
          usage_min = 0;
          logical_min = none;
          logical_max = none;
          found = [];
        })).found
]

-- The bits of a report: where its last control ends.
unfoldable pub report_bits : ℕ → List Control → ℕ
report_bits id [] = 0
report_bits id (c ∷ cs) =
    let rest = report_bits id cs in if c.report_id == id then max (c.offset + c.size) rest else rest
