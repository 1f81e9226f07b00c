-- ===== src/Input/Strings.antt =====
-- `CopyStringAtIndex`, by which the device description gets the names of the device.
pub mod Laws
pub mod Ends
use vendor_specific_usbdrive.Base.{
  ℕ, zero, suc, ◌+◌, ◌-◌, ◌/◌, ◌%◌, ◌^◌, Option, none, some, List, ◌∷◌, not, ◌==◌, ltb,
  if◌then◌else◌, is_some, get_elem?, set, take, replicate, length, M, pure, fault, deref, ◌>>=◌,
  ◌>>◌,
}
use vendor_specific_usbdrive.Kit.{Ref}
use vendor_specific_usbdrive.Input.State.{Ivars}
use vendor_specific_usbdrive.Input.Description.State.{
  string_descriptor_piece, string_piece, taken, given, Describing, tell, tell_some, inquire,
  StringDescriptor, StringEnv,
}

abbrev pub descriptor_header_size : ℕ
descriptor_header_size = 2

-- `result[index] = value`, into an array of 256 bytes.
abbrev pub put_char : List ℕ → ℕ → ℕ → Describing (List ℕ)
put_char result index value =
    if ltb index (length result) then pure (set result index value) else fault

-- The `for` loop with `rest` rounds left: the index behind it, and the array.
pub copy_chars : (rest : ℕ) → List ℕ → ℕ → List ℕ → Describing (ℕ × List ℕ)
copy_chars zero values index result = pure (index, result)
copy_chars (suc rest) values index result = do
  value ← deref (get_elem? values index)
  if value == 0 then pure (index, result) else do
    result' ← put_char result index (value % 2 ^ 8)
    copy_chars rest values ((index + 1) % 2 ^ 8) result'

unfoldable pub create_string : StringEnv → StringDescriptor → Describing (Option Ref)
unfolding copy_chars
create_string env d = do
  let length = (d.b_length - descriptor_header_size) / 2 % 2 ^ 8
  (index, result) ← copy_chars length d.b_string 0 (replicate 256 0)
  string ← inquire (λ log. env.os_string_create log (take index result))
  tell_some (taken string_piece) string
  pure string

unfoldable pub copy_string_at_index :
    StringEnv → Ivars → (index language : ℕ) → Describing (Option Ref)
copy_string_at_index env v index language = if index == 0 then pure none else do
  i ← deref v.interface
  found ← inquire (λ log. env.copy_string_descriptor log i index language)
  if not (is_some found) then pure none else do
    d ← deref found
    tell (taken string_descriptor_piece d.address)
    string ← if ltb d.b_length descriptor_header_size then pure none else create_string env d
    tell (given string_descriptor_piece d.address)
    pure string
