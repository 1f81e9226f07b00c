-- ===== src/Input/Strings/Ends.antt =====
-- `CopyStringAtIndex` on every path.
use vendor_specific_usbdrive.Base.{
  ℕ, ◌+◌, ◌*◌, ◌≤◌, ◌<◌, ◌≡◌, ◌≢◌, ◌⊎◌, refl, Option, none, some, List, ◌∷◌, arith, ◌==◌, ltb,
  length, Ensures, Option-cases, Bool-cases, inl, inr, ==_iff,
}
use vendor_specific_usbdrive.Kit.{Ref}
use vendor_specific_usbdrive.Input.State.{Ivars}
use vendor_specific_usbdrive.Input.Strings.{copy_string_at_index}
use vendor_specific_usbdrive.Input.Strings.Laws.{
  copy_string_at_index_lem, copy_string_at_index_null, no_index, no_descriptor, short_descriptor,
}
use vendor_specific_usbdrive.Input.Description.State.{
  string_descriptor_piece, string_piece, DescriptionEvent, taken, given, told_some,
  StringDescriptor, StringEnv,
}

-- USBDriverKit, as it is documented: `bLength` is a byte, and the characters that it counts are
-- there.
pub record HasStrings (env : StringEnv) : Type 0 where
  pub is_byte :
      (log : List DescriptionEvent) (i : Ref) (index language : ℕ) (d : StringDescriptor)
      → env.copy_string_descriptor log i index language ≡ some d
      → d.b_length < 256
  pub is_whole :
      (log : List DescriptionEvent) (i : Ref) (index language : ℕ) (d : StringDescriptor)
      → env.copy_string_descriptor log i index language ≡ some d
      → d.b_length ≤ 2 + 2 * length d.b_string

-- Either there is no string and nothing is done, or a descriptor is copied and freed, and if there
-- is a string it is created in between.
abbrev pub Copied : List DescriptionEvent → Option Ref → List DescriptionEvent → Type 0
Copied log r t =
    ((r ≡ none) × (t ≡ log))
    ⊎ ((a : Ref) × (t
          ≡ given string_descriptor_piece a
            ∷ told_some (taken string_piece) r (taken string_descriptor_piece a ∷ log)))

module _ (env : StringEnv) (has : HasStrings env) (v : Ivars) (i : Ref)
    (provided : v.interface ≡ some i) (language : ℕ) (log : List DescriptionEvent) where
  found-Copied :
      (index : ℕ)
      → index ≢ 0
      → (d : StringDescriptor) → env.copy_string_descriptor log i index language ≡ some d
      → Ensures (Copied log) (copy_string_at_index env v index language log)
  found-Copied index named d found = elim (Bool-cases (ltb d.b_length 2)) [
    | inl short ↦
        rw
          (copy_string_at_index_null env v language log index _
            (short_descriptor index i d named provided found (ground arith)))
          (inr (d.address, refl))
    | inr long ↦
        rw
          (copy_string_at_index_lem env v language log index i d named provided found (ground arith)
            (has.is_byte log i index language d found) (has.is_whole log i index language d found))
          (inr (d.address, refl))
  ]

  pub copy_string_at_index-Copied :
      (index : ℕ) → Ensures (Copied log) (copy_string_at_index env v index language log)
  copy_string_at_index-Copied index = elim (Bool-cases (index == 0)) [
    | inl zero ↦
        rw ((==_iff index 0).0 zero)
          (rw (copy_string_at_index_null env v language log 0 log no_index) (inl (refl, refl)))
    | inr named ↦ elim (Option-cases (env.copy_string_descriptor log i index language)) [
      | inl gone ↦
          rw
            (copy_string_at_index_null env v language log index log
              (no_descriptor index i provided gone))
            (inl (refl, refl))
      | inr (d, found) ↦ found-Copied index (ground (arith, named)) d found
    ]
  ]
