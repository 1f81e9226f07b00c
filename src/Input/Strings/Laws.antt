-- ===== src/Input/Strings/Laws.antt =====
-- `CopyStringAtIndex`: the text of the string, the bounds, and the descriptor's return.
use vendor_specific_usbdrive.Base.{
  Bool-cases, inl, inr, true, false, ℕ, zero, suc, ◌+◌, ◌-◌, ◌*◌, ◌/◌, ◌%◌, ◌≤◌, ◌<◌, ◌≡◌, ◌≢◌,
  refl, ap, ◌∙◌, none, some, List, [], ◌∷◌, ◌++◌, ◌==◌, if◌then◌else◌, get_elem?, set, take, drop,
  replicate, length, arith, length-set,
}
use vendor_specific_usbdrive.Kit.{Ref}
use vendor_specific_usbdrive.Input.State.{Ivars}
use vendor_specific_usbdrive.Input.Strings.{copy_chars, create_string, copy_string_at_index}
use vendor_specific_usbdrive.Input.Description.State.{
  DescriptionEvent, string_descriptor_piece, string_piece, taken, given, told_some,
  StringDescriptor, StringEnv,
}

-- The text of at most `n` characters: up to the first 0, each cut to its low byte.
abbrev pub text_of : ℕ → List ℕ → List ℕ
text_of zero values = []
text_of (suc n) [] = []
text_of (suc n) (value ∷ values) =
    let rest = text_of n values in if value == 0 then [] else (value % 256) ∷ rest

drop-get_elem? :
    {A : Type 0} (xs : List A) (i : ℕ)
    → i < length xs
    → (x : A) × (get_elem? xs i ≡ some x) × (drop i xs ≡ x ∷ drop (suc i) xs)
drop-get_elem? [] i h = absurd (omega arith)
drop-get_elem? (x ∷ xs) zero h = (x, refl, refl)
drop-get_elem? (x ∷ xs) (suc i) h = drop-get_elem? xs i (omega arith)

take-set :
    {A : Type 0} (xs : List A) (i : ℕ) (v : A)
    → i < length xs
    → take (suc i) (set xs i v) ≡ take i xs ++ (v ∷ [])
take-set [] i v h = absurd (omega arith)
take-set (x ∷ xs) zero v h = refl
take-set (x ∷ xs) (suc i) v h = ap (◌∷◌ x) (take-set xs i v (omega arith))

append-snoc : {A : Type 0} (xs ys : List A) (v : A) → (xs ++ (v ∷ [])) ++ ys ≡ xs ++ (v ∷ ys)
append-snoc [] ys v = refl
append-snoc (x ∷ xs) ys v = ap (◌∷◌ x) (append-snoc xs ys v)

append-nil : {A : Type 0} (xs : List A) → xs ≡ xs ++ []
append-nil [] = refl
append-nil (x ∷ xs) = ap (◌∷◌ x) (append-nil xs)

-- One more character.
text_of-next :
    (rest x : ℕ) (values : List ℕ)
    → (x == 0) ≡ false
    → text_of (suc rest) (x ∷ values) ≡ (x % 256) ∷ text_of rest values
text_of-next rest x values e = rw e

text_of-end :
    (rest x : ℕ) (values : List ℕ) → (x == 0) ≡ true → text_of (suc rest) (x ∷ values) ≡ []
text_of-end rest x values e = rw e

-- What the loop leaves, with `rest` rounds left.
abbrev CopiesText : (rest : ℕ) → List ℕ → ℕ → List ℕ → List DescriptionEvent → Type 0
unfolding copy_chars
CopiesText rest values index result log =
    (n : ℕ) × (out : List ℕ) × (copy_chars rest values index result log ≡ some ((n, out), log))
    × (take n out ≡ take index result ++ text_of rest (drop index values))

copy_chars-text :
    (rest : ℕ) (values : List ℕ) (index : ℕ) (result : List ℕ) (log : List DescriptionEvent)
    → index + rest ≤ length values
    → index + rest < 256
    → length result ≡ 256
    → CopiesText rest values index result log
unfolding copy_chars
copy_chars-text zero values index result log h k l =
    (index, result, refl, append-nil (take index result))
copy_chars-text (suc rest) values index result log h k l =
    let (x, got, dropped) = drop-get_elem? values index (omega arith) in
    let next : (index + 1) % 256 ≡ suc index = omega arith in
    elim (Bool-cases (x == 0)) [
      | inl ended ↦ (
        index,
        result,
        ground (arith, got, ended),
        rw (dropped, text_of-end rest x (drop (suc index) values) ended)
            (append-nil (take index result)),
      )
      | inr going ↦
          let (n, out, ran, text) =
            copy_chars-text rest values (suc index) (set result index (x % 256)) log (omega arith)
              (omega arith) (length-set result index (x % 256) ∙ l) in
          (
            n,
            out,
            ground (arith, got, going, next, ran),
            rw (dropped, text_of-next rest x (drop (suc index) values) going)
                (text
                  ∙ ap (λ xs. xs ++ text_of rest (drop (suc index) values))
                      (take-set result index (x % 256) (omega arith))
                  ∙ append-snoc (take index result) (text_of rest (drop (suc index) values))
                      (x % 256)),
          )
    ]

module _ (env : StringEnv) (v : Ivars) (language : ℕ) (log : List DescriptionEvent) where
  -- For a string that the device has, whose descriptor is at least as long as its header and whose
  -- characters are all there: the copy stays within the array of 256 bytes and within the
  -- descriptor, the string is created of the descriptor's characters up to the first 0, each cut to
  -- its low byte, and the descriptor is freed, once. The string is the caller's.
  pub copy_string_at_index_lem :
      (index : ℕ) (i : Ref) (d : StringDescriptor)
      → index ≢ 0
      → v.interface ≡ some i
      → env.copy_string_descriptor log i index language ≡ some d
      → 2 ≤ d.b_length
      → d.b_length < 256
      → d.b_length ≤ 2 + 2 * length d.b_string
      → copy_string_at_index env v index language log ≡ (
          let copied = taken string_descriptor_piece d.address ∷ log in
          let string = env.os_string_create copied (text_of ((d.b_length - 2) / 2) d.b_string) in
          some (
            string,
            given string_descriptor_piece d.address ∷ told_some (taken string_piece) string copied,
          ))
  unfolding copy_string_at_index create_string
  copy_string_at_index_lem index i d named provided found header byte whole =
      let (n, out, ran, text) =
        copy_chars-text ((d.b_length - 2) / 2) d.b_string 0 (replicate 256 0)
          (taken string_descriptor_piece d.address ∷ log) (omega arith) (omega arith) refl in
      let short : (d.b_length - 2) / 2 % 256 ≡ (d.b_length - 2) / 2 = omega arith in
      ground (arith, short, ran, text)

-- How there can be no string, with what has been done by then.
pub data NoString (env : StringEnv) (v : Ivars) (language : ℕ) (log : List DescriptionEvent)
    : ℕ → List DescriptionEvent → Type 0 where
  no_index : NoString env v language log 0 log
  no_descriptor :
      (index : ℕ) (i : Ref)
      → v.interface ≡ some i
      → env.copy_string_descriptor log i index language ≡ none
      → NoString env v language log index log
  short_descriptor :
      (index : ℕ) (i : Ref) (d : StringDescriptor)
      → index ≢ 0
      → v.interface ≡ some i
      → env.copy_string_descriptor log i index language ≡ some d
      → d.b_length < 2
      → NoString env v language log index
          (given string_descriptor_piece d.address ∷ taken string_descriptor_piece d.address ∷ log)

-- For index 0, which stands for no string, for a string that the device does not have, and for a
-- descriptor that is shorter than its header, the result is null; in the last case the descriptor
-- is freed.
pub copy_string_at_index_null :
    (env : StringEnv) (v : Ivars) (language : ℕ) (log : List DescriptionEvent) (index : ℕ)
    (after : List DescriptionEvent)
    → NoString env v language log index after
    → copy_string_at_index env v index language log ≡ some (none, after)
unfolding copy_string_at_index
copy_string_at_index_null env v language log _ _ no_index = refl
copy_string_at_index_null env v language log _ _ (no_descriptor index i p f) = ground arith
copy_string_at_index_null env v language log _ _ (short_descriptor index i d n p f h) = ground arith
