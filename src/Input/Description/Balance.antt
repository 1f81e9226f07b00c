-- ===== src/Input/Description/Balance.antt =====
-- Every path of `newDeviceDescription` gives back what it has taken.
use vendor_specific_usbdrive.Base.{
  ℕ, ◌+◌, ◌≡◌, Option, none, some, List, [], ◌∷◌, arith, ◌==◌, ◌&&◌, if◌then◌else◌, Ensures,
  Ensures-some, Ensures-bind, Option-cases, inl, inr, Ensures-then,
}
use vendor_specific_usbdrive.Kit.{Ref}
use vendor_specific_usbdrive.Input.State.{Ivars}
use vendor_specific_usbdrive.Input.Strings.{copy_string_at_index}
use vendor_specific_usbdrive.Input.Strings.Ends.{HasStrings, Copied, copy_string_at_index-Copied}
use vendor_specific_usbdrive.Input.Description.State.{
  Piece, properties_piece, device_piece, device_descriptor_piece, string_descriptor_piece,
  string_piece, DescriptionEvent, manufacturer, product, serial_number, taken, given, put,
  DeviceDescriptor, DescriptionEnv, Key,
}
use vendor_specific_usbdrive.Input.Description.{
  put_fixed, put_string, put_location, put_built_in, put_found, put_all, fill_dictionary,
  new_device_description,
}

abbrev piece_code : Piece → ℕ
piece_code properties_piece = 0
piece_code device_piece = 1
piece_code device_descriptor_piece = 2
piece_code string_descriptor_piece = 3
piece_code string_piece = 4

-- 1 if the two are the same object of the same kind.
pub hit : Piece → Ref → Piece → Ref → ℕ
hit p x q r = if (piece_code p == piece_code q) && (x == r) then 1 else 0

-- How often an object has been taken, and given back.
abbrev pub takes : Piece → Ref → List DescriptionEvent → ℕ
takes p x [] = 0
takes p x (taken q r ∷ es) = hit p x q r + takes p x es
takes p x (given _ _ ∷ es) = takes p x es
takes p x (put _ _ _ ∷ es) = takes p x es

abbrev pub gives : Piece → Ref → List DescriptionEvent → ℕ
gives p x [] = 0
gives p x (given q r ∷ es) = hit p x q r + gives p x es
gives p x (taken _ _ ∷ es) = gives p x es
gives p x (put _ _ _ ∷ es) = gives p x es

module _ (p : Piece) (x : Ref) where
  abbrev held : Option Ref → ℕ
  held none = 0
  held (some r) = hit p x string_piece r

  -- From one log to the other, as often given back as taken, but for what is still held.
  abbrev pub IsOwing : ℕ → List DescriptionEvent → List DescriptionEvent → Type 0
  IsOwing n s t = takes p x t + gives p x s ≡ gives p x t + takes p x s + n

  Copied-IsOwing :
      (log t : List DescriptionEvent) (r : Option Ref) → Copied log r t → IsOwing (held r) log t
  Copied-IsOwing log t none (inl (e, f)) = rw f (omega arith)
  Copied-IsOwing log t (some q) (inl (e, f)) = cc
  Copied-IsOwing log t none (inr (a, f)) = rw f (omega arith)
  Copied-IsOwing log t (some q) (inr (a, f)) = rw f (omega arith)

  module _ (env : DescriptionEnv) (has : HasStrings env.strings) (v : Ivars) (i : Ref)
      (provided : v.interface ≡ some i) where
    put_string-IsOwing :
        (dictionary : Ref) (key : Key) (index : ℕ) (log : List DescriptionEvent)
        → Ensures (λ _. IsOwing 0 log) (put_string env v dictionary key index log)
    unfolding put_string
    put_string-IsOwing dictionary key index log =
        Ensures-bind (Copied log) (λ _. IsOwing 0 log)
          (copy_string_at_index env.strings v index 0x409) _ log
          (copy_string_at_index-Copied env.strings has v i provided 0x409 log index)
          λ r t c.
            let owing = Copied-IsOwing log t r c in
            elim (Option-cases r) [ inl e ↦ ground (arith, e) | inr (q, e) ↦ ground (arith, e) ]

    abbrev Then : List DescriptionEvent → List DescriptionEvent → Type 0
    Then = IsOwing 0

    owing_trans : (s t u : List DescriptionEvent) → Then s t → Then t u → Then s u
    owing_trans s t u h k = omega arith

    location-IsOwing :
        (dictionary properties : Ref) (log : List DescriptionEvent)
        → Ensures (λ _. Then log) (put_location env dictionary properties log)
    location-IsOwing dictionary properties log =
        elim (Option-cases (env.location_value properties)) [
          | inl e ↦ ground (arith, e)
          | inr (q, e) ↦ ground (arith, e)
        ]

    put_found-IsOwing :
        (dictionary properties : Ref) (d : DeviceDescriptor) (log : List DescriptionEvent)
        → Ensures (λ _. Then log) (put_found env v dictionary properties d log)
    unfolding put_found
    put_found-IsOwing dictionary properties d log =
        Ensures-then Then owing_trans (put_location env dictionary properties) _ log
          (location-IsOwing dictionary properties log)
          λ t.
            Ensures-then Then owing_trans
              (put_string env v dictionary manufacturer d.i_manufacturer) _ t
              (put_string-IsOwing dictionary manufacturer d.i_manufacturer t)
              λ t.
                Ensures-then Then owing_trans (put_string env v dictionary product d.i_product) _ t
                  (put_string-IsOwing dictionary product d.i_product t)
                  λ t.
                    Ensures-then Then owing_trans
                      (put_string env v dictionary serial_number d.i_serial_number)
                      (put_built_in env dictionary properties) t
                      (put_string-IsOwing dictionary serial_number d.i_serial_number t)
                      λ t. ground arith

    put_fixed-IsOwing :
        (dictionary : Ref) (d : DeviceDescriptor) (log : List DescriptionEvent)
        → Ensures (λ _. Then log) (put_fixed env v dictionary d log)
    unfolding put_fixed
    put_fixed-IsOwing dictionary d log = omega arith

    put_all-IsOwing :
        (dictionary properties : Ref) (d : DeviceDescriptor) (log : List DescriptionEvent)
        → Ensures (λ _. Then log) (put_all env v dictionary properties d log)
    unfolding put_all
    put_all-IsOwing dictionary properties d log =
        Ensures-then Then owing_trans (put_fixed env v dictionary d)
          (put_found env v dictionary properties d) log (put_fixed-IsOwing dictionary d log)
          (put_found-IsOwing dictionary properties d)

    -- The three that are held when the dictionary is created are given back.
    abbrev IsSettled :
        (properties device : Ref)
        → DeviceDescriptor
        → List DescriptionEvent
        → List DescriptionEvent
        → Type 0
    IsSettled properties device d log t =
        takes p x t
          + gives p x log
          + hit p x properties_piece properties
          + hit p x device_piece device
          + hit p x device_descriptor_piece d.address
        ≡ gives p x t + takes p x log

    fill-IsSettled :
        (properties device : Ref) (d : DeviceDescriptor) (log : List DescriptionEvent)
        → Ensures
            (λ _. IsSettled properties device d log)
            (fill_dictionary env v properties device d log)
    unfolding fill_dictionary
    fill-IsSettled properties device d log =
        elim (Option-cases (env.dictionary_with_capacity log 16)) [
          | inl e ↦ ground (arith, e)
          | inr (r, e) ↦ rw e (
              Ensures-bind (λ _. Then log) (λ _. IsSettled properties device d log)
                (put_all env v r properties d) _ log (put_all-IsOwing r properties d log)
                λ _ t q. omega arith)
        ]

    described-IsOwing :
        (log : List DescriptionEvent) → Ensures (λ _. Then log) (new_device_description env v log)
    unfolding new_device_description
    described-IsOwing log = elim (Option-cases (env.copy_properties log i)) [
      | inl e ↦ ground (arith, e)
      | inr (properties, e) ↦
          let l₁ = taken properties_piece properties ∷ log in
          elim (Option-cases (env.copy_device l₁ i)) [
            | inl f ↦ ground (arith, e, f)
            | inr (host, f) ↦
                let l₂ = taken device_piece host ∷ l₁ in
                elim (Option-cases (env.copy_device_descriptor l₂ host)) [
                  | inl g ↦ ground (arith, e, f, g)
                  | inr (d, g) ↦ ground (
                    arith,
                    e,
                    f,
                    g,
                    fill-IsSettled properties host d (taken device_descriptor_piece d.address ∷ l₂),
                  )
                ]
          ]
    ]

-- With string descriptors as documented, from stored variables with a provider:
-- `newDeviceDescription` ends without undefined behaviour whatever the frameworks answer, and each
-- object that it has copied or created on the way (the properties, the device, the device
-- descriptor, the string descriptors and the strings) has been given back as often as taken.
pub new_device_description-IsBalanced :
    (env : DescriptionEnv)
    → HasStrings env.strings
    → (v : Ivars) (i : Ref) → v.interface ≡ some i
    → (log : List DescriptionEvent) (p : Piece) (x : Ref)
    → (dictionary : Option Ref) × (t : List DescriptionEvent) × (new_device_description env v log
        ≡ some (dictionary, t))
      × (takes p x t + gives p x log ≡ gives p x t + takes p x log)
new_device_description-IsBalanced env has v i provided log p x =
    let (dictionary, t, ran, q) =
      Ensures-some _ _ (described-IsOwing p x env has v i provided log) in
    (dictionary, t, ran, omega (arith, q))
