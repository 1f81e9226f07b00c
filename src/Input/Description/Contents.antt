-- ===== src/Input/Description/Contents.antt =====
-- What `newDeviceDescription` puts into the dictionary for every device.
use vendor_specific_usbdrive.Base.{
  ℕ, ◌≤◌, ◌<◌, ◌≡◌, ◌∙◌, Option, none, some, List, [], ◌∷◌, arith, ◌==◌, ◌&&◌, if◌then◌else◌,
  Ensures, Ensures-some, Ensures-bind, Ensures-then, Ensures-mono, Option-cases, inl, inr,
}
use vendor_specific_usbdrive.Kit.{Ref}
use vendor_specific_usbdrive.Input.State.{Ivars}
use vendor_specific_usbdrive.Input.Strings.{copy_string_at_index}
use vendor_specific_usbdrive.Input.Strings.Ends.{HasStrings, Copied, copy_string_at_index-Copied}
use vendor_specific_usbdrive.Input.Description.State.{
  properties_piece, device_piece, device_descriptor_piece, Key, register_service, default_behavior,
  vendor_supported, report_interval, vendor_id, product_id, transport, version_number, country_code,
  request_timeout, primary_usage_page, primary_usage, location_id, manufacturer, product,
  serial_number, built_in, Value, boolean_true, usb_text, number, DescriptionEvent, taken, given,
  put, DeviceDescriptor, DescriptionEnv,
}
use vendor_specific_usbdrive.Input.Description.{
  put_fixed, put_string, put_location, put_built_in, put_found, put_all, fill_dictionary,
  new_device_description,
}

-- The place of a key in the order of the declaration.
abbrev pub key_code : Key → ℕ
key_code register_service = 0
key_code default_behavior = 1
key_code vendor_supported = 2
key_code report_interval = 3
key_code vendor_id = 4
key_code product_id = 5
key_code transport = 6
key_code version_number = 7
key_code country_code = 8
key_code request_timeout = 9
key_code primary_usage_page = 10
key_code primary_usage = 11
key_code location_id = 12
key_code manufacturer = 13
key_code product = 14
key_code serial_number = 15
key_code built_in = 16

-- The value that a dictionary has for a key: what was put last.
abbrev pub value_of : Ref → Key → List DescriptionEvent → Option Value
value_of d k [] = none
value_of d k (taken _ _ ∷ es) = value_of d k es
value_of d k (given _ _ ∷ es) = value_of d k es
value_of d k (put e j w ∷ es) =
    let rest = value_of d k es in if d == e && key_code k == key_code j then some w else rest

-- The value for each key that is always set: that of a gamepad on the generic desktop page, which
-- the system registers, with the numbers of the device. The time-out is five seconds, in
-- microseconds.
abbrev pub fixed_value : (ℕ → ℕ) → Ivars → DeviceDescriptor → Key → Option Value
fixed_value host v d register_service = some boolean_true
fixed_value host v d default_behavior = some boolean_true
fixed_value host v d vendor_supported = some boolean_true
fixed_value host v d report_interval = some (number v.in_pipe.interval)
fixed_value host v d vendor_id = some (number (host d.id_vendor))
fixed_value host v d product_id = some (number (host d.id_product))
fixed_value host v d transport = some usb_text
fixed_value host v d version_number = some (number (host d.bcd_device))
fixed_value host v d country_code = some (number 0)
fixed_value host v d request_timeout = some (number 5_000_000)
fixed_value host v d primary_usage_page = some (number 0x01)
fixed_value host v d primary_usage = some (number 0x05)
fixed_value host v d _ = none

module _ (env : DescriptionEnv) (v : Ivars) (r : Ref) (d : DeviceDescriptor) where
  put_fixed-value :
      (k : Key) (log : List DescriptionEvent)
      → key_code k < 12
      → Ensures
          (λ _ t. value_of r k t ≡ fixed_value env.usb_to_host16 v d k)
          (put_fixed env v r d log)
  unfolding put_fixed
  put_fixed-value register_service log h = ground arith
  put_fixed-value k log h = ground arith

module _ (env : DescriptionEnv) (has : HasStrings env.strings) (v : Ivars) (i : Ref)
    (provided : v.interface ≡ some i) (r : Ref) (k : Key) (fixed : key_code k < 12) where
  -- The value is not changed.
  abbrev Keeps : List DescriptionEvent → List DescriptionEvent → Type 0
  Keeps s t = value_of r k t ≡ value_of r k s

  Keeps-trans : (s t u : List DescriptionEvent) → Keeps s t → Keeps t u → Keeps s u
  Keeps-trans s t u h l = l ∙ h

  Copied-Keeps : (log t : List DescriptionEvent) (q : Option Ref) → Copied log q t → Keeps log t
  Copied-Keeps log t none (inl (e, f)) = rw f
  Copied-Keeps log t (some q) (inl (e, f)) = rw f
  Copied-Keeps log t none (inr (a, f)) = rw f
  Copied-Keeps log t (some q) (inr (a, f)) = rw f

  put_string-Keeps :
      (key : Key) (index : ℕ) (log : List DescriptionEvent)
      → 12 ≤ key_code key
      → Ensures (λ _. Keeps log) (put_string env v r key index log)
  unfolding put_string
  put_string-Keeps key index log found =
      Ensures-bind (Copied log) (λ _. Keeps log) (copy_string_at_index env.strings v index 0x409) _
        log (copy_string_at_index-Copied env.strings has v i provided 0x409 log index)
        λ q t c.
          let kept = Copied-Keeps log t q c in
          elim (Option-cases q) [ inl e ↦ ground (arith, e) | inr (x, e) ↦ ground (arith, e) ]

  put_location-Keeps :
      (properties : Ref) (log : List DescriptionEvent)
      → Ensures (λ _. Keeps log) (put_location env r properties log)
  put_location-Keeps properties log = elim (Option-cases (env.location_value properties)) [
    | inl e ↦ ground (arith, e)
    | inr (q, e) ↦ ground (arith, e)
  ]

  put_found-Keeps :
      (properties : Ref) (d : DeviceDescriptor) (log : List DescriptionEvent)
      → Ensures (λ _. Keeps log) (put_found env v r properties d log)
  unfolding put_found
  put_found-Keeps properties d log =
      Ensures-then Keeps Keeps-trans (put_location env r properties) _ log
        (put_location-Keeps properties log)
        λ t.
          Ensures-then Keeps Keeps-trans (put_string env v r manufacturer d.i_manufacturer) _ t
            (put_string-Keeps manufacturer d.i_manufacturer t (omega arith))
            λ t.
              Ensures-then Keeps Keeps-trans (put_string env v r product d.i_product) _ t
                (put_string-Keeps product d.i_product t (omega arith))
                λ t.
                  Ensures-then Keeps Keeps-trans
                    (put_string env v r serial_number d.i_serial_number)
                    (put_built_in env r properties) t
                    (put_string-Keeps serial_number d.i_serial_number t (omega arith))
                    λ t. ground arith

  put_all-value :
      (properties : Ref) (d : DeviceDescriptor) (log : List DescriptionEvent)
      → Ensures
          (λ _ t. value_of r k t ≡ fixed_value env.usb_to_host16 v d k)
          (put_all env v r properties d log)
  unfolding put_all
  put_all-value properties d log =
      Ensures-bind (λ _ t. value_of r k t ≡ fixed_value env.usb_to_host16 v d k) _
        (put_fixed env v r d) (λ _. put_found env v r properties d) log
        (put_fixed-value env v r d k log fixed)
        λ _ t e.
          Ensures-mono _ _ (put_found env v r properties d t) (λ _ u f. f ∙ e)
            (put_found-Keeps properties d t)

-- With string descriptors as documented, and when every object is there: `newDeviceDescription`
-- returns the dictionary, in which every key that is always set has its value. Neither the strings
-- nor the location and the type of the port overwrite it.
pub new_device_description-sets :
    (env : DescriptionEnv)
    → HasStrings env.strings
    → (v : Ivars) (i : Ref) → v.interface ≡ some i
    → (properties device dictionary : Ref) (d : DeviceDescriptor)
    → ((log : List DescriptionEvent) → env.copy_properties log i ≡ some properties)
    → ((log : List DescriptionEvent) → env.copy_device log i ≡ some device)
    → ((log : List DescriptionEvent) → env.copy_device_descriptor log device ≡ some d)
    → ((log : List DescriptionEvent) → env.dictionary_with_capacity log 16 ≡ some dictionary)
    → (k : Key) → key_code k < 12
    → (log : List DescriptionEvent)
    → (t : List DescriptionEvent) × (new_device_description env v log ≡ some (some dictionary, t))
      × (value_of dictionary k t ≡ fixed_value env.usb_to_host16 v d k)
unfolding new_device_description fill_dictionary
new_device_description-sets env has v i provided properties device dictionary d e f g h k fixed
      log =
    let l₁ = taken properties_piece properties ∷ log in
    let l₂ = taken device_piece device ∷ l₁ in
    let l₃ = taken device_descriptor_piece d.address ∷ l₂ in
    let (_, t, ran, q) =
      Ensures-some _ (put_all env v dictionary properties d l₃)
        (put_all-value env has v i provided dictionary k fixed properties d l₃) in
    (
      given device_piece device
          ∷ given device_descriptor_piece d.address
          ∷ given properties_piece properties
          ∷ t,
      ground (arith, e log, f l₁, g l₂, h l₃, ran),
      q,
    )
