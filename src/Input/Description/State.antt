-- ===== src/Input/Description/State.antt =====
-- The objects that the device description is made of, what is done with them, and the frameworks.
use vendor_specific_usbdrive.Base.{ℕ, Option, none, some, List, ◌∷◌, M}
use vendor_specific_usbdrive.Kit.{Ref}

-- What is copied or created on the way, and has to be given back.
pub data Piece : Type 0 where
  properties_piece device_piece device_descriptor_piece : Piece
  string_descriptor_piece string_piece : Piece

-- The keys of the description. Those from `location_id` on are set only if there is a value.
pub data Key : Type 0 where
  register_service default_behavior vendor_supported : Key
  report_interval vendor_id product_id transport version_number country_code : Key
  request_timeout primary_usage_page primary_usage : Key
  location_id manufacturer product serial_number built_in : Key

-- `kOSBooleanTrue`, an integer, the string "USB", and another object.
pub data Value : Type 0 where
  boolean_true usb_text : Value
  number : ℕ → Value
  object : Ref → Value

-- `put` is a call of `OSDictionarySetValue` or of its kin. The latest event is first.
pub data DescriptionEvent : Type 0 where
  taken given : Piece → Ref → DescriptionEvent
  put : (dictionary : Ref) → Key → Value → DescriptionEvent

abbrev pub Describing : Type 0 → Type 0
Describing A = M (List DescriptionEvent) A

abbrev pub tell : DescriptionEvent → Describing (Unit {0})
tell e log = some (tt, e ∷ log)

-- The log behind what is done with an object that may be null.
abbrev pub told_some :
    (Ref → DescriptionEvent) → Option Ref → List DescriptionEvent → List DescriptionEvent
told_some f none log = log
told_some f (some r) log = f r ∷ log

abbrev pub tell_some : (Ref → DescriptionEvent) → Option Ref → Describing (Unit {0})
tell_some f r log = some (tt, told_some f r log)

-- A question to the frameworks about the history.
abbrev pub inquire : {A : Type 0} → (List DescriptionEvent → A) → Describing A
inquire f log = some (f log, log)

-- `IOUSBStringDescriptor`: its address, `bLength`, and the 16-bit values from `bString` on.
pub record StringDescriptor : Type 0 where
  pub address : Ref
  pub b_length : ℕ
  pub b_string : List ℕ

-- `IOUSBDeviceDescriptor`, as far as it is read.
pub record DeviceDescriptor : Type 0 where
  pub address : Ref
  pub id_vendor : ℕ
  pub id_product : ℕ
  pub bcd_device : ℕ
  pub i_manufacturer : ℕ
  pub i_product : ℕ
  pub i_serial_number : ℕ

-- `CopyStringDescriptor` of the interface, and `OSStringCreate`.
pub record StringEnv : Type 0 where
  pub copy_string_descriptor : List DescriptionEvent → Ref → ℕ → ℕ → Option StringDescriptor
  pub os_string_create : List DescriptionEvent → List ℕ → Option Ref

-- The rest of what the description calls. A call that fills in a pointer answers with the pointer
-- that it leaves.
pub record DescriptionEnv : Type 0 where
  pub strings : StringEnv
  pub copy_properties : List DescriptionEvent → Ref → Option Ref
  pub copy_device : List DescriptionEvent → Ref → Option Ref
  pub copy_device_descriptor : List DescriptionEvent → Ref → Option DeviceDescriptor
  -- `OSDictionary::withCapacity`.
  pub dictionary_with_capacity : List DescriptionEvent → ℕ → Option Ref
  -- The location and the type of the port, of the properties.
  pub location_value : Ref → Option Ref
  pub port_type : Ref → ℕ
  -- `kIOUSBHostPortTypeInternal` and `USBToHost16`.
  pub port_type_internal : ℕ
  pub usb_to_host16 : ℕ → ℕ
