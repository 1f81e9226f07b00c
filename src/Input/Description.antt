-- ===== src/Input/Description.antt =====
-- `newDeviceDescription` and `newReportDescriptor`, by which the system gets to know the controller,
-- and the constants of Shared/HIDConstants.h.
pub mod State
pub mod Balance
pub mod Contents
use vendor_specific_usbdrive.Base.{
  ℕ, ◌*◌, Option, none, some, List, ◌∷◌, not, ◌==◌, if◌then◌else◌, is_some, get_elem?, pure, deref,
  ◌>>=◌, ◌>>◌,
}
use vendor_specific_usbdrive.Kit.{Ref}
use vendor_specific_usbdrive.Descriptor.{report_descriptor, report_descriptor_size}
use vendor_specific_usbdrive.Input.State.{Ivars}
use vendor_specific_usbdrive.Input.Strings.{copy_string_at_index}
use vendor_specific_usbdrive.Input.Description.State.{
  properties_piece, device_piece, device_descriptor_piece, string_piece, Key, register_service,
  default_behavior, vendor_supported, report_interval, vendor_id, product_id, transport,
  version_number, country_code, request_timeout, primary_usage_page, primary_usage, location_id,
  manufacturer, product, serial_number, built_in, Value, boolean_true, usb_text, number, object,
  taken, given, put, Describing, tell, tell_some, inquire, DeviceDescriptor, DescriptionEnv,
}

abbrev pub class_request_completion_timeout : ℕ
class_request_completion_timeout = 5000

abbrev pub language_id_english_us : ℕ
language_id_english_us = 0x0409

-- `XboxOne::ReportDescriptor[i]`.
abbrev pub report_descriptor_byte : ℕ → Describing ℕ
unfolding report_descriptor
report_descriptor_byte i = deref (get_elem? report_descriptor i)

-- The values that are there for every device.
unfoldable pub put_fixed :
    DescriptionEnv → Ivars → (dictionary : Ref) → DeviceDescriptor → Describing (Unit {0})
unfolding report_descriptor
put_fixed env v dictionary d = do
  tell (put dictionary register_service boolean_true)
  tell (put dictionary default_behavior boolean_true)
  tell (put dictionary vendor_supported boolean_true)
  tell (put dictionary report_interval (number v.in_pipe.interval))
  tell (put dictionary vendor_id (number (env.usb_to_host16 d.id_vendor)))
  tell (put dictionary product_id (number (env.usb_to_host16 d.id_product)))
  tell (put dictionary transport usb_text)
  tell (put dictionary version_number (number (env.usb_to_host16 d.bcd_device)))
  tell (put dictionary country_code (number 0))
  tell (put dictionary request_timeout (number (class_request_completion_timeout * 1000)))
  page ← report_descriptor_byte 1
  tell (put dictionary primary_usage_page (number page))
  usage ← report_descriptor_byte 3
  tell (put dictionary primary_usage (number usage))

-- A string of the device, if it has it; the dictionary retains it, so it is released.
unfoldable pub put_string :
    DescriptionEnv → Ivars → (dictionary : Ref) → Key → (index : ℕ) → Describing (Unit {0})
put_string env v dictionary key index = do
  value ← copy_string_at_index env.strings v index language_id_english_us
  tell_some (λ r. put dictionary key (object r)) value
  tell_some (given string_piece) value

abbrev pub put_location : DescriptionEnv → (dictionary properties : Ref) → Describing (Unit {0})
put_location env dictionary properties =
    tell_some (λ r. put dictionary location_id (object r)) (env.location_value properties)

abbrev pub put_built_in : DescriptionEnv → (dictionary properties : Ref) → Describing (Unit {0})
put_built_in env dictionary properties =
    if env.port_type properties == env.port_type_internal
    then tell (put dictionary built_in boolean_true)
    else pure tt

-- The values that not every device has.
unfoldable pub put_found :
    DescriptionEnv
    → Ivars
    → (dictionary properties : Ref) → DeviceDescriptor
    → Describing (Unit {0})
put_found env v dictionary properties d = do
  put_location env dictionary properties
  put_string env v dictionary manufacturer d.i_manufacturer
  put_string env v dictionary product d.i_product
  put_string env v dictionary serial_number d.i_serial_number
  put_built_in env dictionary properties

unfoldable pub put_all :
    DescriptionEnv
    → Ivars
    → (dictionary properties : Ref) → DeviceDescriptor
    → Describing (Unit {0})
put_all env v dictionary properties d = do
  put_fixed env v dictionary d
  put_found env v dictionary properties d

abbrev pub descriptor_address : Option DeviceDescriptor → Option Ref
descriptor_address none = none
descriptor_address (some d) = some d.address

-- Behind the label `Exit`.
abbrev pub leave :
    (dictionary properties : Option Ref)
    → Option DeviceDescriptor
    → (device : Option Ref) → Describing (Option Ref)
leave dictionary properties descriptor device = do
  tell_some (given properties_piece) properties
  tell_some (given device_descriptor_piece) (descriptor_address descriptor)
  tell_some (given device_piece) device
  pure dictionary

-- From the creation of the dictionary on.
unfoldable pub fill_dictionary :
    DescriptionEnv → Ivars → (properties device : Ref) → DeviceDescriptor → Describing (Option Ref)
fill_dictionary env v properties device d = do
  dictionary ← inquire (λ log. env.dictionary_with_capacity log 16)
  if not (is_some dictionary) then leave none (some properties) (some d) (some device) else do
    r ← deref dictionary
    put_all env v r properties d
    leave dictionary (some properties) (some d) (some device)

unfoldable pub new_device_description : DescriptionEnv → Ivars → Describing (Option Ref)
new_device_description env v = if not (is_some v.interface) then leave none none none none else do
  i ← deref v.interface
  properties ← inquire (λ log. env.copy_properties log i)
  tell_some (taken properties_piece) properties
  if not (is_some properties) then leave none properties none none else do
    p ← deref properties
    device ← inquire (λ log. env.copy_device log i)
    tell_some (taken device_piece) device
    if not (is_some device) then leave none properties none device else do
      host ← deref device
      descriptor ← inquire (λ log. env.copy_device_descriptor log host)
      tell_some (taken device_descriptor_piece) (descriptor_address descriptor)
      if not (is_some descriptor)
          then leave none properties descriptor device
          else do d ← deref descriptor; fill_dictionary env v p host d

-- `OSData::withBytesNoCopy` of the bytes: the object's contents.
abbrev pub new_report_descriptor : List ℕ × ℕ
unfolding report_descriptor report_descriptor_size
new_report_descriptor = (report_descriptor, report_descriptor_size)
