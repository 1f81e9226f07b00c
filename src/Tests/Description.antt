-- ===== src/Tests/Description.antt =====
-- The strings and the description of a device.
use vendor_specific_usbdrive.Base.{
  ◌+◌, ◌≡◌, refl, Option, none, some, List, [], ◌∷◌, arith, if◌then◌else◌, ◌==◌,
}
use vendor_specific_usbdrive.Kit.{Ref}
use vendor_specific_usbdrive.Input.Description.State.{
  string_descriptor_piece, string_piece, vendor_id, number, DescriptionEvent, taken, given,
  StringDescriptor, StringEnv, DeviceDescriptor, DescriptionEnv,
}
use vendor_specific_usbdrive.Input.Description.{new_device_description}
use vendor_specific_usbdrive.Input.Description.Balance.{
  takes, gives, new_device_description-IsBalanced,
}
use vendor_specific_usbdrive.Input.Description.Contents.{value_of, new_device_description-sets}
use vendor_specific_usbdrive.Input.Strings.{copy_string_at_index}
use vendor_specific_usbdrive.Input.Strings.Laws.{copy_string_at_index_lem}
use vendor_specific_usbdrive.Input.Strings.Ends.{HasStrings}
use vendor_specific_usbdrive.Tests.Fixtures.{ready_ivars}

-- The characters are X, U+0158 and a 0 before the end; string 2 has a descriptor of one byte.
abbrev long_string : StringDescriptor
long_string = record { address = 70; b_length = 10; b_string = 88 ∷ 0x158 ∷ 0 ∷ 89 ∷ [] }

abbrev short_string : StringDescriptor
short_string = record { address = 71; b_length = 1; b_string = [] }

abbrev sample_string_env : StringEnv
sample_string_env = record {
  copy_string_descriptor =
      λ log i index language. if index == 2 then some short_string else some long_string;
  os_string_create = λ log text. elim text [ [] ↦ none | c ∷ cs ↦ some c ];
}

copy_string_at_index_lem_example :
    copy_string_at_index sample_string_env ready_ivars 1 0x409 []
    ≡ some (
      some 88,
      given string_descriptor_piece 70
          ∷ taken string_piece 88
          ∷ taken string_descriptor_piece 70
          ∷ [],
    )
copy_string_at_index_lem_example =
    copy_string_at_index_lem sample_string_env ready_ivars 0x409 [] 1 7 long_string
      (λ e. absurd (omega (arith, e))) refl refl (omega arith) (omega arith) (omega arith)

sample-HasStrings : HasStrings sample_string_env
sample-HasStrings = record {
  is_byte = λ log i index language d e. ground arith;
  is_whole = λ log i index language d e. ground arith;
}

abbrev sample_descriptor : DeviceDescriptor
sample_descriptor = record {
  address = 73;
  id_vendor = 0x045e;
  id_product = 0x02ea;
  bcd_device = 0x0301;
  i_manufacturer = 1;
  i_product = 2;
  i_serial_number = 0;
}

abbrev sample_description_env : DescriptionEnv
sample_description_env = record {
  strings = sample_string_env;
  copy_properties = λ log i. some 80;
  copy_device = λ log i. some 81;
  copy_device_descriptor = λ log device. some sample_descriptor;
  dictionary_with_capacity = λ log n. some 82;
  location_value = λ properties. some 83;
  port_type = λ properties. 2;
  port_type_internal = 2;
  usb_to_host16 = λ n. n;
}

-- The manufacturer's string, object 88.
new_device_description-IsBalanced_example :
    (dictionary : Option Ref) × (t : List DescriptionEvent) × (new_device_description
        sample_description_env ready_ivars []
      ≡ some (dictionary, t))
    × (takes string_piece 88 t + 0 ≡ gives string_piece 88 t + 0)
new_device_description-IsBalanced_example =
    new_device_description-IsBalanced sample_description_env sample-HasStrings ready_ivars 7 refl []
      string_piece 88

new_device_description-sets_example :
    (t : List DescriptionEvent) × (new_device_description sample_description_env ready_ivars []
      ≡ some (some 82, t))
    × (value_of 82 vendor_id t ≡ some (number 0x045e))
new_device_description-sets_example =
    new_device_description-sets sample_description_env sample-HasStrings ready_ivars 7 refl 80 81 82
      sample_descriptor (λ log. refl) (λ log. refl) (λ log. refl) (λ log. refl) vendor_id
      (omega arith) []
