-- ===== src/Tests/Device.antt =====
-- The device driver, on a device with one configuration.
use vendor_specific_usbdrive.Base.{◌≡◌, refl, true, none, some, [], ◌∷◌, arith}
use vendor_specific_usbdrive.Kit.{KernReturn, success, error}
use vendor_specific_usbdrive.Device.{
  Device, DeviceEnv, device_descriptor, configuration_descriptor, copied, freed, opened, configured,
  registered, super_started, start,
}
use vendor_specific_usbdrive.Device.Laws.{IsBalanced, start-IsBalanced, start-registers}

abbrev sample_device_env : DeviceEnv
sample_device_env = record {
  super_init = λ log. true;
  allocates = λ log. true;
  as_host_device = λ provider. provider;
  copy_device_descriptor = λ log device. some 11;
  num_configurations = λ d. 1;
  open_device = λ log device. success;
  copy_configuration_descriptor = λ log device n. some 12;
  set_configuration = λ log device n matching. success;
  super_start = λ log. success;
  register_service = λ log. success;
  super_stop = λ log. success;
}

abbrev fresh_device : Device
fresh_device = record { allocated = true; log = [] }

-- The configuration is not accepted.
abbrev strict_env : DeviceEnv
strict_env = record sample_device_env { set_configuration = λ log device n matching. error }

start-IsBalanced_example :
    (ret : KernReturn) × (t : Device) × (start strict_env (some 9) fresh_device ≡ some (ret, t))
    × IsBalanced fresh_device t
start-IsBalanced_example = start-IsBalanced strict_env (some 9) fresh_device

start-registers_example :
    start sample_device_env (some 9) fresh_device
    ≡ some (
      success,
      record fresh_device {
        log =
            freed configuration_descriptor 12
            ∷ freed device_descriptor 11
            ∷ registered
            ∷ super_started
            ∷ configured 9 1 true
            ∷ copied configuration_descriptor 12
            ∷ opened 9
            ∷ copied device_descriptor 11
            ∷ [];
      },
    )
start-registers_example =
    start-registers sample_device_env (some 9) fresh_device 9 refl 11 12 refl (omega arith)
      (λ log. refl) (λ log. refl) (λ log. refl) (λ log. refl) (λ log. refl)

-- A device without configuration 1.
abbrev bare_device_env : DeviceEnv
bare_device_env = record sample_device_env { copy_configuration_descriptor = λ log device n. none }

-- It stays open, with a success.
abbrev opened_device : Device
opened_device = record {
  allocated = true;
  log = freed device_descriptor 11 ∷ opened 9 ∷ copied device_descriptor 11 ∷ [];
}
