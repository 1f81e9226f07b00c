-- ===== src/Device/Success.antt =====
-- What a success of `Start` of the device driver means.
use vendor_specific_usbdrive.Base.{ℕ, suc, ◌+◌, ◌≤◌, ◌≡◌, List, [], ◌∷◌, ◌==◌, ◌&&◌, if◌then◌else◌}
use vendor_specific_usbdrive.Device.{
  Device, DeviceEvent, configuration_descriptor, opened, configured, registered, super_started,
}
use vendor_specific_usbdrive.Device.Laws.{copies}

-- How often the device has been opened, configured as the driver wants it, and so on.
abbrev pub opens : List DeviceEvent → ℕ
opens [] = 0
opens (opened _ ∷ es) = suc (opens es)
opens (_ ∷ es) = opens es

abbrev pub configures : List DeviceEvent → ℕ
configures [] = 0
configures (configured _ n matching ∷ es) = (if (n == 1) && matching then 1 else 0) + configures es
configures (_ ∷ es) = configures es

abbrev pub starts : List DeviceEvent → ℕ
starts [] = 0
starts (super_started ∷ es) = suc (starts es)
starts (_ ∷ es) = starts es

abbrev pub registers : List DeviceEvent → ℕ
registers [] = 0
registers (registered ∷ es) = suc (registers es)
registers (_ ∷ es) = registers es

-- From `s` to `t`, the device is activated as often as its configuration descriptor is copied.
pub record IsWhole (s t : Device) : Type 0 where
  pub once : copies configuration_descriptor t.log ≤ copies configuration_descriptor s.log + 1
  pub opening :
      opens s.log + copies configuration_descriptor t.log
      ≤ opens t.log + copies configuration_descriptor s.log
  pub configuration :
      configures t.log + copies configuration_descriptor s.log
      ≡ configures s.log + copies configuration_descriptor t.log
  pub superclass :
      starts t.log + copies configuration_descriptor s.log
      ≡ starts s.log + copies configuration_descriptor t.log
  pub service :
      registers t.log + copies configuration_descriptor s.log
      ≡ registers s.log + copies configuration_descriptor t.log
