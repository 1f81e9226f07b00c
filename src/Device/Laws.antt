-- ===== src/Device/Laws.antt =====
-- What `Start` of the device driver does, on every path.
use vendor_specific_usbdrive.Base.{
  ℕ, suc, ◌+◌, ◌<◌, ◌≡◌, true, Option, some, List, [], ◌∷◌, arith, Ensures, Ensures-some,
}
use vendor_specific_usbdrive.Kit.{Ref, KernReturn, success, is_success}
use vendor_specific_usbdrive.Device.{
  Device, DeviceEnv, DeviceEvent, Descriptor, device_descriptor, configuration_descriptor, copied,
  freed, opened, configured, registered, super_started, start,
}

-- How many descriptors have been copied and freed.
abbrev pub copies : Descriptor → List DeviceEvent → ℕ
copies d [] = 0
copies device_descriptor (copied device_descriptor _ ∷ es) = suc (copies device_descriptor es)
copies configuration_descriptor (copied configuration_descriptor _ ∷ es) =
    suc (copies configuration_descriptor es)
copies d (_ ∷ es) = copies d es

abbrev pub frees : Descriptor → List DeviceEvent → ℕ
frees d [] = 0
frees device_descriptor (freed device_descriptor _ ∷ es) = suc (frees device_descriptor es)
frees configuration_descriptor (freed configuration_descriptor _ ∷ es) =
    suc (frees configuration_descriptor es)
frees d (_ ∷ es) = frees d es

-- For each kind of descriptor, as many are freed as are copied.
abbrev pub IsBalanced : Device → Device → Type 0
IsBalanced s t =
    (copies device_descriptor t.log + frees device_descriptor s.log
      ≡ frees device_descriptor t.log + copies device_descriptor s.log)
    × (copies configuration_descriptor t.log + frees configuration_descriptor s.log
        ≡ frees configuration_descriptor t.log + copies configuration_descriptor s.log)

balanced :
    (env : DeviceEnv) (provider : Option Ref) (s : Device)
    → Ensures (λ _. IsBalanced s) (start env provider s)
unfolding start
balanced env provider s = ground arith

-- `Start` ends without undefined behaviour for every provider and every answer of the frameworks,
-- and has then freed as many descriptors as it has copied, of both kinds.
pub start-IsBalanced :
    (env : DeviceEnv) (provider : Option Ref) (s : Device)
    → (ret : KernReturn) × (t : Device) × (start env provider s ≡ some (ret, t)) × IsBalanced s t
start-IsBalanced env provider s = Ensures-some _ _ (balanced env provider s)

module _ (env : DeviceEnv) (provider : Option Ref) (s : Device) (device : Ref)
    (casts : env.as_host_device provider ≡ some device) where
  -- If every call succeeds, `Start` returns success, and has done these things in this order: it
  -- has copied the device descriptor, opened the device, copied the descriptor of configuration 1,
  -- set configuration 1 with matching of its interfaces, started the superclass, registered the
  -- service, and freed both descriptors.
  pub start-registers :
      (d c : Ref)
      → env.copy_device_descriptor s.log device ≡ some d
      → 0 < env.num_configurations d
      → ((log : List DeviceEvent) → is_success (env.open_device log device) ≡ true)
      → ((log : List DeviceEvent) → env.copy_configuration_descriptor log device 1 ≡ some c)
      → ((log : List DeviceEvent) → is_success (env.set_configuration log device 1 true) ≡ true)
      → ((log : List DeviceEvent) → is_success (env.super_start log) ≡ true)
      → ((log : List DeviceEvent) → is_success (env.register_service log) ≡ true)
      → start env provider s
        ≡ some (
          success,
          record s {
            log =
                freed configuration_descriptor c
                ∷ freed device_descriptor d
                ∷ registered
                ∷ super_started
                ∷ configured device 1 true
                ∷ copied configuration_descriptor c
                ∷ opened device
                ∷ copied device_descriptor d
                ∷ s.log;
          },
        )
  unfolding start
  start-registers d c e f opens gets sets starts registers =
      let l₁ = opened device ∷ copied device_descriptor d ∷ s.log in
      let l₂ = configured device 1 true ∷ copied configuration_descriptor c ∷ l₁ in
      ground (
        arith,
        opens (copied device_descriptor d ∷ s.log),
        gets l₁,
        sets (copied configuration_descriptor c ∷ l₁),
        starts l₂,
        registers (super_started ∷ l₂),
      )
