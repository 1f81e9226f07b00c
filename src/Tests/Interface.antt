-- ===== src/Tests/Interface.antt =====
-- An interface of number 0 that the superclass accepts.
use vendor_specific_usbdrive.Base.{◌+◌, ◌≡◌, refl, Bool, true, none, some, []}
use vendor_specific_usbdrive.Kit.{success}
use vendor_specific_usbdrive.Interface.{CoreIvars, Core, CoreEnv, handle_start}
use vendor_specific_usbdrive.Interface.Laws.{copies, frees, IsSupported, handle_start-IsSupported}

abbrev sample_core_env : CoreEnv
sample_core_env = record {
  super_init_result = λ log. true;
  allocates = λ log. true;
  super_start_result = λ log. success;
  super_handle_start_result = λ log. true;
  super_stop_result = λ log. success;
  as_host_interface = λ provider. provider;
  copy_configuration_descriptor = λ log i. some 20;
  get_interface_descriptor = λ i c. some 21;
  interface_number = λ d. 0;
}

abbrev fresh_core_ivars : CoreIvars
fresh_core_ivars = record { interface_type = 0; interface = none }

abbrev fresh_core : Core
fresh_core = record { ivars = some fresh_core_ivars; log = [] }

handle_start-IsSupported_example :
    (b : Bool) × (t : Core) × (handle_start sample_core_env (some 7) fresh_core ≡ some (b, t))
    × (copies t.log + 0 ≡ frees t.log + 0)
    × (t.ivars ≡ some (record fresh_core_ivars { interface = some 7 }))
    × (b ≡ true → IsSupported sample_core_env (some 7) [])
handle_start-IsSupported_example =
    handle_start-IsSupported sample_core_env (some 7) fresh_core fresh_core_ivars refl
