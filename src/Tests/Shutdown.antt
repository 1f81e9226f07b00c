-- ===== src/Tests/Shutdown.antt =====
-- `Stop` of an interface that is set up.
use vendor_specific_usbdrive.Base.{◌≡◌, refl, some, [], ◌∷◌}
use vendor_specific_usbdrive.Kit.{success}
use vendor_specific_usbdrive.Input.State.{
  Input, acquire, release, called, cancelled, super_stop, self, provider,
}
use vendor_specific_usbdrive.Input.Shutdown.{stop, finalize}
use vendor_specific_usbdrive.Input.Shutdown.Laws.{finalize-stop}
use vendor_specific_usbdrive.Tests.Fixtures.{sample_env, ready_ivars, ready_input}

finalize-stop_example :
    (t : Input) × (u : Input) × (stop sample_env 3 7 ready_input ≡ some (success, t))
    × (finalize sample_env 3 7 t ≡ some (tt, u))
    × (u ≡ record ready_input {
      log =
          release provider 7
          ∷ release self 3
          ∷ called super_stop
          ∷ cancelled 60
          ∷ acquire provider 7
          ∷ acquire self 3
          ∷ [];
    })
finalize-stop_example = finalize-stop sample_env 3 7 60 ready_input ready_ivars refl refl
