-- ===== src/Input/Shutdown/Laws.antt =====
-- `Stop` and its block.
use vendor_specific_usbdrive.Base.{◌≡◌, refl, some, ◌∷◌, arith}
use vendor_specific_usbdrive.Kit.{Ref, success}
use vendor_specific_usbdrive.Input.State.{
  Ivars, acquire, release, called, cancelled, super_stop, self, provider, Input, Env,
}
use vendor_specific_usbdrive.Input.Shutdown.{stop, finalize}

-- `Stop` of an interface that has an action returns success, and its block, when the cancellation
-- is complete, runs without undefined behaviour. From first to last, the driver and the provider
-- are retained, the action is cancelled, the superclass is stopped, and the driver and the provider
-- are released; each is done once, in this order, and the stored variables are as before.
pub finalize-stop :
    (env : Env) (this from a : Ref) (s : Input) (v : Ivars)
    → s.ivars ≡ some v
    → v.got_data_action ≡ some a
    → (t : Input) × (u : Input) × (stop env this from s ≡ some (success, t))
      × (finalize env this from t ≡ some (tt, u))
      × (u ≡ record s {
        log =
            release provider from
            ∷ release self this
            ∷ called super_stop
            ∷ cancelled a
            ∷ acquire provider from
            ∷ acquire self this
            ∷ s.log;
      })
unfolding stop finalize
finalize-stop env this from a s v loaded active =
    let t = record s { log = cancelled a ∷ acquire provider from ∷ acquire self this ∷ s.log } in
    (
      t,
      record s { log = release provider from ∷ release self this ∷ called super_stop ∷ t.log },
      ground arith,
      ground arith,
      refl,
    )
