-- ===== src/Input/Startup/Unmatched.antt =====
-- The life of an interface whose provider is no USB interface.
use vendor_specific_usbdrive.Base.{◌≡◌, Bool, true, List, Option, none, some, ◌∷◌, arith, M, refl}
use vendor_specific_usbdrive.Kit.{Ref, KernReturn, success}
use vendor_specific_usbdrive.Input.State.{
  Ivars, Event, Input, Env, called, super_init, super_stop, super_free,
}
use vendor_specific_usbdrive.Input.Receive.{set_enable}
use vendor_specific_usbdrive.Input.Startup.{zero_ivars, init, start}
use vendor_specific_usbdrive.Input.Shutdown.{stop, free}

-- Without an interface, and enabled or not.
abbrev idle_ivars : Bool → Ivars
idle_ivars on = record zero_ivars { enabled = on }

abbrev idle_input : Bool → List Event → Input
idle_input on log = record { ivars = some (idle_ivars on); log = log }

init-idle_input :
    (env : Env) (s t : Input)
    → init env s ≡ some (true, t)
    → t ≡ idle_input true (called super_init ∷ s.log)
unfolding init
init-idle_input env s t e = ground arith

-- If `init` has succeeded and the provider is no USB interface, then `Start` returns success all
-- the same. A license call, `Stop` and `free` after it run without undefined behaviour, `Stop` with
-- the superclass' code, and in the whole life of the interface nothing is opened, taken, given back,
-- sent or asked for, and the superclass is initialised, stopped and freed, but never started.
pub free-start-init :
    (env : Env) (super_start : M Input KernReturn) (provider : Option Ref) (this from : Ref)
    (on : Bool) (s t : Input)
    → init env s ≡ some (true, t)
    → env.as_host_interface provider ≡ none
    → (u : Input) × (w : Input) × (x : Input) × (start env super_start provider t
        ≡ some (success, u))
      × (stop env this from (set_enable on u) ≡ some (env.super_stop u.log, w))
      × (free w ≡ some (tt, x))
      × (x.log ≡ called super_free ∷ called super_stop ∷ called super_init ∷ s.log)
unfolding start set_enable stop free
free-start-init env super_start provider this from on s t e f =
    let log = called super_init ∷ s.log in
    let fresh = init-idle_input env s t e in
    (
      idle_input true log,
      idle_input on (called super_stop ∷ log),
      record { ivars = none; log = called super_free ∷ called super_stop ∷ log },
      ground (arith, fresh, f),
      refl,
      refl,
      refl,
    )
