-- ===== src/Input/Startup/Whole.antt =====
-- From `init` over `Start` to the packets.
use vendor_specific_usbdrive.Base.{
  ◌+◌, ◌≤◌, ◌≡◌, sym, refl, ◌∙◌, true, false, Option, some, List, ◌∷◌, arith, if◌then◌else◌, M,
  pure, ◌>>=◌, >>=-eq-some,
}
use vendor_specific_usbdrive.Kit.{Ref, KernReturn, success, is_success}
use vendor_specific_usbdrive.Input.State.{Ivars, opened, Input, Env}
use vendor_specific_usbdrive.Input.Session.{Signal, run, requests, completions, HasHeaders}
use vendor_specific_usbdrive.Input.Service.{outputs_of}
use vendor_specific_usbdrive.Input.Service.Due.{due, told, run-due}
use vendor_specific_usbdrive.Input.Startup.{zero_ivars, init, start, handle_start}
use vendor_specific_usbdrive.Input.Startup.Pipes.{vars, IsDocumented}
use vendor_specific_usbdrive.Input.Startup.Outcome.{start-branches}
use vendor_specific_usbdrive.Input.Startup.Run.{same_result, listens, run-handle_start}

-- HIDDriverKit, as it is documented: `Start` of `IOUserHIDDevice` calls `handleStart`, and fails if
-- that returns false.
pub record StartsByHandle (env : Env) (super_start : M Input KernReturn) : Type 0 where
  pub failure : KernReturn
  pub fails : is_success failure ≡ false
  pub starts :
      (s : Input)
      → super_start s ≡ (handle_start env >>= λ b. pure (if b then success else failure)) s

abbrev pub new_ivars : Ivars
new_ivars = record zero_ivars { enabled = true }

init-new :
    (env : Env) (s s₁ : Input)
    → init env s ≡ some (true, s₁)
    → (s₁.ivars ≡ some new_ivars) × (requests s₁.log ≡ requests s.log)
unfolding init
init-new env s s₁ e = ground arith

handled-true :
    (env : Env) (super_start : M Input KernReturn)
    → StartsByHandle env super_start
    → (s t : Input) → super_start s ≡ some (success, t)
    → handle_start env s ≡ some (true, t)
handled-true env super_start by s t e =
    let (b, u, ran, rest) =
      >>=-eq-some (handle_start env) (λ b. pure (if b then success else by.failure)) s
        (sym (by.starts s) ∙ e) in
    ground (arith, ran, rest, by.fails)

-- What `Start` leaves to the superclass.
started-by :
    (env : Env) (super_start : M Input KernReturn) (provider : Option Ref) (s t : Input) (v : Ivars)
    (i : Ref)
    → s.ivars ≡ some v
    → env.as_host_interface provider ≡ some i
    → start env super_start provider s ≡ some (success, t)
    → super_start
        (record { ivars = some (record v { interface = some i }); log = opened i ∷ s.log })
      ≡ some (success, t)
started-by env super_start provider s t v i loaded casts e =
    ground (arith, start-branches env super_start provider s v loaded)

-- With USBDriverKit and HIDDriverKit as documented: if `init`, and then `Start` with a provider that
-- is a USB interface, have returned success, and the memory of the `OUT` pipe has nine bytes, then
-- every sequence of completed transfers of at least a header and of license calls runs without
-- undefined behaviour. It reports just the packets that are due, where the interface is enabled
-- from the start; and one more transfer has been asked for, since before `init`, than is completed.
pub run-start-init :
    (env : Env) (super_start : M Input KernReturn)
    → IsDocumented env
    → StartsByHandle env super_start
    → (provider : Option Ref) (i : Ref) → env.as_host_interface provider ≡ some i
    → (s s₁ t : Input) → init env s ≡ some (true, s₁)
    → start env super_start provider s₁ ≡ some (success, t)
    → 9 ≤ (vars t).out_pipe.memory.length
    → (xs : List Signal) → HasHeaders xs
    → (u : Input) × (run env xs t ≡ some (tt, u))
      × (told (outputs_of u.log) ≡ due true xs (told (outputs_of t.log)))
      × (requests u.log ≡ requests s.log + completions xs + 1)
run-start-init env super_start doc by provider i casts s s₁ t inited started fits xs h =
    let (fresh, same) = init-new env s s₁ inited in
    let v : Ivars = record new_ivars { interface = some i } in
    let s₂ : Input = record { ivars = some v; log = opened i ∷ s₁.log } in
    let handled =
      handled-true env super_start by s₂ t
        (started-by env super_start provider s₁ t new_ivars i fresh casts started) in
    let l = listens env doc s₂ v i refl refl (omega arith) t handled fits in
    let (u, ran, progress, asked) =
      run-handle_start env doc s₂ v i refl refl (omega arith) t handled fits xs h in
    let (w, ran', all) = run-due env xs t l.ready h in
    let (_, same_end) = same_result ran' ran in
    (u, ran, rw (same_end, l.same_flag) at all, omega (arith, asked, same))
