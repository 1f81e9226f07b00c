-- ===== src/Input/Startup/Run.antt =====
-- From `handleStart` on: one transfer is always asked for.
use vendor_specific_usbdrive.Base.{◌+◌, ◌<◌, ◌≤◌, ◌≡◌, subst, true, Option, some, List, arith}
use vendor_specific_usbdrive.Kit.{Ref}
use vendor_specific_usbdrive.Input.State.{Ivars, Input, Env}
use vendor_specific_usbdrive.Input.Session.{Signal, run, requests, completions, HasHeaders}
use vendor_specific_usbdrive.Input.Session.Laws.{run-Progress}
use vendor_specific_usbdrive.Input.Session.Ready.{Progress}
use vendor_specific_usbdrive.Input.Startup.{handle_start}
use vendor_specific_usbdrive.Input.Startup.Pipes.{vars, IsDocumented}
use vendor_specific_usbdrive.Input.Startup.Outcome.{IsListening, handle_start-IsListening}

pub same_result :
    {A B : Type 0} {o : Option (A × B)} {a c : A} {b d : B}
    → o ≡ some (a, b)
    → o ≡ some (c, d)
    → (a ≡ c) × (b ≡ d)
same_result h k = (cc, cc)

module _ (env : Env) (doc : IsDocumented env) (s : Input) (v : Ivars) (i : Ref)
    (loaded : s.ivars ≡ some v) (provided : v.interface ≡ some i) where
  pub listens :
      v.out_counter < 256
      → (t : Input) → handle_start env s ≡ some (true, t)
      → 9 ≤ (vars t).out_pipe.memory.length
      → IsListening s t
  listens byte t started fits =
      let (b, t', ran, post) = handle_start-IsListening env doc s v i loaded provided byte in
      let (e, f) = same_result ran started in
      subst (λ x. 9 ≤ (vars x).out_pipe.memory.length → IsListening s x) f (post e) fits

  -- With USBDriverKit's buffers and mappings as documented: if `handleStart`, from stored variables
  -- with a provider and a counter below 256, has returned true with nine bytes in the memory of the
  -- `OUT` pipe, then every sequence of completed transfers of at least a header and of
  -- license calls runs without undefined behaviour to a ready interface, and then just one more
  -- transfer has been asked for, since before `handleStart`, than has been completed.
  pub run-handle_start :
      v.out_counter < 256
      → (t : Input) → handle_start env s ≡ some (true, t)
      → 9 ≤ (vars t).out_pipe.memory.length
      → (xs : List Signal) → HasHeaders xs
      → (u : Input) × (run env xs t ≡ some (tt, u))
        × Progress t u (completions xs)
        × (requests u.log ≡ requests s.log + completions xs + 1)
  run-handle_start byte t started fits xs h =
      let l = listens byte t started fits in
      let (u, ran, p) = run-Progress env xs t l.ready h in
      (u, ran, p, omega (arith, p.gains.requested, l.one_request))
