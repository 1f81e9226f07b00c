-- ===== src/Input/Startup/Owned/Service.antt =====
-- The time between `handleStart` and `free`: transfers and license calls take and give back nothing
-- of this.
use vendor_specific_usbdrive.Base.{
  ℕ, ◌+◌, ◌<◌, ◌≤◌, ◌≡◌, true, false, Option, none, some, List, [], ◌∷◌, arith, M, ◌>>=◌, not,
  if◌then◌else◌, pure, deref, Option-cases, inl, inr, Allows, Allows-bind, Allows-some,
  Ensures-some,
}
use vendor_specific_usbdrive.Kit.{Ref, KernReturn, is_success}
use vendor_specific_usbdrive.Packets.{guide_response_size, guide_response_bytes}
use vendor_specific_usbdrive.Input.State.{Ivars, Resource, Input, Env, load_ivars}
use vendor_specific_usbdrive.Input.Receive.{
  guide_response, handle_report_generic, handle_controller_report, handle_guide_report,
  dispatch_report, got_data, set_enable,
}
use vendor_specific_usbdrive.Input.Session.{
  Signal, completed, licensed, arrive, step, run, HasHeaders,
}
use vendor_specific_usbdrive.Input.Shutdown.{free}
use vendor_specific_usbdrive.Input.Startup.{handle_start}
use vendor_specific_usbdrive.Input.Startup.Pipes.{vars, IsDocumented}
use vendor_specific_usbdrive.Input.Startup.Run.{run-handle_start}
use vendor_specific_usbdrive.Input.Startup.Owned.{
  is_settled, takes, gives, LeavesPointers, IsOwned, IsSame, keeping, send_interrupt_data-Keeps,
  request_async_interrupt_data-Keeps,
}
use vendor_specific_usbdrive.Input.Startup.Owned.Release.{IsEmpty, started-IsOwned, free-Balanced}

IsSame-trans :
    (k : Resource) (x : Ref) (s t u : Input) → IsSame k x s t → IsSame k x t u → IsSame k x s u
IsSame-trans k x s t u a b = ground arith

module _ (env : Env) (k : Resource) (x : Ref) where
  abbrev Same : {A : Type 0} → Input → A → Input → Type 0
  Same s _ = IsSame k x s

  moved :
      {A : Type 0} (o : Option (A × Input)) (s t : Input)
      → IsSame k x s t
      → Allows (Same t) o
      → Allows (Same s) o
  moved none s t p h = tt
  moved (some (a, u)) s t p h = IsSame-trans k x s t u p h

  following :
      {A B : Type 0} (m : M Input A) (f : A → M Input B) (s : Input)
      → Allows (Same s) (m s)
      → ((a : A) (t : Input) → Allows (Same t) (f a t))
      → Allows (Same s) ((m >>= f) s)
  following m f s h go = Allows-bind (Same s) (Same s) m f s h λ a t p. moved (f a t) s t p (go a t)

  handle_report_generic-Keeps :
      (bytes : List ℕ) (count time code size : ℕ) (s : Input)
      → Allows (Same s) (handle_report_generic env bytes count time code size s)
  unfolding handle_report_generic
  handle_report_generic-Keeps bytes count time code size s = ground arith

  handle_guide_report-Keeps :
      (bytes : List ℕ) (count time : ℕ) (s : Input)
      → Allows (Same s) (handle_guide_report env bytes count time s)
  unfolding handle_guide_report
  handle_guide_report-Keeps bytes count time s =
      following (handle_report_generic env bytes count time 0x07 2) _ s
        (handle_report_generic-Keeps bytes count time 0x07 2 s)
        λ result t. ground (
          arith,
          send_interrupt_data-Keeps env k x (guide_response_bytes guide_response)
              guide_response_size t,
        )

  dispatch_report-Keeps :
      (bytes : List ℕ) (count time : ℕ) (s : Input)
      → Allows (Same s) (dispatch_report env bytes count time s)
  unfolding dispatch_report handle_controller_report
  dispatch_report-Keeps bytes count time s =
      following (handle_controller_report env bytes count time) _ s
        (handle_report_generic-Keeps bytes count time 0x20 14 s)
        λ handled t. ground (arith, handle_guide_report-Keeps bytes count time t)

  -- All but the last request.
  abbrev handling : KernReturn → ℕ → ℕ → M Input (Unit {0})
  handling status count time = if not (is_success status) then pure tt else do
    v ← load_ivars
    if not v.enabled
        then pure tt
        else do bytes ← deref v.in_pipe.memory.address; dispatch_report env bytes count time

  handling-Keeps :
      (status : KernReturn) (count time : ℕ) (s : Input)
      → Allows (Same s) (handling status count time s)
  handling-Keeps status count time s = elim (Option-cases s.ivars) [
    | inl e ↦ ground (arith, e)
    | inr (v, e) ↦ elim (Option-cases v.in_pipe.memory.address) [
      | inl e' ↦ ground (arith, e, e')
      | inr (bytes, e') ↦ ground (arith, e, e', dispatch_report-Keeps bytes count time s)
    ]
  ]

  got_data-Keeps :
      (status : KernReturn) (count time : ℕ) (s : Input)
      → Allows (Same s) (got_data env status count time s)
  unfolding got_data
  got_data-Keeps status count time s =
      following (handling status count time) _ s (handling-Keeps status count time s)
        λ _ t. ground (arith, request_async_interrupt_data-Keeps env k x t)

  step-Keeps : (y : Signal) (s : Input) → Allows (Same s) (step env y s)
  unfolding step arrive set_enable
  step-Keeps (completed status count time bytes) s =
      moved (got_data env status count time (arrive bytes s)) s (arrive bytes s) (ground arith)
        (got_data-Keeps status count time (arrive bytes s))
  step-Keeps (licensed on) s = ground arith

  run-Keeps : (xs : List Signal) (s : Input) → Allows (Same s) (run env xs s)
  unfolding run
  run-Keeps [] s = ground arith
  run-Keeps (y ∷ xs) s =
      following (step env y) (λ _. run env xs) s (step-Keeps y s) λ _ t. run-Keeps xs t

module _ (env : Env) (doc : IsDocumented env) (lp : LeavesPointers env) (s : Input) (v : Ivars)
    (i : Ref) (loaded : s.ivars ≡ some v) (provided : v.interface ≡ some i) (empty : IsEmpty v)
    (k : Resource) (x : Ref) (settled : is_settled k ≡ true) where
  run-IsOwned :
      (t : Input)
      → handle_start env s ≡ some (true, t)
      → (xs : List Signal) (u : Input) → run env xs t ≡ some (tt, u)
      → IsOwned k x (takes k x s.log) (gives k x s.log) 0 false false false false u
  run-IsOwned t started xs u ran =
      Allows-some (λ _. IsOwned k x (takes k x s.log) (gives k x s.log) 0 false false false false)
        (run env xs t) ran
        (keeping k x (takes k x s.log) (gives k x s.log) 0 false false false false (run env xs t) t
          (run-Keeps env k x xs t)
          (started-IsOwned env doc lp s v i loaded provided empty k x settled true t started))

  -- With USBDriverKit's and DriverKit's calls as documented, from stored variables with a provider,
  -- a counter below 256 and nothing else: if `handleStart` has returned true with nine bytes in the
  -- memory of the `OUT` pipe, then every sequence of completed transfers of at least a header and of
  -- license calls, and a `free` after it, run without undefined behaviour, and from `handleStart`
  -- to `free` each configuration descriptor, buffer, action and dictionary of properties has been
  -- given back as often as it has been taken.
  pub free-run-Balanced :
      v.out_counter < 256
      → (t : Input) → handle_start env s ≡ some (true, t)
      → 9 ≤ (vars t).out_pipe.memory.length
      → (xs : List Signal) → HasHeaders xs
      → (u : Input) × (w : Input) × (run env xs t ≡ some (tt, u))
        × (free u ≡ some (tt, w))
        × (takes k x w.log + gives k x s.log ≡ gives k x w.log + takes k x s.log)
  free-run-Balanced byte t started fits xs h =
      let (u, ran, _, _) =
        run-handle_start env doc s v i loaded provided byte t started fits xs h in
      let owned = run-IsOwned t started xs u ran in
      let (_, w, freed, balanced) =
        Ensures-some _ _
          (free-Balanced k x settled (takes k x s.log) (gives k x s.log) u.ivars u.log owned) in
      (u, w, ran, freed, balanced)
