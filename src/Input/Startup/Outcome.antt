-- ===== src/Input/Startup/Outcome.antt =====
-- What `Start` and `handleStart` come to, and what `free` gives back after them.
use vendor_specific_usbdrive.Base.{
  ℕ, ◌+◌, ◌%◌, ◌≡◌, ◌≤◌, ◌<◌, refl, Bool, true, false, Option, none, some, ◌∷◌, arith, is_some,
  if◌then◌else◌, M, Ensures, Ensures-some, Option-cases, inl, inr, ◌∙◌,
}
use vendor_specific_usbdrive.Kit.{Ref, KernReturn, success, is_success}
use vendor_specific_usbdrive.Input.State.{Ivars, opened, Input, Env}
use vendor_specific_usbdrive.Input.Session.{
  requests, transmits, holds, drops, counter_of, enabled_of,
}
use vendor_specific_usbdrive.Input.Session.Ready.{IsReady}
use vendor_specific_usbdrive.Input.Startup.{start, handle_start}
use vendor_specific_usbdrive.Input.Shutdown.{free}
use vendor_specific_usbdrive.Input.Startup.Pipes.{vars, IsDocumented}
use vendor_specific_usbdrive.Input.Startup.Ready.{
  IsStarted, Begun, started-HasOut, handle_start-Begun,
}

start-IsReady :
    (i : Ref) (c : ℕ) (e : Bool) (n m h room : ℕ) (t : Input)
    → IsStarted i c e n m h room t
    → 9 ≤ room
    → c < 256
    → IsReady t
start-IsReady i c e n m h room t st fits byte = elim (Option-cases (vars t).in_pipe.pipe) [
  | inl gone ↦ absurd (ground (arith, gone))
  | inr (in_ref, piped) ↦
      let (out_ref, memory, out) = started-HasOut i c e n m h room t st in
      record {
        v = vars t;
        in_ref = in_ref;
        out_ref = out_ref;
        out_bytes = memory;
        has_out = out;
        in_piped = piped;
        out_room = omega (arith, out.measured, st.roomy);
        byte = omega (arith, st.kept.counter);
      }
]

-- How `handleStart` leaves the interface when it has returned true and the memory of the `OUT`
-- pipe has room for an answer.
pub record IsListening (s t : Input) : Type 0 where
  pub ready : IsReady t
  pub one_request : requests t.log ≡ requests s.log + 1
  pub two_packets : transmits t.log ≡ transmits s.log + 2
  pub counted : counter_of t ≡ (counter_of s + 2) % 256
  pub same_flag : enabled_of t ≡ enabled_of s
  pub retained : holds t.log ≡ holds s.log + 1

module _ (env : Env) (doc : IsDocumented env) (s : Input) (v : Ivars) (i : Ref)
    (loaded : s.ivars ≡ some v) (provided : v.interface ≡ some i) where
  handle_start-ends :
      Ensures
        (Begun env i v.out_counter v.enabled (requests s.log) (transmits s.log) (holds s.log))
        (handle_start env s)
  handle_start-ends =
      handle_start-Begun env i v.out_counter v.enabled (requests s.log) (transmits s.log)
        (holds s.log) doc s (ground (arith, loaded, provided))

  listening :
      (b : Bool) (t : Input)
      → b ≡ true
      → v.out_counter < 256
      → Begun env i v.out_counter v.enabled (requests s.log) (transmits s.log) (holds s.log) b t
      → 9 ≤ (vars t).out_pipe.memory.length
      → IsListening s t
  listening b t e byte q fits = record {
    ready = start-IsReady i _ v.enabled _ _ _ _ t (q.2 e) fits (ground arith);
    one_request = ground (arith, q.2 e);
    two_packets = ground (arith, q.2 e);
    counted = ground (arith, q.2 e, loaded);
    same_flag = ground (arith, q.2 e, loaded);
    retained = ground (arith, q.2 e);
  }

  -- With USBDriverKit's buffers and mappings as documented, from stored variables with a provider
  -- and a counter below 256: `handleStart` ends without undefined behaviour, for every list of
  -- endpoints and every answer of the frameworks. If it returns true and the memory of the `OUT`
  -- pipe has nine bytes, then the interface is ready for packets, with one request for a transfer
  -- out, the two starting packets sent, the counter two further, and the provider retained once.
  pub handle_start-IsListening :
      v.out_counter < 256
      → (b : Bool) × (t : Input) × (handle_start env s ≡ some (b, t))
        × (b ≡ true → 9 ≤ (vars t).out_pipe.memory.length → IsListening s t)
  handle_start-IsListening byte =
      let (b, t, ran, q) = Ensures-some _ _ handle_start-ends in
      (b, t, ran, λ e fits. listening b t e byte q fits)

-- `free` on an interface with a provider.
abbrev Freed : Input → Unit {0} → Input → Type 0
Freed t _ u = (drops u.log ≡ drops t.log + 1) × (holds u.log ≡ holds t.log) × (u.ivars ≡ none)

free-Freed :
    (t : Input)
    → is_some t.ivars ≡ true
    → is_some (vars t).interface ≡ true
    → Ensures (Freed t) (free t)
unfolding free
free-Freed t live provided = ground arith

held_after :
    (env : Env) (i : Ref) (c : ℕ) (e : Bool) (n m h : ℕ) (b : Bool) (t : Input)
    → Begun env i c e n m h b t
    → holds t.log ≡ h + (if b then 1 else 0)
held_after env i c e n m h false t q = ground (arith, q.1 refl)
held_after env i c e n m h true t q = ground (arith, q.2 refl)

module _ (env : Env) (doc : IsDocumented env) (s : Input) (v : Ivars) (i : Ref)
    (loaded : s.ivars ≡ some v) (provided : v.interface ≡ some i) where
  -- With USBDriverKit's buffers and mappings as documented, from stored variables with a provider:
  -- `handleStart` and a `free` after it end without undefined behaviour, and `free` after
  -- `handleStart` gives one reference to the provider back, whatever `handleStart` has returned.
  -- But `handleStart` takes one only if it returns true; if it returns false, the reference that
  -- `free` gives back was never taken.
  pub free-handle_start :
      (b : Bool) × (t : Input) × (u : Input) × (handle_start env s ≡ some (b, t))
      × (free t ≡ some (tt, u))
      × (drops u.log ≡ drops t.log + 1)
      × (holds u.log ≡ holds s.log + (if b then 1 else 0))
  free-handle_start =
      let (b, t, ran, q) = Ensures-some _ _ (handle_start-ends env doc s v i loaded provided) in
      let (_, u, freed, f) =
        Ensures-some _ _ (free-Freed t (ground (arith, q.0)) (ground (arith, q.0))) in
      (b, t, u, ran, freed, f.0, f.1 ∙ held_after env i _ _ _ _ _ b t q)

-- `Start`, on every path. A provider that is no USB interface makes it return success, with
-- nothing opened and the superclass not started. If the provider does not open, the code of the
-- failure is returned and the superclass is not started. Else the superclass' `Start` runs, on an
-- interface that has the provider, and its code is returned.
pub start-branches :
    (env : Env) (super_start : M Input KernReturn) (provider : Option Ref) (s : Input) (v : Ivars)
    → s.ivars ≡ some v
    → start env super_start provider s ≡ elim (env.as_host_interface provider) [
      | none ↦ some (success, record s { ivars = some (record v { interface = none }) })
      | some i ↦
          let t = record s {
            ivars = some (record v { interface = some i });
            log = opened i ∷ s.log;
          } in
          if is_success (env.open_interface s.log i)
          then super_start t
          else some (env.open_interface s.log i, t)
    ]
unfolding start
start-branches env super_start provider s v loaded = ground arith
