-- ===== src/Input/Startup/Owned/Release.antt =====
-- `free` gives back what is stored.
use vendor_specific_usbdrive.Base.{
  ℕ, ◌+◌, ◌≡◌, Bool, true, false, Option, none, some, List, ◌∷◌, arith, M, ◌>>◌, Ensures,
  Ensures-bind, Allows-some,
}
use vendor_specific_usbdrive.Kit.{Ref}
use vendor_specific_usbdrive.Input.State.{
  Ivars, Resource, usb_interface, configuration, in_endpoint, out_endpoint, in_buffer, out_buffer,
  action, Event, release, Input, Env, emit_some,
}
use vendor_specific_usbdrive.Input.Startup.{handle_start}
use vendor_specific_usbdrive.Input.Shutdown.{release_ivars, free}
use vendor_specific_usbdrive.Input.Startup.Pipes.{IsDocumented}
use vendor_specific_usbdrive.Input.Startup.Outcome.{free-handle_start}
use vendor_specific_usbdrive.Input.Startup.Owned.{
  is_settled, takes, gives, LeavesPointers, held, holding, IsOwned, hit_interface, hit_in_endpoint,
  hit_out_endpoint, held_zero,
}
use vendor_specific_usbdrive.Input.Startup.Owned.Begin.{handle_start-Owned, Settled}

-- What `free` gives back.
given_back : Resource → Ref → Ivars → ℕ
given_back k x v =
    held k x usb_interface v.interface
    + (held k x action v.got_data_action
        + (held k x out_buffer v.out_pipe.memory.buffer
            + (held k x out_endpoint v.out_pipe.pipe
                + (held k x in_buffer v.in_pipe.memory.buffer
                    + (held k x in_endpoint v.in_pipe.pipe
                        + (held k x configuration v.configuration_descriptor + 0))))))

module _ (k : Resource) (x : Ref) (s : Input) where
  record IsFreeing (n : ℕ) (t : Input) : Type 0 where
    same_takes : takes k x t.log ≡ takes k x s.log
    more_gives : gives k x t.log ≡ n + gives k x s.log

  releasing :
      {S : Type 0} (Q : S → Input → Type 0) (q : Resource) (p : Option Ref) (rest : M Input S)
      (n : ℕ) (t : Input)
      → IsFreeing n t
      → ((u : Input) → IsFreeing (held k x q p + n) u → Ensures Q (rest u))
      → Ensures Q ((emit_some (release q) p >> rest) t)
  releasing Q q none rest n t f go = go t (ground (arith, f))
  releasing Q q (some r) rest n t f go =
      go (record t { log = release q r ∷ t.log }) (ground (arith, f))

  releasing_last :
      (q : Resource) (p : Option Ref) (n : ℕ) (t : Input)
      → IsFreeing n t
      → Ensures (λ _. IsFreeing (held k x q p + n)) (emit_some (release q) p t)
  releasing_last q none n t f = ground (arith, f)
  releasing_last q (some r) n t f = ground (arith, f)

  release_ivars-IsFreeing :
      (v : Ivars) → Ensures (λ _. IsFreeing (given_back k x v)) (release_ivars v s)
  unfolding given_back
  release_ivars-IsFreeing v =
      let Q = λ (_ : Unit {0}). IsFreeing (given_back k x v) in
      releasing Q configuration v.configuration_descriptor _ 0 s (ground arith) λ t f.
        releasing Q in_endpoint v.in_pipe.pipe _ _ t f λ t f.
          releasing Q in_buffer v.in_pipe.memory.buffer _ _ t f λ t f.
            releasing Q out_endpoint v.out_pipe.pipe _ _ t f λ t f.
              releasing Q out_buffer v.out_pipe.memory.buffer _ _ t f λ t f.
                releasing Q action v.got_data_action _ _ t f
                  λ t f. releasing_last usb_interface v.interface _ t f

given_back-holding :
    (k : Resource) (x : Ref) (settled : is_settled k ≡ true) (v : Ivars)
    → given_back k x v ≡ holding k x v
unfolding given_back
given_back-holding k x settled v = omega (
  arith,
  held_zero k x usb_interface (hit_interface k x settled) v.interface,
  held_zero k x in_endpoint (hit_in_endpoint k x settled) v.in_pipe.pipe,
  held_zero k x out_endpoint (hit_out_endpoint k x settled) v.out_pipe.pipe,
)

module _ (k : Resource) (x : Ref) (settled : is_settled k ≡ true) (taken given : ℕ) where
  abbrev pub Balanced : Input → Type 0
  Balanced u = takes k x u.log + given ≡ gives k x u.log + taken

  pub free-Balanced :
      (o : Option Ivars) (log : List Event)
      → IsOwned k x taken given 0 false false false false (record { ivars = o; log = log })
      → Ensures (λ _. Balanced) (free (record { ivars = o; log = log }))
  unfolding free
  free-Balanced none log w = ground arith
  free-Balanced (some v) log w =
      let t : Input = record { ivars = some v; log = log } in
      Ensures-bind (λ _. IsFreeing k x t (given_back k x v)) (λ _. Balanced) (release_ivars v) _ t
        (release_ivars-IsFreeing k x t v)
        λ _ u f. ground (arith, f, w, given_back-holding k x settled v)

-- The stored variables as `init` and `Start` leave them: nothing is held.
pub record IsEmpty (v : Ivars) : Type 0 where
  pub no_configuration : v.configuration_descriptor ≡ none
  pub no_in_buffer : v.in_pipe.memory.buffer ≡ none
  pub no_out_buffer : v.out_pipe.memory.buffer ≡ none
  pub no_action : v.got_data_action ≡ none

module _ (env : Env) (doc : IsDocumented env) (lp : LeavesPointers env) (s : Input) (v : Ivars)
    (i : Ref) (loaded : s.ivars ≡ some v) (provided : v.interface ≡ some i) (empty : IsEmpty v)
    (k : Resource) (x : Ref) (settled : is_settled k ≡ true) where
  nothing_held : IsOwned k x (takes k x s.log) (gives k x s.log) 0 true true true true s
  nothing_held = ground (arith, loaded, empty)

  pub started-IsOwned :
      (b : Bool) (t : Input)
      → handle_start env s ≡ some (b, t)
      → IsOwned k x (takes k x s.log) (gives k x s.log) 0 false false false false t
  started-IsOwned b t ran =
      let taken = takes k x s.log in
      let given = gives k x s.log in
      Allows-some (λ _. Settled env lp k x settled taken given) (handle_start env s) ran
        (handle_start-Owned env lp k x settled taken given s nothing_held)

  -- With USBDriverKit's and DriverKit's calls as documented, from stored variables with a provider
  -- and nothing else: `handleStart` and a `free` after it end without undefined behaviour, and,
  -- whatever `handleStart` has returned and wherever it has failed, each configuration descriptor,
  -- buffer, action and dictionary of properties has in the two been given back as often as it has
  -- been taken.
  pub free-handle_start-Balanced :
      (b : Bool) × (t : Input) × (u : Input) × (handle_start env s ≡ some (b, t))
      × (free t ≡ some (tt, u))
      × (takes k x u.log + gives k x s.log ≡ gives k x u.log + takes k x s.log)
  free-handle_start-Balanced =
      let (b, t, u, ran, freed, _, _) = free-handle_start env doc s v i loaded provided in
      let taken = takes k x s.log in
      let given = gives k x s.log in
      (
        b,
        t,
        u,
        ran,
        freed,
        rw freed at (free-Balanced k x settled taken given t.ivars t.log (started-IsOwned b t ran)),
      )
