-- ===== src/Tester/Laws.antt =====
-- What the program releases, and its exit code.
use vendor_specific_usbdrive.Base.{
  ℕ, suc, ◌+◌, ◌≡◌, Option, none, some, List, [], ◌∷◌, arith, ◌==◌, if◌then◌else◌, is_some, length,
  M, refl, pure, Ensures, Ensures-some, ◌∙◌, ◌>>=◌, >>=-ok, Ensures-bind,
}
use vendor_specific_usbdrive.Kit.{Ref, KernReturn, is_success}
use vendor_specific_usbdrive.Client.State.{System}
use vendor_specific_usbdrive.Tester.{
  TesterEvent, printed, tried, service_released, iterator_released, World, TesterEnv, find_service,
  opening_failed, input_array, print_results, call_licensing, announce, conclude, main, in_system,
  licensing_selector,
}

-- How often a service has been released, and has failed to open.
abbrev pub releases : Ref → List TesterEvent → ℕ
releases x [] = 0
releases x (service_released r ∷ es) = (if r == x then 1 else 0) + releases x es
releases x (printed _ ∷ es) = releases x es
releases x (tried _ _ ∷ es) = releases x es
releases x (iterator_released _ ∷ es) = releases x es

abbrev pub fails : Ref → List TesterEvent → ℕ
fails x [] = 0
fails x (tried r ret ∷ es) = (if is_success ret then 0 else if r == x then 1 else 0) + fails x es
fails x (printed _ ∷ es) = fails x es
fails x (service_released _ ∷ es) = fails x es
fails x (iterator_released _ ∷ es) = fails x es

-- How many services have opened, and iterators been released.
abbrev pub opens : List TesterEvent → ℕ
opens [] = 0
opens (tried _ ret ∷ es) = (if is_success ret then 1 else 0) + opens es
opens (printed _ ∷ es) = opens es
opens (service_released _ ∷ es) = opens es
opens (iterator_released _ ∷ es) = opens es

abbrev pub iterators : List TesterEvent → ℕ
iterators [] = 0
iterators (iterator_released _ ∷ es) = suc (iterators es)
iterators (printed _ ∷ es) = iterators es
iterators (service_released _ ∷ es) = iterators es
iterators (tried _ _ ∷ es) = iterators es

-- IOKit, as it is documented: a call ends, and the output array keeps its length.
pub record KeepsOutput (env : TesterEnv) : Type 0 where
  pub keeps :
      (connection : Ref) (selector : ℕ) (input output : List ℕ) (s : System)
      → Ensures
          (λ (ret, after, size) _. length after ≡ length output)
          (env.call_scalar_method connection selector input output s)

-- From the events of `w` to those of `t`: the failures are released, and so many services have
-- opened and iterators been released.
abbrev IsTidy : Ref → ℕ → ℕ → World → World → Type 0
IsTidy x opened ended w t =
    (releases x t.events + fails x w.events ≡ fails x t.events + releases x w.events)
    × (opens t.events ≡ opens w.events + opened)
    × (iterators t.events ≡ iterators w.events + ended)

find_service-IsTidy :
    (env : TesterEnv) (x : Ref) (services : List Ref) (w : World)
    → Ensures (λ found. IsTidy x (if is_some found then 1 else 0) 0 w) (find_service env services w)
unfolding find_service
find_service-IsTidy env x [] w = omega arith
find_service-IsTidy env x (service ∷ services) w =
    let ret = (env.open_service w.events service).0 in
    ground (
      arith,
      find_service-IsTidy env x services (record w {
        events =
            service_released service ∷ printed (opening_failed ret) ∷ tried service ret ∷ w.events;
      }),
    )

in_system-Ensures :
    {A : Type 0} (P : A → System → Type 0) (m : M System A) (w : World)
    → Ensures P (m w.system)
    → Ensures (λ a t. P a t.system × (t.events ≡ w.events)) (in_system m w)
in_system-Ensures {A} P m w h = go (m w.system) refl h
  where
    go :
        (o : Option (A × System))
        → m w.system ≡ o
        → Ensures P o
        → Ensures (λ a t. P a t.system × (t.events ≡ w.events)) (in_system m w)
    go none e h = absurd h
    go (some (a, s)) e h = rw (e, in_system) (h, refl)

print_results-IsTidy :
    (x : Ref) (ret : KernReturn) (output : List ℕ) (size : ℕ) (w : World)
    → length output ≡ 1
    → Ensures (λ _. IsTidy x 0 0 w) (print_results (ret, output, size) w)
unfolding print_results
print_results-IsTidy x ret [] size w e = absurd (omega (arith, e))
print_results-IsTidy x ret (o ∷ output) size w e = ground arith

call_licensing-IsTidy :
    (env : TesterEnv)
    → KeepsOutput env
    → (x connection : Ref) (w : World)
    → Ensures (λ _. IsTidy x 0 0 w) (call_licensing env connection w)
unfolding call_licensing
call_licensing-IsTidy env keeps x connection w =
    Ensures-bind (λ (ret, output, size) t. (length output ≡ 1) × (t.events ≡ w.events))
      (λ _. IsTidy x 0 0 w)
      (in_system (env.call_scalar_method connection licensing_selector input_array (0 ∷ [])))
      print_results w
      (in_system-Ensures (λ (ret, output, size) _. length output ≡ 1)
        (env.call_scalar_method connection licensing_selector input_array (0 ∷ [])) w
        (keeps.keeps connection 1 (1 ∷ []) (0 ∷ []) w.system))
      λ (ret, output, size) t (e, f). rw (← f) (print_results-IsTidy x ret output size t e)

announce-IsTidy :
    (x : Ref) (ret : KernReturn) (w : World) → Ensures (λ _. IsTidy x 0 0 w) (announce ret w)
unfolding announce
announce-IsTidy x ret w = ground arith

conclude-IsTidy :
    (env : TesterEnv)
    → KeepsOutput env
    → (x : Ref) (iterator found : Option Ref) (w : World)
    → Ensures
        (λ code t. IsTidy x 0 1 w t × (code + (if is_some found then 1 else 0) ≡ 1))
        (conclude env iterator found w)
unfolding conclude
conclude-IsTidy env keeps x iterator none w = ground arith
conclude-IsTidy env keeps x iterator (some connection) w =
    let t = record w { events = iterator_released iterator ∷ w.events } in
    Ensures-bind (λ _. IsTidy x 0 0 t) _ (call_licensing env connection) (λ _. pure 0) t
      (call_licensing-IsTidy env keeps x connection t) λ _ u q. ground arith

-- With IOKit's calls as documented, the program ends whatever they return, for every list of
-- services. It has then released every service as often as it has failed to open it, and the
-- iterator once; and its exit code is 0 if it has opened a service, one, and 1 if it has opened
-- none. So the code is 0 also if the licensing call fails.
pub main-releases :
    (env : TesterEnv)
    → KeepsOutput env
    → (x : Ref) (w : World)
    → (code : ℕ) × (t : World) × (main env w ≡ some (code, t))
      × (releases x t.events + fails x w.events ≡ fails x t.events + releases x w.events)
      × (iterators t.events ≡ iterators w.events + 1)
      × (opens t.events + code ≡ opens w.events + 1)
unfolding main
main-releases env keeps x w =
    let (ret, iterator) = env.matching_services w.events in
    let (_, t₁, ran₁, q₁) = Ensures-some _ (announce ret w) (announce-IsTidy x ret w) in
    let (found, t₂, ran₂, q₂) =
      Ensures-some _ (find_service env (env.services iterator) t₁)
        (find_service-IsTidy env x (env.services iterator) t₁) in
    let (code, t₃, ran₃, q₃) =
      Ensures-some _ (conclude env iterator found t₂)
        (conclude-IsTidy env keeps x iterator found t₂) in
    (
      code,
      t₃,
      >>=-ok (announce ret)
            (λ _. find_service env (env.services iterator) >>= conclude env iterator) w ran₁
          ∙ >>=-ok (find_service env (env.services iterator)) (conclude env iterator) t₁ ran₂
          ∙ ran₃,
      omega arith,
      omega arith,
      omega arith,
    )
