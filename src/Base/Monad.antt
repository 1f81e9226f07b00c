-- ===== src/Base/Monad.antt =====
-- Code that reads and changes a state `S`, and may run into undefined behaviour.
use mathlib.Core.Path.{◌≡◌, refl}
use mathlib.Core.Bool.{Bool, true, false, not}
use vendor_specific_usbdrive.Base.Tests.{if◌then◌else◌}
use mathlib.Core.Option.{Option, none, some}

-- `none` is undefined behaviour: a null pointer read, or an access out of bounds.
abbrev pub M : Type 0 → Type 0 → Type 0
M S A = S → Option (A × S)

abbrev pub pure : {S A : Type 0} → A → M S A
pure a s = some (a, s)

abbrev pub fault : {S A : Type 0} → M S A
fault s = none

infixl 5 ◌>>=◌ ◌>>◌
abbrev pub ◌>>=◌ : {S A B : Type 0} → M S A → (A → M S B) → M S B
◌>>=◌ m f s = elim (m s) [ none ↦ none | some (a, s') ↦ f a s' ]

abbrev pub ◌>>◌ : {S B : Type 0} → M S (Unit {0}) → M S B → M S B
m >> k = m >>= λ _. k

-- Reads through a pointer that may be null.
abbrev pub deref : {S A : Type 0} → Option A → M S A
deref none s = none
deref (some a) s = some (a, s)

abbrev pub get_state : {S : Type 0} → M S S
get_state s = some (s, s)

-- A step that is known to succeed.
pub >>=-ok :
    {S A B : Type 0} (m : M S A) (f : A → M S B) (s : S) {a : A} {t : S}
    → m s ≡ some (a, t)
    → (m >>= f) s ≡ f a t
>>=-ok m f s e = rw (e, ◌>>=◌)

-- Total correctness: no undefined behaviour, and a postcondition.
abbrev pub Ensures : {S A : Type 0} → (A → S → Type 0) → Option (A × S) → Type 0
Ensures Q none = ⊥
Ensures Q (some (a, s)) = Q a s

pub Ensures-some :
    {S A : Type 0} (Q : A → S → Type 0) (o : Option (A × S))
    → Ensures Q o
    → (a : A) × (s : S) × (o ≡ some (a, s)) × Q a s
Ensures-some Q none h = absurd h
Ensures-some Q (some (a, s)) h = (a, s, refl, h)

pub Ensures-bind :
    {S A B : Type 0} (P : A → S → Type 0) (Q : B → S → Type 0) (m : M S A) (f : A → M S B) (s : S)
    → Ensures P (m s)
    → ((a : A) (t : S) → P a t → Ensures Q (f a t))
    → Ensures Q ((m >>= f) s)
Ensures-bind {S} {A} P Q m f s h k = go (m s) refl h
  where
    go : (o : Option (A × S)) → m s ≡ o → Ensures P o → Ensures Q ((m >>= f) s)
    go none e h = absurd h
    go (some (a, t)) e h = rw (e, ◌>>=◌) (k a t h)

-- A weaker postcondition.
pub Ensures-mono :
    {S A : Type 0} (P Q : A → S → Type 0) (o : Option (A × S))
    → ((a : A) (t : S) → P a t → Q a t)
    → Ensures P o
    → Ensures Q o
Ensures-mono P Q none k h = h
Ensures-mono P Q (some (a, t)) k h = k a t h

-- Two steps of which each keeps a transitive relation between the states.
pub Ensures-then :
    {S A : Type 0} (R : S → S → Type 0)
    → ((s t u : S) → R s t → R t u → R s u)
    → (m : M S (Unit {0})) (k : M S A) (s : S) → Ensures (λ _. R s) (m s)
    → ((t : S) → Ensures (λ _. R t) (k t))
    → Ensures (λ _. R s) ((m >> k) s)
Ensures-then R trans m k s h next =
    Ensures-bind (λ _. R s) (λ _. R s) m (λ _. k) s h
      λ _ t r. Ensures-mono (λ _. R t) (λ _. R s) (k t) (λ _ u q. trans s t u r q) (next t)

-- `if (result == false) goto Exit;`
pub Ensures-guard :
    {S : Type 0} (Q : Bool → S → Type 0) (b : Bool) (rest : M S Bool) (s : S)
    → Q false s
    → (b ≡ true → Ensures Q (rest s))
    → Ensures Q ((if not b then pure false else rest) s)
Ensures-guard Q false rest s left go = left
Ensures-guard Q true rest s left go = go refl

none-ne-some : {A : Type 0} {a : A} → ◌≡◌ {A = Option A} none (some a) → ⊥
none-ne-some h = cc

-- The parts of a run that ended.
pub >>=-eq-some :
    {S A B : Type 0} (m : M S A) (f : A → M S B) (s : S) {b : B} {t : S}
    → (m >>= f) s ≡ some (b, t)
    → (a : A) × (u : S) × (m s ≡ some (a, u)) × (f a u ≡ some (b, t))
>>=-eq-some {S} {A} m f s {b} {t} e = go (m s) refl
  where
    go :
        (o : Option (A × S))
        → m s ≡ o
        → (a : A) × (u : S) × (m s ≡ some (a, u)) × (f a u ≡ some (b, t))
    go none h = absurd (none-ne-some (rw (h, ◌>>=◌) at e))
    go (some (a, u)) h = (a, u, h, rw (h, ◌>>=◌) at e)

-- Partial correctness: a postcondition of a run that ends.
abbrev pub Allows : {S A : Type 0} → (A → S → Type 0) → Option (A × S) → Type 0
Allows Q none = Unit {0}
Allows Q (some (a, s)) = Q a s

pub Allows-some :
    {S A : Type 0} (Q : A → S → Type 0) (o : Option (A × S)) {a : A} {s : S}
    → o ≡ some (a, s)
    → Allows Q o
    → Q a s
Allows-some Q o e h = rw e at h

pub Allows-bind :
    {S A B : Type 0} (P : A → S → Type 0) (Q : B → S → Type 0) (m : M S A) (f : A → M S B) (s : S)
    → Allows P (m s)
    → ((a : A) (t : S) → P a t → Allows Q (f a t))
    → Allows Q ((m >>= f) s)
Allows-bind {S} {A} P Q m f s h k = go (m s) refl h
  where
    go : (o : Option (A × S)) → m s ≡ o → Allows P o → Allows Q ((m >>= f) s)
    go none e h = rw (e, ◌>>=◌) tt
    go (some (a, t)) e h = rw (e, ◌>>=◌) (k a t h)

-- `if (result == false) goto Exit;`
pub Allows-guard :
    {S : Type 0} (Q : Bool → S → Type 0) (b : Bool) (rest : M S Bool) (s : S)
    → Q false s
    → (b ≡ true → Allows Q (rest s))
    → Allows Q ((if not b then pure false else rest) s)
Allows-guard Q false rest s left go = left
Allows-guard Q true rest s left go = go refl

-- A part that may fail, and what follows it.
pub Allows-step :
    {S : Type 0} (P Q : S → Type 0) (m rest : M S Bool) (s : S)
    → Allows (λ _. P) (m s)
    → ((t : S) → P t → Q t)
    → ((t : S) → P t → Allows (λ _. Q) (rest t))
    → Allows (λ _. Q) ((m >>= λ b. if not b then pure false else rest) s)
Allows-step P Q m rest s h left go =
    Allows-bind (λ _. P) (λ _. Q) m _ s h
      λ b t p. Allows-guard (λ _. Q) b rest t (left t p) λ _. go t p
