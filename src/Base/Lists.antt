-- ===== src/Base/Lists.antt =====
-- Lists measured and indexed by native numbers, under the library's names.
use Prim.Native.Nat.{ℕ, zero, suc, ◌+◌, ◌<◌, ◌≤◌}
use mathlib.Core.Path.{◌≡◌, refl, ap}
use mathlib.Core.List.{List, [], ◌∷◌, ◌++◌}
use mathlib.Core.Option.{Option, none, some}
use native.Mathlib.Omega.{arith}

module _ {ℓ} {A : Type ℓ} where
  abbrev pub length : List A → ℕ
  length [] = 0
  length (x ∷ xs) = suc (length xs)

  abbrev pub get_elem? : List A → ℕ → Option A
  get_elem? [] i = none
  get_elem? (x ∷ xs) zero = some x
  get_elem? (x ∷ xs) (suc i) = get_elem? xs i

  -- A write out of bounds changes nothing.
  abbrev pub set : List A → ℕ → A → List A
  set [] i v = []
  set (x ∷ xs) zero v = v ∷ xs
  set (x ∷ xs) (suc i) v = x ∷ set xs i v

  abbrev pub take : ℕ → List A → List A
  take zero xs = []
  take (suc n) [] = []
  take (suc n) (x ∷ xs) = x ∷ take n xs

  abbrev pub drop : ℕ → List A → List A
  drop zero xs = xs
  drop (suc n) [] = []
  drop (suc n) (x ∷ xs) = drop n xs

  abbrev pub replicate : ℕ → A → List A
  replicate zero a = []
  replicate (suc n) a = a ∷ replicate n a

  pub length-append : (xs ys : List A) → length (xs ++ ys) ≡ length xs + length ys
  length-append [] ys = omega arith
  length-append (x ∷ xs) ys = omega (arith, length-append xs ys)

module _ {ℓ} {A : Type ℓ} where
  pub length-set : (xs : List A) (i : ℕ) (v : A) → length (set xs i v) ≡ length xs
  length-set [] i v = refl
  length-set (x ∷ xs) zero v = refl
  length-set (x ∷ xs) (suc i) v = ap suc (length-set xs i v)

  -- What `memcpy` leaves: the copied bytes in front of the rest.
  pub length-take-append-drop :
      (n : ℕ) (xs ys : List A)
      → n ≤ length xs
      → n ≤ length ys
      → length (take n xs ++ drop n ys) ≡ length ys
  length-take-append-drop zero xs ys h k = refl
  length-take-append-drop (suc n) [] ys h k = elim h [ ]
  length-take-append-drop (suc n) (x ∷ xs) [] h k = elim k [ ]
  length-take-append-drop (suc n) (x ∷ xs) (y ∷ ys) h k =
      ap suc (length-take-append-drop n xs ys (omega arith) (omega arith))

  take-append_front :
      (n : ℕ) (xs ys : List A) → n ≤ length xs → take n (take n xs ++ ys) ≡ take n xs
  take-append_front zero xs ys h = refl
  take-append_front (suc n) [] ys h = elim h [ ]
  take-append_front (suc n) (x ∷ xs) ys h = ap (◌∷◌ x) (take-append_front n xs ys (omega arith))

  -- A write below `n` into a list whose first `n` elements are given stays within these.
  pub take-set-append :
      (n i : ℕ) (xs ys : List A) (v : A)
      → n ≤ length xs
      → i < n
      → take n (set (take n xs ++ ys) i v) ≡ set (take n xs) i v
  take-set-append zero i xs ys v h k = elim k [ ]
  take-set-append (suc n) i [] ys v h k = elim h [ ]
  take-set-append (suc n) zero (x ∷ xs) ys v h k =
      ap (◌∷◌ v) (take-append_front n xs ys (omega arith))
  take-set-append (suc n) (suc i) (x ∷ xs) ys v h k =
      ap (◌∷◌ x) (take-set-append n i xs ys v (omega arith) (omega arith))
