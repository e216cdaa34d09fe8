-- ===== src/Base/Lists.antt =====
-- Lists measured by native numbers, tests over lists, and the predicates that they decide.
use Prim.Native.Nat.{ℕ, zero, suc, ◌+◌, ◌≤◌}
use mathlib.Core.Path.{◌≡◌, refl}
use mathlib.Core.Bool.{Bool, true, false, ◌&&◌, ◌||◌}
use mathlib.Core.Option.{Option, none, some}
use mathlib.Core.List.{List, [], ◌∷◌, ◌++◌, map}
use native.Mathlib.Omega.{arith}
use cdk_system.Base.Tests.{if◌then◌else◌}

module _ {ℓ} {A : Type ℓ} where
  abbrev pub length : List A → ℕ
  length [] = 0
  length (x ∷ xs) = suc (length xs)

  abbrev pub get_elem? : List A → ℕ → Option A
  get_elem? [] i = none
  get_elem? (x ∷ xs) zero = some x
  get_elem? (x ∷ xs) (suc i) = get_elem? xs i

  abbrev pub take : ℕ → List A → List A
  take zero xs = []
  take (suc n) [] = []
  take (suc n) (x ∷ xs) = x ∷ take n xs

  abbrev pub drop : ℕ → List A → List A
  drop zero xs = xs
  drop (suc n) [] = []
  drop (suc n) (x ∷ xs) = drop n xs

  abbrev pub replicate : ℕ → A → List A
  replicate zero a = []
  replicate (suc n) a = a ∷ replicate n a

  -- `Array.prototype.filter`, by a Boolean test.
  unfoldable pub keep : (A → Bool) → List A → List A
  keep p [] = []
  keep p (x ∷ xs) = let rest = keep p xs in if p x then x ∷ rest else rest

  -- `every` and `some`.
  unfoldable pub all : (A → Bool) → List A → Bool
  all p [] = true
  all p (x ∷ xs) = p x && all p xs

  unfoldable pub any : (A → Bool) → List A → Bool
  any p [] = false
  any p (x ∷ xs) = p x || any p xs

  abbrev pub All {κ} : (A → Type κ) → List A → Type κ
  All P [] = Unit
  All P (x ∷ xs) = P x × All P xs

  -- Every element passes the test.
  abbrev pub Every : (A → Bool) → List A → Type 0
  Every p [] = Unit
  Every p (x ∷ xs) = (p x ≡ true) × Every p xs

module _ {ℓ} {A : Type ℓ} where
  pub length-append : (xs ys : List A) → length (xs ++ ys) ≡ length xs + length ys
  length-append [] ys = omega arith
  length-append (x ∷ xs) ys = omega (arith, length-append xs ys)

  pub length-take-le : (n : ℕ) (xs : List A) → length (take n xs) ≤ n
  length-take-le zero xs = omega arith
  length-take-le (suc n) [] = omega arith
  length-take-le (suc n) (x ∷ xs) = omega (arith, length-take-le n xs)

  pub take_of_le : (n : ℕ) (xs : List A) → length xs ≤ n → take n xs ≡ xs
  take_of_le zero [] h = refl
  take_of_le zero (x ∷ xs) h = absurd (omega arith)
  take_of_le (suc n) [] h = refl
  take_of_le (suc n) (x ∷ xs) h = rw (take_of_le n xs (omega arith))

  pub length-keep-le : (p : A → Bool) (xs : List A) → length (keep p xs) ≤ length xs
  unfolding keep
  length-keep-le p [] = omega arith
  length-keep-le p (x ∷ xs) = ground (arith, length-keep-le p xs)

  pub all-Every : (p : A → Bool) (xs : List A) → all p xs ≡ true → Every p xs
  unfolding all
  all-Every p [] h = tt
  all-Every p (x ∷ xs) h = ground (arith, all-Every p xs)

  pub Every-all : (p : A → Bool) (xs : List A) → Every p xs → all p xs ≡ true
  unfolding all
  Every-all p [] h = refl
  Every-all p (x ∷ xs) (h, hs) = rw h (Every-all p xs hs)

  pub all-append : (p : A → Bool) (xs ys : List A) → all p (xs ++ ys) ≡ (all p xs && all p ys)
  unfolding all
  all-append p [] ys = refl
  all-append p (x ∷ xs) ys = ground (arith, all-append p xs ys)

  pub all-append_true :
      (p : A → Bool) (xs ys : List A) → all p xs ≡ true → all p ys ≡ true → all p (xs ++ ys) ≡ true
  all-append_true p xs ys h k = rw (all-append p xs ys, h) k

  pub all-replicate : (p : A → Bool) (n : ℕ) (a : A) → p a ≡ true → all p (replicate n a) ≡ true
  unfolding all
  all-replicate p zero a h = refl
  all-replicate p (suc n) a h = rw h (all-replicate p n a h)

  pub keep_of_Every : (p : A → Bool) (xs : List A) → Every p xs → keep p xs ≡ xs
  unfolding keep
  keep_of_Every p [] h = refl
  keep_of_Every p (x ∷ xs) (h, hs) = rw (h, keep_of_Every p xs hs)

  pub keep-Every : (p : A → Bool) (xs : List A) → Every p (keep p xs)
  unfolding keep
  keep-Every p [] = tt
  keep-Every p (x ∷ xs) = ground (arith, keep-Every p xs)

  pub Every-append : (p : A → Bool) (xs ys : List A) → Every p xs → Every p ys → Every p (xs ++ ys)
  Every-append p [] ys h k = k
  Every-append p (x ∷ xs) ys (h, hs) k = (h, Every-append p xs ys hs k)

  pub Every-take : (p : A → Bool) (n : ℕ) (xs : List A) → Every p xs → Every p (take n xs)
  Every-take p zero xs h = tt
  Every-take p (suc n) [] h = tt
  Every-take p (suc n) (x ∷ xs) (h, hs) = (h, Every-take p n xs hs)

  pub Every-keep : (p q : A → Bool) (xs : List A) → Every p xs → Every p (keep q xs)
  unfolding keep
  Every-keep p q [] h = tt
  Every-keep p q (x ∷ xs) (h, hs) = ground (arith, Every-keep p q xs hs)

module _ {ℓ κ} {A : Type ℓ} {B : Type κ} where
  pub length-map : (f : A → B) (xs : List A) → length (map f xs) ≡ length xs
  length-map f [] = refl
  length-map f (x ∷ xs) = omega (arith, length-map f xs)
