-- ===== src/Admin/Credentials/Numbers.antt =====
-- Finite sets of numbers as lists without repetition, and their sizes.
use cdk_system.Base.{
  ℕ, ◌≤◌, ◌<◌, ◌≡◌, refl, ◌∙◌, Bool, true, false, ◌||◌, not, List, [], ◌∷◌, ◌++◌, length, keep,
  length-keep-le, Every, ◌==◌, if◌then◌else◌, arith, ==_iff,
}

-- `set.has(n)`.
unfoldable pub has : ℕ → List ℕ → Bool
has n [] = false
has n (m ∷ ms) = (n == m) || has n ms

-- `set.delete(n)`.
unfoldable pub remove : ℕ → List ℕ → List ℕ
remove n = keep (λ m. not (n == m))

-- `new Set(numbers)`: each number once, where it first stands.
unfoldable pub distinct : List ℕ → List ℕ
distinct [] = []
distinct (n ∷ ns) = n ∷ remove n (distinct ns)

abbrev pub IsSetOf : List ℕ → Type 0
IsSetOf [] = Unit
IsSetOf (n ∷ ns) = (has n ns ≡ false) × IsSetOf ns

pub has-remove :
    (n m : ℕ) (ns : List ℕ) → has m (remove n ns) ≡ (if n == m then false else has m ns)
unfolding has remove keep
has-remove n m [] = ground arith
has-remove n m (k ∷ ns) = ground (arith, has-remove n m ns)

pub has-append : (n m : ℕ) (ns : List ℕ) → has n (ns ++ (m ∷ [])) ≡ (has n ns || n == m)
unfolding has
has-append n m [] = ground arith
has-append n m (k ∷ ns) = ground (arith, has-append n m ns)

pub remove-IsSetOf : (n : ℕ) (ns : List ℕ) → IsSetOf ns → IsSetOf (remove n ns)
unfolding remove keep
remove-IsSetOf n [] s = tt
remove-IsSetOf n (k ∷ ns) (h, s) = ground (arith, remove-IsSetOf n ns s, has-remove n k ns)

pub append-IsSetOf :
    (m : ℕ) (ns : List ℕ) → IsSetOf ns → has m ns ≡ false → IsSetOf (ns ++ (m ∷ []))
unfolding has
append-IsSetOf m [] s h = (refl, tt)
append-IsSetOf m (k ∷ ns) (f, s) h = ground (arith, append-IsSetOf m ns s, has-append k m ns)

pub has-distinct : (n : ℕ) (ns : List ℕ) → has n (distinct ns) ≡ has n ns
unfolding distinct
has-distinct n [] = refl
has-distinct n (m ∷ ns) = unfolded (has-remove m n (distinct ns)) (has-distinct n ns)
  where
    unfolded :
        has n (remove m (distinct ns)) ≡ (if m == n then false else has n (distinct ns))
        → has n (distinct ns) ≡ has n ns
        → has n (m ∷ remove m (distinct ns)) ≡ has n (m ∷ ns)
    unfolded e f = unfold has in ground (arith, e, f)

pub distinct-IsSetOf : (ns : List ℕ) → IsSetOf (distinct ns)
unfolding distinct
distinct-IsSetOf [] = tt
distinct-IsSetOf (n ∷ ns) = (
  has-remove n n (distinct ns) ∙ ground arith,
  remove-IsSetOf n (distinct ns) (distinct-IsSetOf ns),
)

length-remove-lt : (n : ℕ) (ns : List ℕ) → has n ns ≡ true → length (remove n ns) < length ns
unfolding has remove keep
length-remove-lt n [] h = cc
length-remove-lt n (m ∷ ns) h =
    ground (arith, length-remove-lt n ns, length-keep-le (λ k. not (n == k)) ns)

-- One set within another.
abbrev pub IsWithin : List ℕ → List ℕ → Type 0
IsWithin ns ms = Every (λ n. has n ms) ns

pub has_all : (ns ms : List ℕ) → ((n : ℕ) → has n ns ≡ true → has n ms ≡ true) → IsWithin ns ms
unfolding has
has_all [] ms h = tt
has_all (n ∷ ns) ms h = (h n (ground arith), has_all ns ms (λ k e. h k (ground arith)))

pub has_of_IsWithin : (n : ℕ) (ns ms : List ℕ) → IsWithin ns ms → has n ns ≡ true → has n ms ≡ true
unfolding has
has_of_IsWithin n [] ms w h = cc
has_of_IsWithin n (k ∷ ns) ms (w, ws) h = ground (arith, has_of_IsWithin n ns ms ws, ==_iff n k)

IsWithin-remove :
    (n : ℕ) (ns ms : List ℕ) → has n ns ≡ false → IsWithin ns ms → IsWithin ns (remove n ms)
unfolding has
IsWithin-remove n [] ms h w = tt
IsWithin-remove n (k ∷ ns) ms h (w, ws) =
    (ground (arith, has-remove n k ms), IsWithin-remove n ns ms (ground arith) ws)

-- A set within another has at most as many elements.
pub length-IsWithin : (ns ms : List ℕ) → IsSetOf ns → IsWithin ns ms → length ns ≤ length ms
length-IsWithin [] ms s w = omega arith
length-IsWithin (n ∷ ns) ms (h, s) (w, ws) = omega (
  arith,
  length-remove-lt n ms w,
  length-IsWithin ns (remove n ms) s (IsWithin-remove n ns ms h ws),
)

-- A set within another that has no more elements than it is all of it.
pub has_of_full :
    (ns ms : List ℕ) (m : ℕ)
    → IsSetOf ns
    → IsWithin ns ms
    → length ms ≤ length ns
    → has m ms ≡ true
    → has m ns ≡ true
has_of_full [] [] m s w l h = h
has_of_full [] (k ∷ ms) m s w l h = absurd (omega arith)
has_of_full (n ∷ ns) ms m (f, s) (w, ws) l h =
    let inner : has m (remove n ms) ≡ true → has m ns ≡ true =
      has_of_full ns (remove n ms) m s (IsWithin-remove n ns ms f ws)
        (omega (arith, length-remove-lt n ms w)) in
    split (has-remove n m ms) inner
  where
    split :
        has m (remove n ms) ≡ (if n == m then false else has m ms)
        → (has m (remove n ms) ≡ true → has m ns ≡ true)
        → has m (n ∷ ns) ≡ true
    split e inner = unfold has in ground arith
