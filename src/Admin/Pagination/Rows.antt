-- ===== src/Admin/Pagination/Rows.antt =====
-- The ranges of rows that the pages of web/src/pages/admin/credentials.tsx announce.
use cdk_system.Base.{
  ℕ, zero, suc, ◌+◌, ◌-◌, ◌*◌, ◌≤◌, ◌<◌, ◌≡◌, refl, false, ap, ◌∙◌, inl, inr, leb, ltb, arith,
  Bool-cases, ◌==◌,
}
use native.Mathlib.Nat.{mul-le-mul_right}
use cdk_system.Admin.Pagination.{Paged, range_start, range_end}

-- Row `r` stands in the range of page `n`, a page of the table.
pub record IsOnPage (page_size : ℕ) (p : Paged) (r n : ℕ) : Type 0 where
  pub first : 1 ≤ n
  pub last : n ≤ p.pages
  pub behind_start : range_start page_size (record p { page = n }) ≤ r
  pub before_end : r ≤ range_end page_size (record p { page = n })

mul-suc : (k s : ℕ) → suc k * s ≡ k * s + s
mul-suc k s = omega arith

-- Row `r + 1` stands on page `k + 1`.
page_of : (s r : ℕ) → 1 ≤ s → (k : ℕ) × (k * s ≤ r) × (r < suc k * s)
page_of s zero h = (0, omega arith, omega (arith, mul-suc 0 s))
page_of s (suc r) h =
    let (k, low, high) = page_of s r h in
    elim (Bool-cases (ltb (suc r) (suc k * s))) [
      | inl same ↦ (k, omega arith, ground arith)
      | inr next ↦
          let over : suc k * s ≤ suc r = ground arith in
          (suc k, over, omega (arith, mul-suc (suc k) s))
    ]

-- The ranges of different pages have no row in common.
same_page : (s r k j : ℕ) → k * s ≤ r → r < suc k * s → j * s ≤ r → r < suc j * s → k ≤ j
same_page s r k j a b c d = elim (Bool-cases (leb k j)) [
  | inl below ↦ ground arith
  | inr above ↦
      let over : suc j ≤ k = ground arith in absurd (omega (arith, mul-le-mul_right s over))
]

range_start-suc :
    (page_size : ℕ) (p : Paged) (k : ℕ)
    → 0 < p.total
    → range_start page_size (record p { page = suc k }) ≡ k * page_size + 1
unfolding range_start
range_start-suc page_size p k h =
    let full : (p.total == 0) ≡ false = ground arith in
    rw full (ap (λ m. m * page_size + 1) (pred k))
  where
    pred : (k : ℕ) → suc k - 1 ≡ k
    pred k = omega arith

module _ (page_size : ℕ) (p : Paged) (r : ℕ) where
  on_page :
      (k : ℕ)
      → suc k ≤ p.pages
      → k * page_size ≤ r
      → r < suc k * page_size
      → r < p.total
      → IsOnPage page_size p (suc r) (suc k)
  unfolding range_end
  on_page k h a b t = record {
    first = omega arith;
    last = h;
    behind_start = omega (arith, range_start-suc page_size p k (omega arith));
    before_end = omega arith;
  }

  of_page :
      (n : ℕ)
      → IsOnPage page_size p (suc r) n
      → r < p.total
      → (k : ℕ) × (n ≡ suc k) × (k * page_size ≤ r) × (r < suc k * page_size)
  unfolding range_end
  of_page zero on t = absurd (omega (arith, on.first))
  of_page (suc k) on t = (
    k,
    refl,
    omega (arith, on.behind_start, range_start-suc page_size p k (omega arith)),
    omega (arith, on.before_end),
  )

-- Of a table that its pages hold, each row stands in the range of one page, and of one page only.
pub row-IsOnPage :
    (page_size : ℕ) (p : Paged) (r : ℕ)
    → 1 ≤ page_size
    → p.total ≤ p.pages * page_size
    → 1 ≤ r
    → r ≤ p.total
    → (n : ℕ) × IsOnPage page_size p r n × ((m : ℕ) → IsOnPage page_size p r m → m ≡ n)
row-IsOnPage page_size p zero s held h l = absurd (omega arith)
row-IsOnPage page_size p (suc r) s held h l =
    let (k, low, high) = page_of page_size r s in
    (suc k, on_page page_size p r k (inside k low) low high (omega arith), only k low high)
  where
    inside : (k : ℕ) → k * page_size ≤ r → suc k ≤ p.pages
    inside k low = elim (Bool-cases (leb (suc k) p.pages)) [
      | inl fits ↦ ground arith
      | inr over ↦
          let above : p.pages ≤ k = ground arith in
          absurd (omega (arith, mul-le-mul_right page_size above))
    ]

    only :
        (k : ℕ)
        → k * page_size ≤ r
        → r < suc k * page_size
        → (m : ℕ) → IsOnPage page_size p (suc r) m
        → m ≡ suc k
    only k low high m on =
        let (j, e, below, above) = of_page page_size p r m on (omega arith) in
        e
        ∙ ap suc (
            omega (
              arith,
              same_page page_size r j k below above low high,
              same_page page_size r k j low high below above,
            ))
