-- ===== src/Admin/Pagination/Laws.antt =====
-- What the page bars show and where they lead.
use cdk_system.Base.{
  ℕ, zero, suc, ◌+◌, ◌-◌, ◌*◌, ◌≤◌, ◌<◌, ◌≡◌, refl, Bool, true, false, some, List, [], ◌∷◌, leb,
  ◌==◌, length, any, arith, subst, ap, Bool-cases, inl, inr, ◌↔◌,
}
use cdk_system.Admin.Pagination.{
  PageItem, page, start_ellipsis, end_ellipsis, pages_from, compact_page_items, Paged, range_start,
  range_end, Bar, data_pagination,
}

-- The items lead from behind page `last` to the page `pages`: each page follows on the one before,
-- and an ellipsis stands between two pages exactly where pages are left out.
abbrev pub LeadsTo : ℕ → ℕ → List PageItem → Type 0
LeadsTo pages last [] = last ≡ pages
LeadsTo pages last (page n ∷ items) = (n ≡ last + 1) × LeadsTo pages n items
LeadsTo pages last (start_ellipsis ∷ page n ∷ items) = (last + 1 < n) × LeadsTo pages n items
LeadsTo pages last (end_ellipsis ∷ page n ∷ items) = (last + 1 < n) × LeadsTo pages n items
LeadsTo pages last _ = ⊥

abbrev pub is_page : ℕ → PageItem → Bool
is_page n (page m) = m == n
is_page n _ = false

pages_from-LeadsTo : (from n : ℕ) → LeadsTo (from + n) from (pages_from (suc from) n)
unfolding pages_from
pages_from-LeadsTo from zero = omega arith
pages_from-LeadsTo from (suc n) = (
  omega arith,
  subst (λ k. LeadsTo k (suc from) (pages_from (suc (suc from)) n)) (omega arith)
      (pages_from-LeadsTo (suc from) n),
)

any-pages_from :
    (k from n : ℕ) → from ≤ k → k < from + n → any (is_page k) (pages_from from n) ≡ true
unfolding pages_from any
any-pages_from k from zero h l = absurd (omega arith)
any-pages_from k from (suc n) h l = ground (arith, any-pages_from k (suc from) n)

length-pages_from : (from n : ℕ) → length (pages_from from n) ≡ n
unfolding pages_from
length-pages_from from zero = refl
length-pages_from from (suc n) = ap suc (length-pages_from (suc from) n)

few_LeadsTo : (pages : ℕ) → LeadsTo pages 0 (pages_from 1 pages)
few_LeadsTo pages =
    subst (λ k. LeadsTo k 0 (pages_from 1 pages)) (omega arith) (pages_from-LeadsTo 0 pages)

-- For a current page among the pages, the bar leads from the first page to the last, shows an
-- ellipsis exactly where it leaves pages out, holds the current page, and has at most five items.
pub compact_page_items-LeadsTo :
    (current pages : ℕ)
    → 1 ≤ current
    → current ≤ pages
    → LeadsTo pages 0 (compact_page_items current pages)
      × (any (is_page current) (compact_page_items current pages) ≡ true)
      × (length (compact_page_items current pages) ≤ 5)
unfolding compact_page_items any
compact_page_items-LeadsTo current pages h l =
    let some_pages : (pages == 0) ≡ false = ground arith in
    elim (Bool-cases (leb pages 5)) [
      | inl few ↦
          rw (some_pages, few)
            (
              few_LeadsTo pages,
              any-pages_from current 1 pages h (omega arith),
              rw (length-pages_from 1 pages) (ground arith),
            )
      | inr many ↦
          let over : 5 < pages = ground arith in
          elim (Bool-cases (leb current 3)) [
            | inl early ↦
                let low : current ≤ 3 = ground arith in
                rw (some_pages, many, early) (omega arith, ground arith, omega arith)
            | inr later ↦
                let up : 3 < current = ground arith in
                elim (Bool-cases (leb (pages - 2) current)) [
                  | inl late ↦
                      let high : pages - 2 ≤ current = ground arith in
                      rw (some_pages, many, later, late) (omega arith, ground arith, omega arith)
                  | inr between ↦
                      let low : current < pages - 2 = ground arith in
                      rw (some_pages, many, later, between) (omega arith, ground arith, omega arith)
                ]
          ]
    ]

mul-pred : (a s : ℕ) → 1 ≤ a → a * s ≡ (a - 1) * s + s
mul-pred zero s h = absurd (omega arith)
mul-pred (suc a) s h = rw (pred_suc a) (omega arith)
  where
    pred_suc : (a : ℕ) → suc a - 1 ≡ a
    pred_suc a = omega arith

add_sub_one : (a : ℕ) → a + 1 - 1 ≡ a
add_sub_one a = omega arith

-- For a page that the table has, the range of rows is not empty, lies within the table, and is no
-- longer than a page; the range of the next page begins right behind it.
pub range_bounds :
    (page_size : ℕ) (p : Paged)
    → 1 ≤ p.page
    → (p.page - 1) * page_size < p.total
    → 1 ≤ page_size
    → (1 ≤ range_start page_size p)
      × (range_start page_size p ≤ range_end page_size p)
      × (range_end page_size p ≤ p.total)
      × (range_end page_size p < range_start page_size p + page_size)
      × (range_start page_size (record p { page = p.page + 1 })
          ≡ range_start page_size p + page_size)
unfolding range_start range_end
range_bounds page_size p h l s = ground (
  arith,
  mul-pred p.page page_size h,
  ap (λ k. k * page_size) (add_sub_one p.page),
  mul-pred (p.page + 1) page_size (omega arith),
)

-- The buttons of the bar lead to pages that the table has, to the neighbours of the current one.
pub data_pagination-bounds :
    (p : Paged) (bar : Bar) (n : ℕ)
    → 1 ≤ p.page
    → p.page ≤ p.pages
    → data_pagination p ≡ some bar
    → ((bar.previous ≡ some n) ↔ ((n + 1 ≡ p.page) × (1 ≤ n)))
      × ((bar.following ≡ some n) ↔ ((n ≡ p.page + 1) × (n ≤ p.pages)))
unfolding data_pagination
data_pagination-bounds p bar n h l e = ground arith
