-- ===== src/Admin/Credentials/Settling/Leads.antt =====
-- Where the buttons of the page bar lead once all answers are there
-- (web/src/pages/admin/credentials.tsx).
use cdk_system.Base.{
  ℕ, zero, suc, ◌*◌, ◌≤◌, ◌<◌, ◌≡◌, refl, sym, ap, subst, ◌∙◌, ◌↔◌, true, false, ◌&&◌, not, none,
  some, List, [], ◌∷◌, length, ltb, leb, ◌==◌, map, All, arith, Bool-cases, inl, inr,
}
use mathlib.Core.Option.{some-injective}
use cdk_system.Api.{resolved}
use cdk_system.Admin.Pagination.{PageItem, page, start_ellipsis, end_ellipsis, compact_page_items}
use cdk_system.Admin.Pagination.Laws.{LeadsTo, compact_page_items-LeadsTo}
use cdk_system.Admin.Credentials.{Query, Answer, Listing, set_query, change_page, settle, load}
use cdk_system.Admin.Credentials.Bar.{
  Click, disabled, below_zero, to_page, BarItem, gap, number, bar_item, previous_click, next_click,
  page_bar, page_controls_disabled,
}
use cdk_system.Admin.Credentials.Settling.{
  IsServer, LastIs, exists_page, deliver_first, deliver, IsSettled,
}
use cdk_system.Admin.Credentials.Settling.Laws.{deliver-IsSettled}

-- A server that also says which page it shows, and has a page where it has rows.
pub record IsPaging (serve : Query → Answer) : Type 0 where
  pub pages_only : IsServer serve
  pub echoes : (q : Query) → exists_page serve q ≡ true → (serve q).paged.page ≡ q.page
  pub some_page : (q : Query) → 0 < (serve q).paged.total → 1 ≤ (serve q).paged.pages

-- The click leads to one of the pages, or nowhere.
abbrev pub IsInside : ℕ → Click → Type 0
IsInside pages disabled = Unit
IsInside pages below_zero = ⊥
IsInside pages (to_page n) = (1 ≤ n) × (n ≤ pages)

-- The item is a gap, or a number that leads to the page it shows, one of the pages.
abbrev pub IsInsideItem : ℕ → BarItem → Type 0
IsInsideItem pages gap = Unit
IsInsideItem pages (number n current c) = (c ≡ to_page n) × IsInside pages c

below_last : (pages last : ℕ) (items : List PageItem) → LeadsTo pages last items → last ≤ pages
below_last pages last [] h = omega arith
below_last pages last (page n ∷ items) (h, hs) = omega (arith, below_last pages n items hs)
below_last pages last (start_ellipsis ∷ page n ∷ items) (h, hs) =
    omega (arith, below_last pages n items hs)
below_last pages last (end_ellipsis ∷ page n ∷ items) (h, hs) =
    omega (arith, below_last pages n items hs)
below_last pages last (start_ellipsis ∷ []) h = absurd h
below_last pages last (end_ellipsis ∷ []) h = absurd h
below_last pages last (start_ellipsis ∷ start_ellipsis ∷ items) h = absurd h
below_last pages last (start_ellipsis ∷ end_ellipsis ∷ items) h = absurd h
below_last pages last (end_ellipsis ∷ start_ellipsis ∷ items) h = absurd h
below_last pages last (end_ellipsis ∷ end_ellipsis ∷ items) h = absurd h

module _ (l : Listing) (ready : page_controls_disabled l ≡ false) where
  bar_item-IsInside :
      (n : ℕ) → 1 ≤ n → n ≤ l.paged.pages → IsInsideItem l.paged.pages (bar_item l (page n))
  unfolding bar_item
  bar_item-IsInside n h k = rw (ready, bar_item) (refl, (h, k))

  bar_items-IsInside :
      (last : ℕ) (items : List PageItem)
      → LeadsTo l.paged.pages last items
      → All (IsInsideItem l.paged.pages) (map (bar_item l) items)
  unfolding bar_item
  bar_items-IsInside last [] h = tt
  bar_items-IsInside last (page n ∷ items) (h, hs) = (
    bar_item-IsInside n (omega arith) (below_last l.paged.pages n items hs),
    bar_items-IsInside n items hs,
  )
  bar_items-IsInside last (start_ellipsis ∷ page n ∷ items) (h, hs) = (
    tt,
    (
      bar_item-IsInside n (omega arith) (below_last l.paged.pages n items hs),
      bar_items-IsInside n items hs,
    ),
  )
  bar_items-IsInside last (end_ellipsis ∷ page n ∷ items) (h, hs) = (
    tt,
    (
      bar_item-IsInside n (omega arith) (below_last l.paged.pages n items hs),
      bar_items-IsInside n items hs,
    ),
  )
  bar_items-IsInside last (start_ellipsis ∷ []) h = absurd h
  bar_items-IsInside last (end_ellipsis ∷ []) h = absurd h
  bar_items-IsInside last (start_ellipsis ∷ start_ellipsis ∷ items) h = absurd h
  bar_items-IsInside last (start_ellipsis ∷ end_ellipsis ∷ items) h = absurd h
  bar_items-IsInside last (end_ellipsis ∷ start_ellipsis ∷ items) h = absurd h
  bar_items-IsInside last (end_ellipsis ∷ end_ellipsis ∷ items) h = absurd h

  -- `l.query.page` is the page that is shown.
  module _ (at : l.paged.page ≡ l.query.page) (low : 1 ≤ l.query.page)
      (high : l.query.page ≤ l.paged.pages) where
    previous_click-IsInside :
        IsInside l.paged.pages (previous_click l)
        × ((previous_click l ≡ disabled) ↔ (l.query.page ≡ 1))
    unfolding previous_click
    previous_click-IsInside =
        let positive : (l.query.page == 0) ≡ false = ground arith in
        elim (Bool-cases (leb l.paged.page 1)) [
          | inl first ↦
              let only : l.query.page ≡ 1 = ground arith in
              rw (ready, first, previous_click) (tt, (λ h. only, λ h. refl))
          | inr later ↦
              let over : 1 < l.query.page = ground arith in
              rw (ready, later, positive, previous_click)
                ((omega arith, omega arith), (λ h. cc, λ h. absurd (omega arith)))
        ]

    next_click-IsInside :
        IsInside l.paged.pages (next_click l)
        × ((next_click l ≡ disabled) ↔ (l.query.page ≡ l.paged.pages))
    unfolding next_click
    next_click-IsInside = elim (Bool-cases (leb l.paged.pages l.paged.page)) [
      | inl at_last ↦
          let only : l.query.page ≡ l.paged.pages = ground arith in
          rw (ready, at_last, next_click) (tt, (λ h. only, λ h. refl))
      | inr earlier ↦
          let under : l.query.page < l.paged.pages = ground arith in
          rw (ready, earlier, next_click)
            ((omega arith, omega arith), (λ h. cc, λ h. absurd (omega arith)))
    ]

    bar-IsInside :
        All
          (IsInsideItem l.paged.pages)
          (map (bar_item l) (compact_page_items l.paged.page l.paged.pages))
    bar-IsInside =
        bar_items-IsInside 0 (compact_page_items l.paged.page l.paged.pages)
          (compact_page_items-LeadsTo l.paged.page l.paged.pages (omega arith) (omega arith)).0

-- The bar leads only to pages of the table, each number to the page it shows, and its first and its
-- last button are disabled exactly at the first and at the last page.
abbrev pub IsInsideBar : Listing → Click × List BarItem × Click → Type 0
IsInsideBar l (previous, items, following) =
    (IsInside l.paged.pages previous × ((previous ≡ disabled) ↔ (l.query.page ≡ 1)))
    × All (IsInsideItem l.paged.pages) items
    × (IsInside l.paged.pages following × ((following ≡ disabled) ↔ (l.query.page ≡ l.paged.pages)))

page_bar-branches :
    (l : Listing) (bar : Click × List BarItem × Click)
    → page_bar l ≡ some bar
    → (0 < l.paged.total)
      × (bar ≡ (
        previous_click l,
        map (bar_item l) (compact_page_items l.paged.page l.paged.pages),
        next_click l,
      ))
unfolding page_bar
page_bar-branches l bar e = elim (Bool-cases (ltb 0 l.paged.total)) [
  | inl full ↦ (ground arith, some-injective _ _ (sym e ∙ unfold page_bar in rw full refl))
  | inr bare ↦ let clash : none ≡ some bar = (unfold page_bar in rw bare refl) ∙ e in cc
]

page_below : (total pages n : ℕ) → not (ltb 0 total && ltb pages n) ≡ true → 0 < total → n ≤ pages
page_below total pages n h k = ground arith

module _ (serve : Query → Answer) (s : IsPaging serve) where
  settled-IsInsideBar :
      (l : Listing) (bar : Click × List BarItem × Click)
      → IsSettled serve l
      → 1 ≤ l.query.page
      → page_bar l ≡ some bar
      → IsInsideBar l bar
  settled-IsInsideBar l bar d low e =
      let (full, parts) = page_bar-branches l bar e in
      let ready : page_controls_disabled l ≡ false =
        unfold page_controls_disabled in rw d.shows refl in
      let at : l.paged.page ≡ l.query.page =
        ap (λ p. p.page) d.shows_range ∙ s.echoes l.query d.on_page in
      let high : l.query.page ≤ l.paged.pages =
        page_below l.paged.total l.paged.pages l.query.page (rw d.shows_range d.on_page) full in
      subst (IsInsideBar l) (sym parts) (
        previous_click-IsInside l ready at low high,
        bar-IsInside l ready at low high,
        next_click-IsInside l ready at low high,
      )

  set_query-page :
      (q : Query) (l : Listing) → 1 ≤ q.page → 1 ≤ l.query.page → 1 ≤ (set_query q l).query.page
  unfolding set_query load
  set_query-page q l h low = ground arith

  settle-page :
      (q : Query) (l : Listing)
      → 1 ≤ l.query.page
      → 1 ≤ (settle q (resolved (serve q)) l).query.page
  unfolding settle change_page
  settle-page q l low =
      elim (Bool-cases (ltb 0 (serve q).paged.total && ltb (serve q).paged.pages q.page)) [
        | inl behind ↦
            let some_page = s.some_page q (ground arith) in
            rw behind
              (set_query-page (record l.query { page = (serve q).paged.pages }) l some_page low)
        | inr within ↦ rw within low
      ]

  deliver_first-page :
      (ps : List Query) (l : Listing) → 1 ≤ l.query.page → 1 ≤ (deliver_first serve ps l).query.page
  unfolding deliver_first
  deliver_first-page [] l low = low
  deliver_first-page (q ∷ ps) l low = settle-page q (record l { pending = ps }) low

  deliver-page : (n : ℕ) (l : Listing) → 1 ≤ l.query.page → 1 ≤ (deliver serve n l).query.page
  unfolding deliver
  deliver-page zero l low = low
  deliver-page (suc n) l low =
      deliver-page n (deliver_first serve l.pending l) (deliver_first-page l.pending l low)

  -- If the last request that waits is for the current filter and page, which is no page below 1, and a
  -- server answers all requests in their order, whose page count depends on filter and page size only,
  -- that says which page it shows, and that has a page where it has rows, then after at most three
  -- answers for each request that waits, each button of the page bar, if there is a bar, leads to a page of
  -- the table: the numbers to the page they show; and its first and its last button are disabled exactly
  -- at the first and at the last page.
  pub deliver-IsInsideBar :
      (l : Listing) (bar : Click × List BarItem × Click)
      → LastIs l.query l.pending
      → 1 ≤ l.query.page
      → page_bar (deliver serve (3 * length l.pending) l) ≡ some bar
      → IsInsideBar (deliver serve (3 * length l.pending) l) bar
  deliver-IsInsideBar l bar w low =
      settled-IsInsideBar (deliver serve (3 * length l.pending) l) bar
        (deliver-IsSettled serve s.pages_only l w) (deliver-page (3 * length l.pending) l low)
