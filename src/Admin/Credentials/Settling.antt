-- ===== src/Admin/Credentials/Settling.antt =====
-- What the list of credentials comes to when a server answers its requests in their order, from a
-- table that does not change (web/src/pages/admin/credentials.tsx: load).
pub mod Laws
pub mod Leads
use cdk_system.Base.{
  ℕ, zero, suc, ◌+◌, ◌*◌, ◌≤◌, ◌<◌, ◌≡◌, refl, sym, ap, subst, ◌∙◌, Bool, true, false, ◌&&◌, not,
  none, some, List, [], ◌∷◌, ◌++◌, length, ltb, ◌==◌, if◌then◌else◌, arith, Bool-cases, ◌⊎◌, inl,
  inr,
}
use cdk_system.Api.{resolved}
use cdk_system.Admin.Credentials.{
  Query, Answer, Listing, load, set_query, change_page, same_query, settle, state_code,
}

-- Both queries ask for pages of the same list.
abbrev pub same_table : Query → Query → Bool
same_table p q = (state_code p.state == state_code q.state) && (p.page_size == q.page_size)

-- A server whose page count depends on the filter and the page size only.
pub record IsServer (serve : Query → Answer) : Type 0 where
  pub same_pages :
      (p q : Query) → same_table p q ≡ true → (serve p).paged.pages ≡ (serve q).paged.pages

-- The last of the requests.
pub data LastIs (q : Query) : List Query → Type 0 where
  only : LastIs q (q ∷ [])
  later : {p : Query} {ps : List Query} → LastIs q ps → LastIs q (p ∷ ps)

module _ (serve : Query → Answer) where
  -- The page does not lie behind the last one.
  abbrev pub exists_page : Query → Bool
  exists_page q = not (ltb 0 (serve q).paged.total && ltb (serve q).paged.pages q.page)

  -- The first request that waits is answered.
  unfoldable pub deliver_first : List Query → Listing → Listing
  deliver_first [] l = l
  deliver_first (q ∷ ps) l = settle q (resolved (serve q)) (record l { pending = ps })

  unfoldable pub deliver : ℕ → Listing → Listing
  deliver zero l = l
  deliver (suc n) l = deliver n (deliver_first l.pending l)

  -- The list shows the rows of its query, a page that exists, and nothing is awaited.
  pub record IsSettled (l : Listing) : Type 0 where
    pub none_pending : l.pending ≡ []
    pub shows : l.items ≡ some (serve l.query).items
    pub shows_range : l.paged ≡ (serve l.query).paged
    pub on_page : exists_page l.query ≡ true

  -- How many answers a request can still cost: a page behind the last one leads to another request.
  unfoldable pub weight : Query → Query → ℕ
  weight current q = if exists_page q then 1 else if same_table current q then 2 else 3

  unfoldable pub weights : Query → List Query → ℕ
  weights current [] = 0
  weights current (q ∷ ps) = weight current q + weights current ps

  pub weights-page :
      (n : ℕ) (q : Query) (ps : List Query) → weights (record q { page = n }) ps ≡ weights q ps
  unfolding weights weight
  weights-page n q [] = refl
  weights-page n q (p ∷ ps) = ap (λ w. weight q p + w) (weights-page n q ps)

  pub weights-append :
      (c : Query) (ps : List Query) (q : Query)
      → weights c (ps ++ (q ∷ [])) ≡ weights c ps + weight c q
  unfolding weights
  weights-append c [] q = omega arith
  weights-append c (p ∷ ps) q = omega (arith, weights-append c ps q)

  pub weight-positive : (c q : Query) → 1 ≤ weight c q
  unfolding weight
  weight-positive c q = ground arith

  pub weight-behind_same :
      (c q : Query) → exists_page q ≡ false → same_table c q ≡ true → weight c q ≡ 2
  unfolding weight
  weight-behind_same c q h t = rw (h, t) refl

  pub weight-behind_other :
      (c q : Query) → exists_page q ≡ false → same_table c q ≡ false → weight c q ≡ 3
  unfolding weight
  weight-behind_other c q h f = rw (h, f) refl

  pub weight-le : (c q : Query) → same_table c q ≡ true → weight c q ≤ 2
  unfolding weight
  weight-le c q h = ground arith

  pub weight-exists : (c q : Query) → exists_page q ≡ true → weight c q ≡ 1
  unfolding weight
  weight-exists c q h = rw h refl
