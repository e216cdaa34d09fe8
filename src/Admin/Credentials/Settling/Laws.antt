-- ===== src/Admin/Credentials/Settling/Laws.antt =====
-- The answers lead the list to the rows of its query: each of them costs, and little is to come.
use cdk_system.Base.{
  ℕ, zero, suc, ◌*◌, ◌≤◌, ◌<◌, ◌≡◌, refl, sym, subst, ◌∙◌, Bool, true, false, ◌&&◌, not, none, some,
  List, [], ◌∷◌, ◌++◌, length, ltb, arith, Bool-cases, ◌⊎◌, inl, inr,
}
use cdk_system.Api.{resolved}
use cdk_system.Admin.Credentials.{
  Query, Answer, Listing, load, set_query, change_page, same_query, settle,
}
use cdk_system.Admin.Credentials.Settling.{
  same_table, IsServer, LastIs, only, later, exists_page, deliver_first, deliver, IsSettled, weight,
  weights, weights-page, weights-append, weight-positive, weight-behind_same, weight-behind_other,
  weight-le, weight-exists,
}

not-true : (b : Bool) → not b ≡ true → b ≡ false
not-true b h = ground arith

not-false : (b : Bool) → not b ≡ false → b ≡ true
not-false b h = ground arith

same_table_refl : (q : Query) → same_table q q ≡ true
same_table_refl q = ground arith

last_exists : (total pages : ℕ) → not (ltb 0 total && ltb pages pages) ≡ true
last_exists total pages = ground arith

LastIs-append : (q : Query) (ps : List Query) → LastIs q (ps ++ (q ∷ []))
LastIs-append q [] = only
LastIs-append q (p ∷ ps) = later (LastIs-append q ps)

module _ (serve : Query → Answer) where
  -- After an answer either everything is settled, or the last request is for the current query again
  -- and less can be to come.
  Progress : ℕ → Listing → Type 0
  Progress w l =
      IsSettled serve l ⊎ (LastIs l.query l.pending × (weights serve l.query l.pending < w))

  settle-exists :
      (q : Query) (l : Listing)
      → exists_page serve q ≡ true
      → settle q (resolved (serve q)) l
        ≡ record l { items = some (serve q).items; paged = (serve q).paged; selected = [] }
  unfolding settle
  settle-exists q l h = rw (not-true _ h, settle) refl

  settle-behind :
      (q : Query) (l : Listing)
      → exists_page serve q ≡ false
      → settle q (resolved (serve q)) l
        ≡ set_query (record l.query { page = (serve q).paged.pages }) l
  unfolding settle change_page
  settle-behind q l h = rw (not-false _ h, settle) refl

  exists-Progress :
      (q : Query) (ps : List Query) (l : Listing)
      → exists_page serve q ≡ true
      → LastIs l.query (q ∷ ps)
      → Progress (weights serve l.query (q ∷ ps)) (deliver_first serve (q ∷ ps) l)
  unfolding Progress weights deliver_first
  exists-Progress q ps l h only =
      subst (λ m. Progress (weights serve q (q ∷ [])) m) (sym (settle-exists q _ h))
        (inl (record { none_pending = refl; shows = refl; shows_range = refl; on_page = h }))
  exists-Progress q ps l h (later w) =
      subst (λ m. Progress (weights serve l.query (q ∷ ps)) m) (sym (settle-exists q _ h))
        (inr (w, omega (arith, weight-positive serve l.query q)))

  set_query-same : (q : Query) (l : Listing) → same_query q l.query ≡ true → set_query q l ≡ l
  unfolding set_query
  set_query-same q l h = rw h refl

  set_query-other :
      (q : Query) (l : Listing)
      → same_query q l.query ≡ false
      → set_query q l ≡ record l { query = q; items = none; pending = l.pending ++ (q ∷ []) }
  unfolding set_query load
  set_query-other q l h = rw h refl

  same_page-exists :
      (q : Query)
      → same_query (record q { page = (serve q).paged.pages }) q ≡ true
      → exists_page serve q ≡ true
  unfolding same_query
  same_page-exists q h = ground arith

  -- The page that the redirection leads to.
  redirected : Query → Query → Query
  redirected c q = record c { page = (serve q).paged.pages }

module _ (serve : Query → Answer) (s : IsServer serve) where
  redirected-exists :
      (c q : Query) → same_table c q ≡ true → exists_page serve (redirected serve c q) ≡ true
  unfolding redirected
  redirected-exists c q t =
      rw (s.same_pages (redirected serve c q) q t)
        (last_exists (serve (redirected serve c q)).paged.total (serve q).paged.pages)

  redirected-weight :
      (c q : Query)
      → exists_page serve q ≡ false
      → weight serve (redirected serve c q) (redirected serve c q) < weight serve c q
  unfolding redirected
  redirected-weight c q h = elim (Bool-cases (same_table c q)) [
    | inl t ↦ omega (
      arith,
      weight-behind_same serve c q h t,
      weight-exists serve (redirected serve c q) (redirected serve c q) (redirected-exists c q t),
    )
    | inr f ↦ omega (
      arith,
      weight-behind_other serve c q h f,
      weight-le serve (redirected serve c q) (redirected serve c q)
          (same_table_refl (redirected serve c q)),
    )
  ]

  same-Progress :
      (q : Query) (ps : List Query) (l : Listing)
      → exists_page serve q ≡ false
      → LastIs l.query (q ∷ ps)
      → same_query (redirected serve l.query q) l.query ≡ true
      → Progress serve (weights serve l.query (q ∷ ps)) (record l { pending = ps })
  unfolding Progress weights redirected
  same-Progress q ps l h only e = absurd (cc (h, same_page-exists serve q e))
  same-Progress q ps l h (later w) e = inr (w, omega (arith, weight-positive serve l.query q))

  behind-Progress :
      (q : Query) (ps : List Query) (l : Listing)
      → exists_page serve q ≡ false
      → LastIs l.query (q ∷ ps)
      → Progress serve (weights serve l.query (q ∷ ps)) (deliver_first serve (q ∷ ps) l)
  unfolding Progress weights deliver_first redirected
  behind-Progress q ps l h w = elim (Bool-cases (same_query (redirected serve l.query q) l.query)) [
    | inl e ↦
        subst (λ m. Progress serve (weights serve l.query (q ∷ ps)) m)
          (sym (
            settle-behind serve q _ h
            ∙ set_query-same serve (redirected serve l.query q) (record l { pending = ps }) e))
          (same-Progress q ps l h w e)
    | inr e ↦
        subst (λ m. Progress serve (weights serve l.query (q ∷ ps)) m)
          (sym (
            settle-behind serve q _ h
            ∙ set_query-other serve (redirected serve l.query q) (record l { pending = ps }) e))
          (inr (
            LastIs-append _ ps,
            omega (
              arith,
              weights-append serve (redirected serve l.query q) ps (redirected serve l.query q),
              weights-page serve (serve q).paged.pages l.query ps,
              redirected-weight l.query q h,
            ),
          ))
  ]

  answer-Progress :
      (ps : List Query) (l : Listing)
      → LastIs l.query ps
      → Progress serve (weights serve l.query ps) (deliver_first serve ps l)
  answer-Progress [] l w = elim w [ ]
  answer-Progress (q ∷ ps) l w = elim (Bool-cases (exists_page serve q)) [
    | inl h ↦ exists-Progress serve q ps l h w
    | inr h ↦ behind-Progress q ps l h w
  ]

  IsSettled-stays : (n : ℕ) (l : Listing) → IsSettled serve l → IsSettled serve (deliver serve n l)
  unfolding deliver deliver_first
  IsSettled-stays zero l h = h
  IsSettled-stays (suc n) l h =
      subst (λ ps. IsSettled serve (deliver serve n (deliver_first serve ps l)))
        (sym h.none_pending) (IsSettled-stays n l h)

  none_left : (c : Query) (ps : List Query) → LastIs c ps → 1 ≤ weights serve c ps
  unfolding weights
  none_left c [] w = elim w [ ]
  none_left c (q ∷ ps) w = omega (arith, weight-positive serve c q)

  deliver-weights :
      (n : ℕ) (l : Listing)
      → weights serve l.query l.pending ≤ n
      → LastIs l.query l.pending
      → IsSettled serve (deliver serve n l)
  unfolding deliver Progress
  deliver-weights zero l h w = absurd (omega (arith, none_left l.query l.pending w))
  deliver-weights (suc n) l h w = elim (answer-Progress l.pending l w) [
    | inl d ↦ IsSettled-stays n _ d
    | inr (v, k) ↦ deliver-weights n _ (omega arith) v
  ]

  weights-le : (c : Query) (ps : List Query) → weights serve c ps ≤ 3 * length ps
  unfolding weights weight
  weights-le c [] = omega arith
  weights-le c (p ∷ ps) = ground (arith, weights-le c ps)

  -- If the last request that waits is for the current filter and page, as it is after every change of
  -- these, and a server whose page count depends on filter and page size only answers all requests in
  -- their order, then after at most three answers for each request that waits, the list shows the rows and
  -- the range of its current query, this page exists, and no request waits.
  pub deliver-IsSettled :
      (l : Listing)
      → LastIs l.query l.pending
      → IsSettled serve (deliver serve (3 * length l.pending) l)
  deliver-IsSettled l w = deliver-weights (3 * length l.pending) l (weights-le l.query l.pending) w
