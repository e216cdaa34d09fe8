-- ===== src/Admin/Logs/Laws.antt =====
-- What the page of records asks for.
use cdk_system.Base.{
  ℕ, ◌≡◌, ◌≢◌, true, ◌||◌, some, List, [], ◌∷◌, ◌++◌, Text, text, text_eq, text_eq_iff, is_empty,
  All, Bool-cases, inl, inr, trim, arith,
}
use mathlib.Core.Option.{some-injective}
use cdk_system.Api.{Settled, resolved, rejected}
use cdk_system.Api.Endpoints.{LogsParams}
use cdk_system.Admin.Logs.{
  Filters, Answer, Page, all_marker, chosen, Change, to_batch, to_result, to_webhook, to_user,
  to_page, reset, change, same_filters, or_undefined, answered, params_of, load, initial_page,
  set_filters, resent,
}

-- A request that names no filter by an empty text or by the marker for all.
abbrev pub IsRequest : LogsParams → Type 0
IsRequest q =
    (q.result ≢ some [])
    × (q.webhook ≢ some [])
    × (q.user_id ≢ some [])
    × (q.result ≢ some (text "__all__"))
    × (q.webhook ≢ some (text "__all__"))

abbrev IsChosen : Filters → Type 0
IsChosen f = (f.result ≢ text "__all__") × (f.webhook ≢ text "__all__")

chosen-not_all : (v : Text) → chosen v ≢ text "__all__"
unfolding chosen all_marker
chosen-not_all v = elim (Bool-cases (is_empty v || text_eq v (text "__all__"))) [
  | inl blank ↦ rw blank (λ e. unfold text in cc)
  | inr named ↦ rw named (λ e.
      let t : text_eq v (text "__all__") ≡ true = (text_eq_iff v (text "__all__")).1 e in
      ground arith)
]

or_undefined-full : (s : Text) → or_undefined s ≢ some []
or_undefined-full [] = λ e. cc
or_undefined-full (c ∷ s) = λ e. cc

or_undefined-other : (s t : Text) → s ≢ t → or_undefined s ≢ some t
or_undefined-other [] t n = λ e. cc
or_undefined-other (c ∷ s) t n = λ e. n (some-injective _ _ e)

change-IsChosen : (c : Change) (f : Filters) → IsChosen f → IsChosen (change c f)
unfolding change
change-IsChosen (to_batch v) f h = h
change-IsChosen (to_result v) f (r, w) = (chosen-not_all v, w)
change-IsChosen (to_webhook v) f (r, w) = (r, chosen-not_all v)
change-IsChosen (to_user v) f h = h
change-IsChosen (to_page n) f h = h
change-IsChosen reset f h = (λ e. unfold text in cc, λ e. unfold text in cc)

module _ (to_number : Text → ℕ) where
  -- The states of the page. A resent notification loads for the filters of an earlier state.
  pub data Reach : Page → Type 0 where
    start : Reach (initial_page to_number)
    changed : (c : Change) (p : Page) → Reach p → Reach (set_filters to_number c p)
    loaded : (a : Settled Answer) (p : Page) → Reach p → Reach (answered a p)
    resend :
        (earlier p : Page) (outcome : Settled Text)
        → Reach earlier
        → Reach p
        → Reach (resent to_number earlier.filters outcome p)

  abbrev IsSoundPage : Page → Type 0
  IsSoundPage p = IsChosen p.filters × All IsRequest p.asked

  params_of-IsRequest : (f : Filters) → IsChosen f → IsRequest (params_of to_number f)
  unfolding params_of
  params_of-IsRequest f (r, w) = (
    or_undefined-full f.result,
    or_undefined-full f.webhook,
    or_undefined-full (trim f.user_id),
    or_undefined-other f.result (text "__all__") r,
    or_undefined-other f.webhook (text "__all__") w,
  )

  All-append :
      (qs rs : List LogsParams) → All IsRequest qs → All IsRequest rs → All IsRequest (qs ++ rs)
  All-append [] rs h k = k
  All-append (q ∷ qs) rs (h, hs) k = (h, All-append qs rs hs k)

  load-asked :
      (f : Filters) (p : Page)
      → IsChosen f
      → All IsRequest p.asked
      → All IsRequest (load to_number f p).asked
  unfolding load
  load-asked f p h a = All-append p.asked _ a (params_of-IsRequest f h, tt)

  set_filters-IsSoundPage :
      (c : Change) (p : Page) → IsSoundPage p → IsSoundPage (set_filters to_number c p)
  set_filters-IsSoundPage c p (h, a) =
      elim (Bool-cases (same_filters (change c p.filters) p.filters)) [
        | inl same ↦ unfold set_filters in rw same (h, a)
        | inr other ↦
            let h' = change-IsChosen c p.filters h in
            unfold set_filters in
            rw other (
              loaded_filters (record p { filters = change c p.filters }) h',
              load-asked (change c p.filters) (record p { filters = change c p.filters }) h' a,
            )
      ]
    where
      loaded_filters :
          (q : Page) → IsChosen q.filters → IsChosen (load to_number q.filters q).filters
      loaded_filters q k = unfold load in k

  load-IsSoundPage :
      (f : Filters) (p : Page) → IsChosen f → IsSoundPage p → IsSoundPage (load to_number f p)
  load-IsSoundPage f p k (h, a) = (unfold load in h, load-asked f p k a)

  Reach-IsSoundPage : (p : Page) → Reach p → IsSoundPage p
  unfolding answered resent
  Reach-IsSoundPage p start =
      unfold initial_page load params_of in
      (
        (λ e. unfold text in cc, λ e. unfold text in cc),
        ((λ e. cc, λ e. cc, or_undefined-full (trim []), λ e. cc, λ e. cc), tt),
      )
  Reach-IsSoundPage p (changed c q r) = set_filters-IsSoundPage c q (Reach-IsSoundPage q r)
  Reach-IsSoundPage p (loaded (resolved a) q r) = Reach-IsSoundPage q r
  Reach-IsSoundPage p (loaded (rejected e) q r) = Reach-IsSoundPage q r
  Reach-IsSoundPage p (resend earlier q (rejected e) s r) = Reach-IsSoundPage q r
  Reach-IsSoundPage p (resend earlier q (resolved m) s r) =
      load-IsSoundPage earlier.filters q (Reach-IsSoundPage earlier s).0 (Reach-IsSoundPage q r)

  -- No request that the page sends, in any state that it can reach, names a filter by an empty text
  -- or by the marker that stands for all.
  pub Reach-IsRequest : (p : Page) → Reach p → All IsRequest p.asked
  Reach-IsRequest p r = (Reach-IsSoundPage p r).1
