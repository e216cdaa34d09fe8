-- ===== src/Admin/Logs/Answers.antt =====
-- Which records web/src/pages/admin/logs.tsx shows when its requests are answered in their order.
use cdk_system.Base.{ℕ, ◌≡◌, refl, ◌∙◌, sym, subst, false, some, List, [], ◌∷◌, ◌++◌, Text}
use cdk_system.Api.{Settled, resolved, rejected}
use cdk_system.Api.Endpoints.{LogsParams}
use cdk_system.Admin.Logs.{
  Filters, Answer, Page, Change, change, same_filters, answered, params_of, load, set_filters,
  resent,
}

module _ (serve : LogsParams → Settled Answer) where
  -- The requests are answered, one after the other.
  unfoldable pub answer_all : List LogsParams → Page → Page
  answer_all [] p = p
  answer_all (q ∷ qs) p = answer_all qs (answered (serve q) p)

  answer_all-last :
      (before : List LogsParams) (q : LogsParams) (a : Answer) (p : Page)
      → serve q ≡ resolved a
      → ((answer_all (before ++ (q ∷ [])) p).logs ≡ some a.logs)
        × ((answer_all (before ++ (q ∷ [])) p).paged ≡ a.paged)
  unfolding answer_all answered
  answer_all-last [] q a p h = rw h (refl, refl)
  answer_all-last (b ∷ before) q a p h = answer_all-last before q a (answered (serve b) p) h

  answered-filters : (s : Settled Answer) (p : Page) → (answered s p).filters ≡ p.filters
  unfolding answered
  answered-filters (resolved a) p = refl
  answered-filters (rejected e) p = refl

  answer_all-filters : (qs : List LogsParams) (p : Page) → (answer_all qs p).filters ≡ p.filters
  unfolding answer_all
  answer_all-filters [] p = refl
  answer_all-filters (q ∷ qs) p =
      answer_all-filters qs (answered (serve q) p) ∙ answered-filters (serve q) p

module _ (to_number : Text → ℕ) (serve : LogsParams → Settled Answer) where
  -- The page when all that it has asked for is answered.
  abbrev pub settled : Page → Page
  settled p = answer_all serve p.asked p

  -- The page shows the records and the range of these filters.
  pub record Shows (f : Filters) (a : Answer) (p : Page) : Type 0 where
    pub asked_for : serve (params_of to_number f) ≡ resolved a
    pub logs : p.logs ≡ some a.logs
    pub paged : p.paged ≡ a.paged

  load-Shows :
      (f : Filters) (a : Answer) (p : Page)
      → serve (params_of to_number f) ≡ resolved a
      → Shows f a (settled (load to_number f p))
        × ((settled (load to_number f p)).filters ≡ p.filters)
  unfolding load
  load-Shows f a p h =
      let (logs, paged) = answer_all-last serve p.asked (params_of to_number f) a _ h in
      (
        record { asked_for = h; logs = logs; paged = paged },
        answer_all-filters serve (p.asked ++ (params_of to_number f ∷ [])) _,
      )

  set_filters-load :
      (c : Change) (p : Page)
      → same_filters (change c p.filters) p.filters ≡ false
      → set_filters to_number c p
        ≡ load to_number (change c p.filters) (record p { filters = change c p.filters })
  unfolding set_filters
  set_filters-load c p other = rw other refl

  -- After a change of the filters, when all requests are answered in their order, whatever the earlier
  -- answers are, the page shows the records of its new filters if the request for these succeeds. If
  -- then a notification that was resent before the change makes the page load again, it shows the records
  -- of the filters of that time instead, and its filters stay the new ones.
  pub settled-set_filters :
      (c : Change) (p : Page) (a : Answer) (earlier : Filters) (b : Answer) (message : Text)
      → same_filters (change c p.filters) p.filters ≡ false
      → serve (params_of to_number (change c p.filters)) ≡ resolved a
      → serve (params_of to_number earlier) ≡ resolved b
      → let q = set_filters to_number c p in
        let r = resent to_number earlier (resolved message) q in
        (Shows q.filters a (settled q) × ((settled q).filters ≡ change c p.filters))
        × Shows earlier b (settled r)
        × ((settled r).filters ≡ change c p.filters)
  unfolding resent
  settled-set_filters c p a earlier b message other h k =
      let next : Page = record p { filters = change c p.filters } in
      let (shown, kept) = load-Shows (change c p.filters) a next h in
      let loading : Page = load to_number (change c p.filters) next in
      let (stale, still) = load-Shows earlier b loading k in
      let chosen_filters : loading.filters ≡ change c p.filters = unfold load in refl in
      rw (set_filters-load c p other) (
        (subst (λ f. Shows f a (settled loading)) (sym chosen_filters) shown, kept),
        stale,
        still ∙ chosen_filters,
      )
