-- ===== src/Admin/Credentials/Laws.antt =====
-- The list of credentials in every state that it can reach.
use cdk_system.Base.{
  ℕ, ◌≡◌, ◌∙◌, sym, subst, true, ◌&&◌, Option, none, some, List, [], ◌∷◌, ◌++◌, Text, length, ltb,
  ◌==◌, Every-append, arith, keep, Bool-cases, Option-cases, inl, inr, any,
}
use cdk_system.Api.{Settled, resolved, rejected}
use cdk_system.Api.Endpoints.{CredentialState}
use cdk_system.Admin.Credentials.Numbers.{
  has, remove, distinct, IsSetOf, IsWithin, remove-IsSetOf, append-IsSetOf, has-distinct,
  distinct-IsSetOf, has_all,
}
use cdk_system.Admin.Credentials.{
  Credential, Query, Answer, Listing, load, initial_listing, set_query, change_state, change_page,
  change_page_size, page_size_options, same_query, settle, toggle_select, ids, toggle_select_all,
  deleted,
}

abbrev pub HasDistinctIds : Settled Answer → Type 0
HasDistinctIds (resolved a) = IsSetOf (ids a.items)
HasDistinctIds (rejected e) = Unit

-- What a user and the server can do. A row that is toggled is shown, and the answers come from a
-- table whose ids are distinct.
pub data Step : Listing → Listing → Type 0 where
  filter_by : (s : CredentialState) (l : Listing) → Step l (change_state s l)
  go_to : (n : ℕ) (l : Listing) → Step l (change_page n l)
  resize : (n : ℕ) (l : Listing) → Step l (change_page_size n l)
  answer :
      (l : Listing) (before after : List Query) (q : Query) (a : Settled Answer)
      → l.pending ≡ before ++ (q ∷ after)
      → HasDistinctIds a
      → Step l (settle q a (record l { pending = before ++ after }))
  toggle :
      (l : Listing) (items : List Credential) (id : ℕ)
      → l.items ≡ some items
      → has id (ids items) ≡ true
      → Step l (toggle_select id l)
  toggle_all : (l : Listing) → Step l (toggle_select_all l)
  delete : (q : Query) (l : Listing) (outcome : Settled Text) → Step l (deleted q outcome l)

pub data Reach : Listing → Type 0 where
  start : Reach initial_listing
  next : {l m : Listing} → Reach l → Step l m → Reach m

-- The rows that are shown have distinct ids, and what is selected is among them.
abbrev pub Shown : Option (List Credential) → List ℕ → Type 0
Shown none selected = Unit
Shown (some items) selected = IsSetOf (ids items) × IsWithin selected (ids items)

pub record IsSoundListing (l : Listing) : Type 0 where
  pub selected_once : IsSetOf l.selected
  pub shown : Shown l.items l.selected

load-IsSound : (q : Query) (l : Listing) → IsSetOf l.selected → IsSoundListing (load q l)
unfolding load
load-IsSound q l s = record { selected_once = s; shown = tt }

set_query-IsSound : (q : Query) (l : Listing) → IsSoundListing l → IsSoundListing (set_query q l)
set_query-IsSound q l s = elim (Bool-cases (same_query q l.query)) [
  | inl same ↦ unfold set_query in rw same s
  | inr other ↦
      unfold set_query in rw other (load-IsSound q (record l { query = q }) s.selected_once)
]

with_pending-IsSound :
    (l : Listing) (p : List Query) → IsSoundListing l → IsSoundListing (record l { pending = p })
with_pending-IsSound l p s = record { selected_once = s.selected_once; shown = s.shown }

settle-IsSound :
    (q : Query) (a : Settled Answer) (l : Listing)
    → HasDistinctIds a
    → IsSoundListing l
    → IsSoundListing (settle q a l)
settle-IsSound q (rejected e) l d s = unfold settle in s
settle-IsSound q (resolved a) l d s =
    elim (Bool-cases (ltb 0 a.paged.total && ltb a.paged.pages q.page)) [
      | inl behind ↦
          unfold settle change_page in
          rw behind (set_query-IsSound (record l.query { page = a.paged.pages }) l s)
      | inr within ↦ unfold settle in rw within (record { selected_once = tt; shown = (d, tt) })
    ]

IsWithin-remove_from : (n : ℕ) (ns ms : List ℕ) → IsWithin ns ms → IsWithin (remove n ns) ms
unfolding remove keep
IsWithin-remove_from n [] ms w = tt
IsWithin-remove_from n (k ∷ ns) ms (w, ws) = ground (arith, IsWithin-remove_from n ns ms ws)

toggle-IsSound :
    (l : Listing) (items : List Credential) (id : ℕ)
    → l.items ≡ some items
    → has id (ids items) ≡ true
    → IsSoundListing l
    → IsSoundListing (toggle_select id l)
unfolding toggle_select
toggle-IsSound l items id e h s =
    let (d, w) = subst (λ o. Shown o l.selected) e s.shown in
    elim (Bool-cases (has id l.selected)) [
      | inl old ↦
          rw (old, toggle_select)
            (record {
              selected_once = remove-IsSetOf id l.selected s.selected_once;
              shown = rw e (d, IsWithin-remove_from id l.selected (ids items) w);
            })
      | inr new ↦
          rw (new, toggle_select)
            (record {
              selected_once = append-IsSetOf id l.selected s.selected_once new;
              shown =
                  rw e (d, Every-append (λ n. has n (ids items)) l.selected (id ∷ []) w (h, tt));
            })
    ]

toggle_all-IsSound : (l : Listing) → IsSoundListing l → IsSoundListing (toggle_select_all l)
unfolding toggle_select_all
toggle_all-IsSound l s = elim (Option-cases l.items) [
  | inl loading ↦ rw (loading, toggle_select_all) s
  | inr (items, e) ↦
      let (d, w) = subst (λ o. Shown o l.selected) e s.shown in
      elim (Bool-cases ((length l.selected == length items) && ltb 0 (length items))) [
        | inl every ↦
            rw (e, every, toggle_select_all) (record { selected_once = tt; shown = rw e (d, tt) })
        | inr some_left ↦
            rw (e, some_left, toggle_select_all)
              (record {
                selected_once = distinct-IsSetOf (ids items);
                shown = rw e (
                  d,
                  has_all (distinct (ids items)) (ids items)
                      (λ n h. sym (has-distinct n (ids items)) ∙ h),
                );
              })
      ]
]

resize-IsSound : (n : ℕ) (l : Listing) → IsSoundListing l → IsSoundListing (change_page_size n l)
resize-IsSound n l s = elim (Bool-cases (any (λ option. n == option) page_size_options)) [
  | inl listed ↦
      unfold change_page_size in
      rw listed (set_query-IsSound (record l.query { page_size = n; page = 1 }) l s)
  | inr unlisted ↦ unfold change_page_size in rw unlisted s
]

Step-IsSound : {l m : Listing} → Step l m → IsSoundListing l → IsSoundListing m
unfolding change_state change_page change_page_size deleted
Step-IsSound (filter_by st l) s = set_query-IsSound (record l.query { state = st; page = 1 }) l s
Step-IsSound (go_to n l) s = set_query-IsSound (record l.query { page = n }) l s
Step-IsSound (resize n l) s = resize-IsSound n l s
Step-IsSound (answer l before after q a e d) s =
    settle-IsSound q a (record l { pending = before ++ after }) d
      (with_pending-IsSound l (before ++ after) s)
Step-IsSound (toggle l items id e h) s = toggle-IsSound l items id e h s
Step-IsSound (toggle_all l) s = toggle_all-IsSound l s
Step-IsSound (delete q l (resolved message)) s = load-IsSound q l s.selected_once
Step-IsSound (delete q l (rejected e)) s = s

-- In every reachable state no id is selected twice, and while rows are shown only ids of shown rows
-- are selected, whatever the order of the answers.
pub Reach-IsSoundListing : (l : Listing) → Reach l → IsSoundListing l
Reach-IsSoundListing l start = unfold initial_listing in load-IsSound _ _ tt
Reach-IsSoundListing l (next {l = k} r st) = Step-IsSound st (Reach-IsSoundListing k r)
