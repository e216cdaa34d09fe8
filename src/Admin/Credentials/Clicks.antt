-- ===== src/Admin/Credentials/Clicks.antt =====
-- The selection of rows in the list of credentials, web/src/pages/admin/credentials.tsx, as a set: what
-- any number of clicks comes to.
use cdk_system.Base.{
  ℕ, ◌≡◌, refl, ◌∙◌, ap, Bool, true, false, ◌&&◌, not, none, some, Option, List, [], ◌∷◌, length,
  ltb, ◌==◌, ==_iff, all, all-Every, Every-all, All, is_empty, if◌then◌else◌, arith, Bool-cases,
  inl, inr,
}
use mathlib.Core.Path.{fun_ext}
use cdk_system.Admin.Credentials.Numbers.{has, remove, has-remove, has-append, has-distinct}
use cdk_system.Admin.Credentials.{
  Credential, Listing, ids, toggle_select, toggle_select_all, all_selected, batch_delete,
}
use cdk_system.Admin.Credentials.Laws.{Reach, next, toggle, toggle_all}
use cdk_system.Admin.Credentials.Selection.{all_selected_iff}

-- A click on the box of a row, or on the box for all rows.
pub data Box : Type 0 where
  row : ℕ → Box
  every_row : Box

unfoldable pub click : Box → Listing → Listing
click (row id) l = toggle_select id l
click every_row l = toggle_select_all l

unfoldable pub clicks : List Box → Listing → Listing
clicks [] l = l
clicks (b ∷ bs) l = clicks bs (click b l)

-- The same on sets of numbers: a row is put in or taken out, all rows are put in unless all are in.
abbrev pub NumberSet : Type 0
NumberSet = ℕ → Bool

abbrev pub set_of : List ℕ → NumberSet
set_of ns n = has n ns

unfoldable pub changed : List ℕ → Box → NumberSet → NumberSet
changed rows (row id) s n = if n == id then not (s n) else s n
changed rows every_row s n = if all s rows then false else has n rows

unfoldable pub replay : List ℕ → List Box → NumberSet → NumberSet
replay rows [] s = s
replay rows (b ∷ bs) s = replay rows bs (changed rows b s)

-- The boxes of rows belong to rows that are shown.
abbrev pub IsShown : List ℕ → Box → Type 0
IsShown rows (row id) = has id rows ≡ true
IsShown rows every_row = Unit

-- The ids that a deletion of the selection sends.
abbrev pub sent_ids : Option (List ℕ) → List ℕ
sent_ids none = []
sent_ids (some ns) = ns

sent_ids-batch_delete : (l : Listing) → sent_ids (batch_delete l) ≡ l.selected
unfolding batch_delete
sent_ids-batch_delete l = by_selected l.selected
  where
    by_selected : (ns : List ℕ) → sent_ids (if is_empty ns then none else some ns) ≡ ns
    by_selected [] = refl
    by_selected (n ∷ ns) = refl

toggled :
    (id n : ℕ) (ns : List ℕ)
    → (has id ns ≡ true → has n (remove id ns) ≡ (if n == id then not (has n ns) else has n ns))
toggled id n ns h = ground (arith, has-remove id n ns, ==_iff n id)

toggle_select-changed :
    (rows : List ℕ) (id : ℕ) (l : Listing) (n : ℕ)
    → has n (toggle_select id l).selected ≡ changed rows (row id) (set_of l.selected) n
unfolding toggle_select changed
toggle_select-changed rows id l n = elim (Bool-cases (has id l.selected)) [
  | inl old ↦ rw (old, toggle_select) (toggled id n l.selected old)
  | inr new ↦ rw (new, toggle_select) (has-append n id l.selected ∙ ground (arith, ==_iff n id))
]

full_of :
    (l : Listing) (items : List Credential)
    → l.items ≡ some items
    → ((length l.selected == length items) && ltb 0 (length items)) ≡ all_selected l
unfolding all_selected
full_of l items e = rw e (ground arith)

no_row :
    (l : Listing) (items : List Credential)
    → Reach l
    → l.items ≡ some items
    → all_selected l ≡ false
    → all (set_of l.selected) (ids items) ≡ true
    → (n : ℕ) → has n (ids items) ≡ false
unfolding has
no_row l [] r e part every n = refl
no_row l (c ∷ items) r e part every n =
    let ticked =
      (all_selected_iff l (c ∷ items) r e).1
        (omega arith, all-Every (set_of l.selected) (ids (c ∷ items)) every) in
    absurd (cc (part, ticked))

toggle_select_all-changed :
    (l : Listing) (items : List Credential)
    → Reach l
    → l.items ≡ some items
    → (n : ℕ)
    → has n (toggle_select_all l).selected ≡ changed (ids items) every_row (set_of l.selected) n
unfolding changed
toggle_select_all-changed l items r e n = elim (Bool-cases (all_selected l)) [
  | inl full ↦
      let every =
        Every-all (set_of l.selected) (ids items) ((all_selected_iff l items r e).0 full).1 in
      rw every (unfold toggle_select_all has in rw (e, full_of l items e, full) refl)
  | inr part ↦
      let kept : has n (toggle_select_all l).selected ≡ has n (ids items) =
        unfold toggle_select_all in rw (e, full_of l items e, part) (has-distinct n (ids items)) in
      elim (Bool-cases (all (set_of l.selected) (ids items))) [
        | inl every ↦ rw every (kept ∙ no_row l items r e part every n)
        | inr some_left ↦ rw some_left kept
      ]
]

click-items :
    (b : Box) (l : Listing) (items : List Credential)
    → l.items ≡ some items
    → (click b l).items ≡ some items
unfolding click toggle_select toggle_select_all
click-items (row id) l items e = e
click-items every_row l items e = elim (Bool-cases (all_selected l)) [
  | inl full ↦ rw (e, full_of l items e, full, toggle_select_all) e
  | inr part ↦ rw (e, full_of l items e, part, toggle_select_all) e
]

click-changed :
    (b : Box) (l : Listing) (items : List Credential)
    → Reach l
    → l.items ≡ some items
    → set_of (click b l).selected ≡ changed (ids items) b (set_of l.selected)
unfolding click
click-changed (row id) l items r e = fun_ext (toggle_select-changed (ids items) id l)
click-changed every_row l items r e = fun_ext (toggle_select_all-changed l items r e)

click-Reach :
    (b : Box) (l : Listing) (items : List Credential)
    → Reach l
    → l.items ≡ some items
    → IsShown (ids items) b
    → Reach (click b l)
unfolding click
click-Reach (row id) l items r e h = next r (toggle l items id e h)
click-Reach every_row l items r e h = next r (toggle_all l)

-- In a reachable state that shows rows, any clicks on boxes of these rows and on the box for all rows
-- select the set of rows that they select on sets, and a deletion then sends exactly this set.
pub clicks-replay :
    (bs : List Box) (l : Listing) (items : List Credential)
    → Reach l
    → l.items ≡ some items
    → All (IsShown (ids items)) bs
    → (set_of (clicks bs l).selected ≡ replay (ids items) bs (set_of l.selected))
      × (set_of (sent_ids (batch_delete (clicks bs l))) ≡ replay (ids items) bs (set_of l.selected))
unfolding clicks replay
clicks-replay [] l items r e shown = (refl, ap set_of (sent_ids-batch_delete l))
clicks-replay (b ∷ bs) l items r e (h, hs) =
    rw (← click-changed b l items r e) (
      clicks-replay bs (click b l) items (click-Reach b l items r e h) (click-items b l items e) hs)
