-- ===== src/Admin/Credentials/Selection.antt =====
-- The box that selects every row of the list of credentials.
use cdk_system.Base.{
  ℕ, ◌<◌, ◌≡◌, refl, ◌∙◌, sym, subst, ◌↔◌, true, ◌&&◌, not, some, List, length, ltb, ◌==◌, arith,
  length-map, Bool-cases, inl, inr,
}
use cdk_system.Admin.Credentials.Numbers.{
  distinct, IsSetOf, IsWithin, has_of_full, length-IsWithin, has_all, has-distinct,
  distinct-IsSetOf,
}
use cdk_system.Admin.Credentials.{Credential, Listing, ids, all_selected, toggle_select_all}
use cdk_system.Admin.Credentials.Laws.{Reach, Shown, Reach-IsSoundListing}

all_selected_of :
    (l : Listing) (items : List Credential)
    → l.items ≡ some items
    → all_selected l ≡ (ltb 0 (length items) && (length l.selected == length items))
unfolding all_selected
all_selected_of l items e = rw e refl

all-IsWithin :
    (items : List Credential) (selected : List ℕ)
    → IsSetOf (ids items) × IsSetOf selected × IsWithin selected (ids items)
    → length selected ≡ length items
    → IsWithin (ids items) selected
all-IsWithin items selected (d, s, w) h = has_all (ids items) selected (λ n e.
    has_of_full selected (ids items) n s w
      (omega (arith, length-map (λ (c : Credential). c.id) items, h)) e)

full_length :
    (items : List Credential) (selected : List ℕ)
    → IsSetOf (ids items) × IsSetOf selected × IsWithin selected (ids items)
    → IsWithin (ids items) selected
    → length selected ≡ length items
full_length items selected (d, s, w) v = omega (
  arith,
  length-IsWithin selected (ids items) s w,
  length-IsWithin (ids items) selected d v,
  length-map (λ (c : Credential). c.id) items,
)

selection :
    (l : Listing) (items : List Credential)
    → Reach l
    → l.items ≡ some items
    → IsSetOf (ids items) × IsSetOf l.selected × IsWithin l.selected (ids items)
selection l items r e =
    let sound = Reach-IsSoundListing l r in
    let (d, w) = subst (λ o. Shown o l.selected) e sound.shown in (d, sound.selected_once, w)

-- In a reachable state that shows rows, the box for all rows is ticked exactly if there is a row
-- and each row is selected.
pub all_selected_iff :
    (l : Listing) (items : List Credential)
    → Reach l
    → l.items ≡ some items
    → (all_selected l ≡ true) ↔ ((0 < length items) × IsWithin (ids items) l.selected)
all_selected_iff l items r e = (
  λ h.
      let t : (ltb 0 (length items) && (length l.selected == length items)) ≡ true =
        sym (all_selected_of l items e) ∙ h in
      (ground arith, all-IsWithin items l.selected (selection l items r e) (ground arith)),
  λ (some_row, v).
      all_selected_of l items e
      ∙ (let full = full_length items l.selected (selection l items r e) v in ground arith),
)

length-distinct :
    (items : List Credential) → IsSetOf (ids items) → length (distinct (ids items)) ≡ length items
length-distinct items d =
    full_length items (distinct (ids items))
      (
        d,
        distinct-IsSetOf (ids items),
        has_all (distinct (ids items)) (ids items) (λ n h. sym (has-distinct n (ids items)) ∙ h),
      )
      (has_all (ids items) (distinct (ids items)) (λ n h. has-distinct n (ids items) ∙ h))

-- In a reachable state that shows at least one row, a click on the box for all rows turns its tick
-- over: it selects every row unless every row is selected, and then none.
pub all_selected-toggle_select_all :
    (l : Listing) (items : List Credential)
    → Reach l
    → l.items ≡ some items
    → 0 < length items
    → all_selected (toggle_select_all l) ≡ not (all_selected l)
all_selected-toggle_select_all l items r e h =
    elim (Bool-cases (length l.selected == length items)) [
      | inl full ↦ unfold toggle_select_all all_selected in rw e (ground arith)
      | inr part ↦
          let (d, s, w) = selection l items r e in
          let every = length-distinct items d in
          unfold toggle_select_all all_selected in rw e (ground arith)
    ]
