-- ===== src/Admin/Faq/Laws.antt =====
-- The order of the entries after a move.
use cdk_system.Base.{
  ℕ, suc, ◌≡◌, refl, ◌∙◌, ap, sym, Option, some, List, [], ◌∷◌, ◌++◌, length, arith, map,
  length-append,
}
use cdk_system.Api.Endpoints.{Endpoint, reorder_faq}
use cdk_system.Admin.Faq.{
  FaqItem, Page, Direction, up, down, new_index, removed, without, moved, move_items, move,
}

moved-cons :
    (i j : ℕ) (x : FaqItem) (items : List FaqItem)
    → moved (suc i) (suc j) (x ∷ items) ≡ x ∷ moved i j items
unfolding moved removed without
moved-cons i j x items = refl

moved_down :
    (before : List FaqItem) (a b : FaqItem) (after : List FaqItem)
    → moved (length before) (suc (length before)) (before ++ (a ∷ b ∷ after))
      ≡ before ++ (b ∷ a ∷ after)
moved_down [] a b after = unfold moved removed without in refl
moved_down (x ∷ before) a b after =
    moved-cons (length before) (suc (length before)) x (before ++ (a ∷ b ∷ after))
    ∙ ap (λ l. x ∷ l) (moved_down before a b after)

moved_up :
    (before : List FaqItem) (a b : FaqItem) (after : List FaqItem)
    → moved (suc (length before)) (length before) (before ++ (a ∷ b ∷ after))
      ≡ before ++ (b ∷ a ∷ after)
moved_up [] a b after = unfold moved removed without in refl
moved_up (x ∷ before) a b after =
    moved-cons (suc (length before)) (length before) x (before ++ (a ∷ b ∷ after))
    ∙ ap (λ l. x ∷ l) (moved_up before a b after)

abbrev reordered : Page → List FaqItem → Page × Option Endpoint
reordered p next = (record p { items = some next }, some (reorder_faq (map (λ i. i.id) next)))

move_of :
    (p : Page) (items : List FaqItem) (direction : Direction) (index place : ℕ)
    → p.items ≡ some items
    → new_index (length items) direction index ≡ some place
    → move index direction p ≡ reordered p (moved index place items)
unfolding move move_items
move_of p items direction index place e h = rw (e, move) (rw (h) refl)

new_index-down :
    (before : List FaqItem) (a b : FaqItem) (after : List FaqItem)
    → new_index (length (before ++ (a ∷ b ∷ after))) down (length before)
      ≡ some (suc (length before))
unfolding new_index
new_index-down before a b after = ground (arith, length-append before (a ∷ b ∷ after))

new_index-up :
    (before : List FaqItem) (a b : FaqItem) (after : List FaqItem)
    → new_index (length (before ++ (a ∷ b ∷ after))) up (suc (length before)) ≡ some (length before)
unfolding new_index
new_index-up before a b after = ground (arith, length-append before (a ∷ b ∷ after))

-- Moving an entry down, or the entry behind it up, exchanges the two and leaves all others where
-- they are, however long the list; the new order is shown at once, and the request asks for it.
pub move-exchanged :
    (p : Page) (before : List FaqItem) (a b : FaqItem) (after : List FaqItem)
    → p.items ≡ some (before ++ (a ∷ b ∷ after))
    → (move (length before) down p ≡ (
      record p { items = some (before ++ (b ∷ a ∷ after)) },
      some (reorder_faq (map (λ i. i.id) (before ++ (b ∷ a ∷ after)))),
    ))
      × (move (suc (length before)) up p ≡ move (length before) down p)
move-exchanged p before a b after e =
    let items = before ++ (a ∷ b ∷ after) in
    let lower =
      move_of p items down (length before) (suc (length before)) e (new_index-down before a b after)
      ∙ ap (reordered p) (moved_down before a b after) in
    let upper =
      move_of p items up (suc (length before)) (length before) e (new_index-up before a b after)
      ∙ ap (reordered p) (moved_up before a b after) in
    (lower, upper ∙ sym lower)
