-- ===== src/Admin/Faq/Arrows.antt =====
-- The two arrows of each note in web/src/pages/admin/faq.tsx, against what `move` does.
use cdk_system.Base.{
  ℕ, zero, suc, ◌+◌, ◌<◌, ◌≡◌, refl, ◌∙◌, sym, ap, not, some, List, [], ◌∷◌, length, get_elem?,
  ◌==◌, is_some, arith, Option-cases, inl, inr, none, Bool, true, false, ◌↔◌,
}
use mathlib.Core.Bool.{false≢true}
use mathlib.Core.Option.{some-injective}
use cdk_system.Admin.Faq.{FaqItem, Page, Direction, up, down, new_index, move_items, move}
use cdk_system.Admin.Faq.Shown.{NoteRow, note_row, note_rows}

note_row_of :
    (count start index : ℕ) (items : List FaqItem) (row : NoteRow)
    → get_elem? (note_rows count start items) index ≡ some row
    → (item : FaqItem) × (row ≡ note_row count (start + index) item) × (index < length items)
unfolding note_rows
note_row_of count start index [] row h = cc
note_row_of count start zero (item ∷ items) row h =
    (item, sym (some-injective _ _ h) ∙ ap (λ k. note_row count k item) (omega arith), omega arith)
note_row_of count start (suc index) (item ∷ items) row h =
    let (other, e, l) = note_row_of count (suc start) index items row h in
    (other, e ∙ ap (λ k. note_row count k other) (omega arith), omega arith)

move_of_none :
    (p : Page) (items : List FaqItem) (direction : Direction) (index : ℕ)
    → p.items ≡ some items
    → new_index (length items) direction index ≡ none
    → move index direction p ≡ (p, none)
unfolding move move_items
move_of_none p items direction index e stays = simp (e, move_items, stays, move)

is_some-move :
    (p : Page) (items : List FaqItem) (direction : Direction) (index place : ℕ)
    → p.items ≡ some items
    → new_index (length items) direction index ≡ some place
    → is_some (move index direction p).1 ≡ true
unfolding move move_items
is_some-move p items direction index place e moves = rw (e, moves, move) refl

true_of_off : (b : Bool) → not b ≡ false → b ≡ true
true_of_off true h = refl
true_of_off false h = absurd (false≢true (sym h))

-- A move leaves the page as it is exactly if it has no place to move to.
move_iff :
    (p : Page) (items : List FaqItem) (direction : Direction) (index : ℕ) (disabled : Bool)
    → p.items ≡ some items
    → is_some (new_index (length items) direction index) ≡ not disabled
    → (disabled ≡ true) ↔ (move index direction p ≡ (p, none))
move_iff p items direction index disabled e h =
    elim (Option-cases (new_index (length items) direction index)) [
      | inl stays ↦
          let off : not disabled ≡ false = sym h ∙ ap is_some stays in
          (λ d. move_of_none p items direction index e stays, λ same. true_of_off disabled off)
      | inr (place, moves) ↦
          let on : not disabled ≡ true = sym h ∙ ap is_some moves in
          (
            λ d. absurd (false≢true (ap not (sym d) ∙ on)),
            λ same. absurd (
                false≢true (
                  sym (ap (λ x. is_some x.1) same)
                  ∙ is_some-move p items direction index place e moves)),
          )
    ]

is_some-new_index-up :
    (count index : ℕ) → index < count → is_some (new_index count up index) ≡ not (index == 0)
unfolding new_index
is_some-new_index-up count zero h = refl
is_some-new_index-up count (suc index) h = ground arith

is_some-new_index-down :
    (count index : ℕ)
    → index < count
    → is_some (new_index count down index) ≡ not (index + 1 == count)
unfolding new_index
is_some-new_index-down count index h = ground arith

-- An arrow of a note that is shown is disabled exactly if a move of this note in its direction leaves
-- the whole page as it is and makes no request.
pub move-note_rows :
    (p : Page) (items : List FaqItem) (index : ℕ) (row : NoteRow)
    → p.items ≡ some items
    → get_elem? (note_rows (length items) 0 items) index ≡ some row
    → ((row.up_disabled ≡ true) ↔ (move index up p ≡ (p, none)))
      × ((row.down_disabled ≡ true) ↔ (move index down p ≡ (p, none)))
unfolding note_row
move-note_rows p items index row e h =
    let (item, e', l) = note_row_of (length items) 0 index items row h in
    let shown : row ≡ note_row (length items) index item =
      e' ∙ ap (λ k. note_row (length items) k item) (omega arith) in
    (
      move_iff p items up index row.up_disabled e
          (is_some-new_index-up (length items) index l ∙ ap (λ r. not r.up_disabled) (sym shown)),
      move_iff p items down index row.down_disabled e (
          is_some-new_index-down (length items) index l
          ∙ ap (λ r. not r.down_disabled) (sym shown)),
    )
