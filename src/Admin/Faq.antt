-- ===== src/Admin/Faq.antt =====
-- The administration of the redemption notes, web/src/pages/admin/faq.tsx: its form, and the order of
-- the entries, which is shown before the server confirms it.
pub mod Laws
pub mod Shown
pub mod Arrows
use cdk_system.Base.{
  ℕ, zero, suc, ◌+◌, ◌-◌, Bool, true, false, ◌||◌, not, Option, none, some, List, [], ◌∷◌, ◌++◌,
  map, Text, text, trim, length, take, drop, ltb, leb, ◌==◌, is_empty, if◌then◌else◌,
}
use cdk_system.Api.{Settled, resolved, rejected, Failure, api_message}
use cdk_system.Api.Endpoints.{Endpoint, FaqInput, create_faq, update_faq, delete_faq, reorder_faq}

-- `FaqItem`.
pub record FaqItem : Type 0 where
  pub id : ℕ
  pub sort_order : ℕ
  pub title : Text
  pub content : Text
  pub created_at : Text

-- `FormState`.
pub record FormState : Type 0 where
  pub shown : Bool
  pub item : Option FaqItem
  pub title : Text
  pub content : Text

pub record Page : Type 0 where
  pub items : Option (List FaqItem)
  pub form : FormState

unfoldable pub initial_page : Page
initial_page = record {
  items = none;
  form = record { shown = false; item = none; title = []; content = [] };
}

-- `load`, from the answer on.
unfoldable pub loaded : Settled (List FaqItem) → Page → Page
loaded (resolved items) p = record p { items = some items }
loaded (rejected e) p = p

unfoldable pub open_create : Page → Page
open_create p = record p { form = record { shown = true; item = none; title = []; content = [] } }

unfoldable pub open_edit : FaqItem → Page → Page
open_edit item p = record p {
  form = record { shown = true; item = some item; title = item.title; content = item.content };
}

unfoldable pub close_form : Page → Page
close_form p = record p { form = record p.form { shown = false } }

abbrev save_endpoint : Option FaqItem → FaqInput → Endpoint
save_endpoint none input = create_faq input
save_endpoint (some item) input = update_faq item.id input

-- `handleSave` up to its request, none for the notice that a text is missing.
unfoldable pub handle_save : Page → Option Endpoint
handle_save p =
    if is_empty (trim p.form.title) || is_empty (trim p.form.content)
    then none
    else some (
        save_endpoint p.form.item
          (record { title = trim p.form.title; content = trim p.form.content }))

-- `handleSave` from the answer on; the box says whether it loads the entries again.
unfoldable pub saved : Settled Text → Page → Bool × Page
saved (resolved message) p = (true, close_form p)
saved (rejected e) p = (false, p)

pub data Direction : Type 0 where
  up down : Direction

-- `newIndex` and its test; none is an index that the list does not have.
unfoldable pub new_index : ℕ → Direction → ℕ → Option ℕ
new_index count Direction.up zero = none
new_index count Direction.up (suc i) = if leb count i then none else some i
new_index count Direction.down i = if leb count (suc i) then none else some (suc i)

-- `next.splice(index, 1)`: what is removed, and what is left. Behind the list nothing is removed; no
-- button of the page has such an index.
unfoldable pub removed : ℕ → List FaqItem → List FaqItem
removed index items = take 1 (drop index items)

unfoldable pub without : ℕ → List FaqItem → List FaqItem
without index items = take index items ++ drop (suc index) items

-- Both calls of `splice`: the second one puts what was removed in at its new place. Each call takes
-- out at most what is there, and puts in at the end what stands behind it.
unfoldable pub moved : ℕ → ℕ → List FaqItem → List FaqItem
moved index place items =
    take place (without index items) ++ (removed index items ++ drop place (without index items))

-- `move` on a list that is there: the new order, which is shown, and the request for it.
unfoldable pub move_items : ℕ → Direction → List FaqItem → Option (List FaqItem)
move_items index direction items = elim (new_index (length items) direction index) [
  | none ↦ none
  | some place ↦ some (moved index place items)
]

unfoldable pub move : ℕ → Direction → Page → Page × Option Endpoint
move index direction p = elim p.items [
  | none ↦ (p, none)
  | some items ↦ elim (move_items index direction items) [
    | none ↦ (p, none)
    | some next ↦ (record p { items = some next }, some (reorder_faq (map (λ i. i.id) next)))
  ]
]
