-- ===== src/Redeem/Delivery/Clicks.antt =====
-- Looking at a result of a batch again, by the button next to it in web/src/pages/redeem.tsx.
use mathlib.Core.List.{reverse, reverse-cons}
use cdk_system.Base.{
  ℕ, zero, suc, ◌≡◌, ◌≤◌, refl, sym, ap, ◌∙◌, true, Option, some, List, [], ◌∷◌, ◌++◌, Text, take,
  take_of_le, length, length-append, length-take-le, arith,
}
use cdk_system.Json.{Json}
use cdk_system.Storage.{Storage}
use cdk_system.Redeem.Archive.{RedeemBatchItem}
use cdk_system.Redeem.Submit.{Effect, on_success}
use cdk_system.Redeem.History.{Page, handle_redeem_success, create_history_entry}
use cdk_system.Redeem.History.Laws.{
  handle_redeem_success-history_ref, handle_redeem_success-history,
}
use cdk_system.Redeem.Delivery.{Stamps, later, deliver, view_item}
use cdk_system.Redeem.Delivery.Laws.{take-newest}

-- The same button, clicked again and again.
unfoldable pub clicks : ℕ → RedeemBatchItem → List Effect
clicks zero item = []
clicks (suc n) item = view_item item ++ clicks n item

-- Entries for one redemption, each with its own stamp.
unfoldable pub same_entries : Stamps → ℕ → Json → List Json
same_entries stamps zero result = []
same_entries stamps (suc n) result =
    create_history_entry (stamps 0).0 (stamps 0).1 result ∷ same_entries (later stamps) n result

length-same_entries :
    (stamps : Stamps) (n : ℕ) (result : Json) → length (same_entries stamps n result) ≡ n
unfolding same_entries
length-same_entries stamps zero result = refl
length-same_entries stamps (suc n) result =
    omega (arith, length-same_entries (later stamps) n result)

length-reverse : (xs : List Json) → length (reverse xs) ≡ length xs
length-reverse [] = refl
length-reverse (x ∷ xs) =
    ap length (reverse-cons x xs)
    ∙ omega (arith, length-append (reverse xs) (x ∷ []), length-reverse xs)

take-append_full : (n : ℕ) (xs ys : List Json) → length xs ≡ n → take n (xs ++ ys) ≡ xs
take-append_full zero [] ys h = refl
take-append_full zero (x ∷ xs) ys h = absurd (omega arith)
take-append_full (suc n) [] ys h = absurd (omega arith)
take-append_full (suc n) (x ∷ xs) ys h = ap (λ r. x ∷ r) (take-append_full n xs ys (omega arith))

view_item-some :
    (item : RedeemBatchItem) (result : Json)
    → item.redemption ≡ some result
    → view_item item ≡ on_success result true ∷ []
unfolding view_item
view_item-some item result h = rw h refl

module _ (parse : Text → Option Json) (stringify : Json → Text) (S : Storage) where
  -- After one more click the history shown is the one that is kept.
  clicks-history_ref :
      (n : ℕ) (stamps : Stamps) (item : RedeemBatchItem) (result : Json)
      (p : Page parse stringify S)
      → item.redemption ≡ some result
      → p.history ≡ p.history_ref
      → length p.history_ref ≤ 20
      → (deliver parse stringify S stamps (clicks n item) p).history
        ≡ take 20 (reverse (same_entries stamps n result) ++ p.history_ref)
  unfolding clicks same_entries deliver
  clicks-history_ref zero stamps item result p h e b = e ∙ sym (take_of_le 20 p.history_ref b)
  clicks-history_ref (suc n) stamps item result p h e b =
      let p' = handle_redeem_success parse stringify S (stamps 0).0 (stamps 0).1 result true p in
      let ref =
        handle_redeem_success-history_ref parse stringify S (stamps 0).0 (stamps 0).1 result true
          p in
      let shown =
        handle_redeem_success-history parse stringify S (stamps 0).0 (stamps 0).1 result true p in
      let entry : Json = create_history_entry (stamps 0).0 (stamps 0).1 result in
      let entries : List Json = same_entries (later stamps) n result in
      ap (λ es. (deliver parse stringify S stamps (es ++ clicks n item) p).history)
        (view_item-some item result h)
      ∙ (clicks-history_ref n (later stamps) item result p' h (shown ∙ sym ref)
            (rw ref (length-take-le 20 (entry ∷ p.history_ref)))
          ∙ (ap (λ r. take 20 (reverse entries ++ r)) ref
              ∙ take-newest entry entries p.history_ref))

  -- Each click on the button that shows an item of a batch again puts a further entry for its redemption
  -- into the history, so twenty clicks leave nothing else there, whatever the history held. Before,
  -- the page shows the history that it keeps, with at most 20 entries, as in every reachable state.
  pub clicks-same_entries :
      (stamps : Stamps) (item : RedeemBatchItem) (result : Json) (p : Page parse stringify S)
      → item.redemption ≡ some result
      → p.history ≡ p.history_ref
      → length p.history_ref ≤ 20
      → (deliver parse stringify S stamps (clicks 20 item) p).history
        ≡ reverse (same_entries stamps 20 result)
  clicks-same_entries stamps item result p h e b =
      clicks-history_ref 20 stamps item result p h e b
      ∙ take-append_full 20 (reverse (same_entries stamps 20 result)) p.history_ref
          (length-reverse (same_entries stamps 20 result) ∙ length-same_entries stamps 20 result)
