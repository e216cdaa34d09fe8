-- ===== src/Redeem/Delivery/Laws.antt =====
-- The history after a redemption of several codes.
use mathlib.Core.List.{reverse, reverse-cons, append_assoc, append-nil}
use cdk_system.Base.{
  ℕ, zero, suc, ◌≤◌, decimal, text, ◌≡◌, ◌⊎◌, length-take-le, refl, sym, ap, ◌∙◌, false, Option,
  none, some, List, [], ◌∷◌, ◌++◌, Text, take, length, take_of_le, arith, ltb, ◌==◌, Bool-cases,
  Option-cases, inl, inr,
}
use cdk_system.Json.{Json}
use cdk_system.Storage.{Storage}
use cdk_system.Api.{resolved}
use cdk_system.Redeem.Archive.{RedeemBatchItem}
use cdk_system.Redeem.Submit.{
  toast_success, RedeemBatchResponse, Tab, redeem_batch_settled, report_all,
}
use cdk_system.Redeem.History.{Page, handle_redeem_success, create_history_entry}
use cdk_system.Redeem.History.Laws.{
  handle_redeem_success-history_ref, handle_redeem_success-history,
  handle_redeem_success-selected_result,
}
use cdk_system.Redeem.Delivery.{Stamps, later, deliver}

-- The entries of the items that were redeemed, each with its stamp.
unfoldable pub new_entries : Stamps → List RedeemBatchItem → List Json
new_entries stamps [] = []
new_entries stamps (item ∷ items) = elim item.redemption [
  | none ↦ new_entries stamps items
  | some result ↦
      create_history_entry (stamps 0).0 (stamps 0).1 result ∷ new_entries (later stamps) items
]

take-append_take :
    (n m : ℕ) (xs ys : List Json) → n ≤ m → take n (xs ++ take m ys) ≡ take n (xs ++ ys)
take-append_take zero m xs ys h = refl
take-append_take (suc n) m (x ∷ xs) ys h =
    ap (λ r. x ∷ r) (take-append_take n m xs ys (omega arith))
take-append_take (suc n) zero [] ys h = absurd (omega arith)
take-append_take (suc n) (suc m) [] [] h = refl
take-append_take (suc n) (suc m) [] (y ∷ ys) h =
    ap (λ r. y ∷ r) (take-append_take n m [] ys (omega arith))

-- A new entry in front, then others in front of it.
pub take-newest :
    (e : Json) (es h : List Json)
    → take 20 (reverse es ++ take 20 (e ∷ h)) ≡ take 20 (reverse (e ∷ es) ++ h)
take-newest e es h =
    take-append_take 20 20 (reverse es) (e ∷ h) (omega arith)
    ∙ ap (take 20)
        (sym (ap (λ r. r ++ h) (reverse-cons e es) ∙ append_assoc (reverse es) (e ∷ []) h))

-- A batch hands on its redemptions, and perhaps shows a message.
batch_effects :
    (answer : RedeemBatchResponse) (t : Tab)
    → ((redeem_batch_settled (resolved answer) t).1 ≡ report_all answer.results)
      ⊎ ((message : Text) × ((redeem_batch_settled (resolved answer) t).1
            ≡ report_all answer.results ++ (toast_success message ∷ [])))
unfolding redeem_batch_settled
batch_effects answer t = elim (Bool-cases (answer.failed == 0)) [
  | inl f ↦ elim (Bool-cases (ltb 0 answer.succeeded)) [
    | inl s ↦ inr (decimal answer.succeeded ++ text " 个兑换码全部兑换成功", rw (f, s) refl)
    | inr s ↦ inr (decimal answer.succeeded ++ text " 个兑换码全部兑换成功", rw (f, s) refl)
  ]
  | inr f ↦ elim (Bool-cases (ltb 0 answer.succeeded)) [
    | inl s ↦ inl (rw (f, s) (append-nil (report_all answer.results)))
    | inr s ↦ inl (rw (f, s) (append-nil (report_all answer.results)))
  ]
]

module _ (parse : Text → Option Json) (stringify : Json → Text) (S : Storage) where
  -- The history shown and the one that handlers use have new entries in front, the newest first, cut to
  -- 20; no dialog opens or closes.
  pub record HasEntries (entries : List Json) (old new : Page parse stringify S) : Type 0 where
    pub shown : new.history ≡ take 20 (reverse entries ++ old.history_ref)
    pub kept : new.history_ref ≡ take 20 (reverse entries ++ old.history_ref)
    pub same_result : new.selected_result ≡ old.selected_result

  abbrev succeeded : Stamps → Json → Page parse stringify S → Page parse stringify S
  succeeded stamps result p =
      handle_redeem_success parse stringify S (stamps 0).0 (stamps 0).1 result false p

  first-HasEntries :
      (stamps : Stamps) (result : Json) (es : List Json) (p q : Page parse stringify S)
      → HasEntries es (succeeded stamps result p) q
      → HasEntries (create_history_entry (stamps 0).0 (stamps 0).1 result ∷ es) p q
  first-HasEntries stamps result es p q h =
      let e : Json = create_history_entry (stamps 0).0 (stamps 0).1 result in
      let ref =
        handle_redeem_success-history_ref parse stringify S (stamps 0).0 (stamps 0).1 result false
          p in
      record {
        shown =
            h.shown ∙ (ap (λ r. take 20 (reverse es ++ r)) ref ∙ take-newest e es p.history_ref);
        kept = h.kept ∙ (ap (λ r. take 20 (reverse es ++ r)) ref ∙ take-newest e es p.history_ref);
        same_result =
            h.same_result
            ∙ handle_redeem_success-selected_result parse stringify S (stamps 0).0 (stamps 0).1
                result p;
      }

  succeeded-shown :
      (stamps : Stamps) (result : Json) (p : Page parse stringify S)
      → (succeeded stamps result p).history ≡ (succeeded stamps result p).history_ref
  succeeded-shown stamps result p =
      handle_redeem_success-history parse stringify S (stamps 0).0 (stamps 0).1 result false p
      ∙ sym (
          handle_redeem_success-history_ref parse stringify S (stamps 0).0 (stamps 0).1 result false
            p)

  succeeded-bounded :
      (stamps : Stamps) (result : Json) (p : Page parse stringify S)
      → length (succeeded stamps result p).history_ref ≤ 20
  succeeded-bounded stamps result p =
      rw
        (handle_redeem_success-history_ref parse stringify S (stamps 0).0 (stamps 0).1 result false
          p)
        (length-take-le 20 (create_history_entry (stamps 0).0 (stamps 0).1 result ∷ p.history_ref))

  deliver-toast :
      (stamps : Stamps) (items : List RedeemBatchItem) (message : Text) (p : Page parse stringify S)
      → deliver parse stringify S stamps (report_all items ++ (toast_success message ∷ [])) p
        ≡ deliver parse stringify S stamps (report_all items) p
  unfolding deliver report_all
  deliver-toast stamps [] message p = refl
  deliver-toast stamps (item ∷ items) message p = elim (Option-cases item.redemption) [
    | inl e ↦ rw (e, report_all) (deliver-toast stamps items message p)
    | inr (result, e) ↦ rw (e, report_all) (deliver-toast (later stamps) items message _)
  ]

  report_all-HasEntries :
      (stamps : Stamps) (items : List RedeemBatchItem) (p : Page parse stringify S)
      → p.history ≡ p.history_ref
      → length p.history_ref ≤ 20
      → HasEntries
          (new_entries stamps items)
          p
          (deliver parse stringify S stamps (report_all items) p)
  unfolding deliver report_all new_entries
  report_all-HasEntries stamps [] p e b = record {
    shown = e ∙ sym (take_of_le 20 p.history_ref b);
    kept = sym (take_of_le 20 p.history_ref b);
    same_result = refl;
  }
  report_all-HasEntries stamps (item ∷ items) p e b = elim (Option-cases item.redemption) [
    | inl failed ↦ rw (failed, report_all, new_entries) (report_all-HasEntries stamps items p e b)
    | inr (result, given) ↦
        rw (given, report_all, new_entries)
          (first-HasEntries stamps result (new_entries (later stamps) items) p _ (
            report_all-HasEntries (later stamps) items (succeeded stamps result p)
              (succeeded-shown stamps result p) (succeeded-bounded stamps result p)))
  ]

  -- When the answer for several codes is there and the form hands on what was redeemed, the page shows
  -- and keeps one new entry for each item with a redemption, the last of them first, in front of the
  -- old history, all cut to 20 entries, and no result is revealed. Before, the page shows the history that
  -- it keeps, with at most 20 entries, as in every reachable state.
  pub redeem_batch_settled-HasEntries :
      (stamps : Stamps) (answer : RedeemBatchResponse) (t : Tab) (p : Page parse stringify S)
      → p.history ≡ p.history_ref
      → length p.history_ref ≤ 20
      → HasEntries
          (new_entries stamps answer.results)
          p
          (deliver parse stringify S stamps (redeem_batch_settled (resolved answer) t).1 p)
  redeem_batch_settled-HasEntries stamps answer t p e b = elim (batch_effects answer t) [
    | inl x ↦ rw x (report_all-HasEntries stamps answer.results p e b)
    | inr (message, x) ↦
        rw (x, deliver-toast stamps answer.results message p)
          (report_all-HasEntries stamps answer.results p e b)
  ]
