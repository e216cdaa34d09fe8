-- ===== src/Redeem/History/Full.antt =====
-- The history at its limit, in web/src/pages/redeem.tsx.
use cdk_system.Base.{
  ◌≡◌, ◌∙◌, ap, Bool, Option, Text, keep, take, not, Every, Every-take, keep_of_Every,
}
use cdk_system.Json.{Json}
use cdk_system.Storage.{Storage}
use cdk_system.Redeem.History.{
  create_history_entry, has_id, Page, handle_redeem_success, handle_delete_history,
}
use cdk_system.Redeem.History.Entries.{keep-cons_dropped, has_id-create_history_entry}
use cdk_system.Redeem.History.Laws.{
  handle_redeem_success-history_ref, handle_delete_history-history,
}

module _ (parse : Text → Option Json) (stringify : Json → Text) (S : Storage) where
  -- Deleting a redemption that has just been added, under an id that is new to the history, leaves the
  -- newest 19 entries of the history as it was: all of it, unless it was full, and then the oldest entry
  -- is lost.
  pub handle_delete_history-newest :
      (id saved_at : Text) (result : Json) (reveal : Bool) (p : Page parse stringify S)
      → Every (λ entry. not (has_id id entry)) p.history_ref
      → (handle_delete_history parse stringify S id
          (handle_redeem_success parse stringify S id saved_at result reveal p)).history
        ≡ take 19 p.history_ref
  handle_delete_history-newest id saved_at result reveal p fresh =
      let entry : Json = create_history_entry id saved_at result in
      handle_delete_history-history parse stringify S id
        (handle_redeem_success parse stringify S id saved_at result reveal p)
      ∙ ap (keep (λ e. not (has_id id e)))
          (handle_redeem_success-history_ref parse stringify S id saved_at result reveal p)
      ∙ keep-cons_dropped id entry (take 19 p.history_ref)
          (has_id-create_history_entry id saved_at result)
      ∙ keep_of_Every (λ e. not (has_id id e)) (take 19 p.history_ref)
          (Every-take (λ e. not (has_id id e)) 19 p.history_ref fresh)
