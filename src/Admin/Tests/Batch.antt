-- ===== src/Admin/Tests/Batch.antt =====
-- A run of the form for a new batch.
use cdk_system.Base.{
  refl, ◌⊎◌, inr, true, false, [], ◌∷◌, Text, text, text_eq, trim, trim_start, is_space,
  starts_with, any,
}
use cdk_system.Json.{Json, obj, end}
use cdk_system.Admin.BatchForm.{
  BatchInput, Page, initial_page, initial_input, CredentialPlan, sent_input, handle_submit,
  validate, is_available,
}
use cdk_system.Admin.BatchForm.Laws.{IsValidBatch, IsBatch, handle_submit-IsBatch}

abbrev parse : Text → Text ⊎ Json
parse s = inr (obj end)

abbrev plan : CredentialPlan
plan = record { plan_type = text "plus"; total = 3; available = 2; used = 1; expired = 0 }

abbrev filled : BatchInput
filled = record (initial_input (text "s")) {
  name = text " May ";
  assign_credential = true;
  credential_plan_type = text "plus";
}

abbrev page : Page
page = record (initial_page (text "s")) { form = filled; plans = plan ∷ []; plans_loading = false }

handle_submit-IsBatch_example : IsValidBatch parse page × IsBatch parse page (sent_input filled)
unfolding handle_submit validate initial_page initial_input trim trim_start is_space text text_eq
    is_available any starts_with
handle_submit-IsBatch_example =
    handle_submit-IsBatch parse (λ s v e. e) (obj end, refl) page (sent_input filled) refl
