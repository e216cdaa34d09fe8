-- ===== src/Admin/BatchForm/Fields.antt =====
-- The fields of the form for a new batch, web/src/pages/admin/batch-new.tsx: what a change of each does,
-- and what stands below the switch that assigns credentials.
use cdk_system.Base.{
  Bool, Option, none, some, List, [], ◌∷◌, ◌++◌, Text, text, map, decimal, all, ◌==◌, if◌then◌else◌,
}
use cdk_system.Json.{Json}
use cdk_system.Admin.BatchForm.{BatchInput, CredentialPlan, Page}

-- A change of a field, with the text that it then holds; `to_secret` is also the button that makes a
-- new random secret.
pub data Edit : Type 0 where
  to_name to_description to_payload to_count to_prefix to_code_length to_expires : Text → Edit
  to_max_uses to_webhook_url to_secret : Text → Edit
  to_plan : Option Text → Edit
  to_assign : Bool → Edit

abbrev pub or_nothing : Option Text → Text
or_nothing none = []
or_nothing (some s) = s

-- The handler of the switch.
unfoldable pub switch_assign : Bool → BatchInput → BatchInput
switch_assign checked f = record f {
  assign_credential = checked;
  credential_plan_type = if checked then f.credential_plan_type else [];
}

-- `Number` and `toUpperCase` are parameters.
module _ (to_number : Text → Json) (to_upper_case : Text → Text) where
  -- `set`, and the handler of the switch.
  unfoldable pub edit : Edit → BatchInput → BatchInput
  edit (to_name v) f = record f { name = v }
  edit (to_description v) f = record f { description = v }
  edit (to_payload v) f = record f { payload_json = v }
  edit (to_count v) f = record f { count = to_number v }
  edit (to_prefix v) f = record f { prefix = to_upper_case v }
  edit (to_code_length v) f = record f { code_length = to_number v }
  edit (to_expires v) f = record f { expires_at = v }
  edit (to_max_uses v) f = record f { max_uses_per_code = to_number v }
  edit (to_webhook_url v) f = record f { webhook_url = v }
  edit (to_secret v) f = record f { webhook_secret = v }
  edit (to_plan v) f = record f { credential_plan_type = or_nothing v }
  edit (to_assign checked) f = switch_assign checked f

-- An entry of the choice of plans: its value, its label, and whether it is disabled.
pub record PlanOption : Type 0 where
  pub value : Text
  pub label : Text
  pub disabled : Bool

unfoldable pub plan_option : CredentialPlan → PlanOption
plan_option plan = record {
  value = plan.plan_type;
  label =
      plan.plan_type
      ++ (text " · 可用 " ++ (decimal plan.available ++ (text "/" ++ decimal plan.total)));
  disabled = plan.available == 0;
}

-- What stands below the switch: nothing, a grey box, the failure of the list of plans, that there is no
-- plan, or the choice, with a warning if no plan is in stock.
pub data PlanChoice : Type 0 where
  hidden skeleton no_plans : PlanChoice
  failed : Text → PlanChoice
  choice : List PlanOption → Bool → PlanChoice

abbrev listed_plans : List CredentialPlan → PlanChoice
listed_plans [] = no_plans
listed_plans (plan ∷ plans) =
    choice (map plan_option (plan ∷ plans)) (all (λ p. p.available == 0) (plan ∷ plans))

abbrev failed_or_listed : Option Text → List CredentialPlan → PlanChoice
failed_or_listed none plans = listed_plans plans
failed_or_listed (some []) plans = listed_plans plans
failed_or_listed (some (c ∷ s)) plans = failed (c ∷ s)

unfoldable pub plan_choice : Page → PlanChoice
plan_choice p =
    if p.form.assign_credential
    then (if p.plans_loading then skeleton else failed_or_listed p.plans_error p.plans)
    else hidden
