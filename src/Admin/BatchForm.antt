-- ===== src/Admin/BatchForm.antt =====
-- The form for a new batch, web/src/pages/admin/batch-new.tsx. `JSON.parse` is a parameter: its result
-- is a value, or the message of its error. The fields that hold numbers are values of JavaScript,
-- which `Number` makes of what is typed.
pub mod Laws
pub mod Fields
use cdk_system.Base.{
  ℕ, Bool, true, false, ◌&&◌, ◌||◌, not, Option, none, some, List, [], ◌∷◌, ◌++◌, map, ◌⊎◌, inl,
  inr, Text, text, text_eq, text_or, trim, is_empty, is_given, starts_with, any, ltb, if◌then◌else◌,
}
use cdk_system.Json.{Json, null, arr, str, num, items_of, text_or_empty}
use cdk_system.Api.{Settled, resolved, rejected, Failure, api, other, error_message}
use cdk_system.Api.Endpoints.{Endpoint, create_batch, object}

-- `CredentialPlan`.
pub record CredentialPlan : Type 0 where
  pub plan_type : Text
  pub total : ℕ
  pub available : ℕ
  pub used : ℕ
  pub expired : ℕ

-- `BatchInput`.
pub record BatchInput : Type 0 where
  pub name : Text
  pub description : Text
  pub payload_json : Text
  pub count : Json
  pub prefix : Text
  pub code_length : Json
  pub expires_at : Text
  pub max_uses_per_code : Json
  pub max_redeems_per_user : Json
  pub webhook_url : Text
  pub webhook_secret : Text
  pub assign_credential : Bool
  pub credential_plan_type : Text

-- `INITIAL`, with the random secret.
unfoldable pub initial_input : Text → BatchInput
initial_input secret = record {
  name = [];
  description = [];
  payload_json = [];
  count = num (text "100");
  prefix = [];
  code_length = num (text "12");
  expires_at = [];
  max_uses_per_code = num (text "1");
  max_redeems_per_user = num (text "1");
  webhook_url = [];
  webhook_secret = secret;
  assign_credential = false;
  credential_plan_type = [];
}

-- The state of `BatchNewPage`.
pub record Page : Type 0 where
  pub form : BatchInput
  pub loading : Bool
  pub errors : List Text
  pub plans : List CredentialPlan
  pub plans_loading : Bool
  pub plans_error : Option Text

unfoldable pub initial_page : Text → Page
initial_page secret = record {
  form = initial_input secret;
  loading = false;
  errors = [];
  plans = [];
  plans_loading = true;
  plans_error = none;
}

-- `loadPlans`, up to its request and from the answer on.
unfoldable pub load_plans : Page → Page
load_plans p = record p { plans_loading = true; plans_error = none }

unfoldable pub plans_settled : Settled (Option (List CredentialPlan)) → Page → Page
plans_settled (resolved none) p = record p { plans = []; plans_loading = false }
plans_settled (resolved (some plans)) p = record p { plans = plans; plans_loading = false }
plans_settled (rejected e) p = record p {
  plans = [];
  plans_error = some (error_message e);
  plans_loading = false;
}

-- `plans.some(...)`: the plan is in stock.
unfoldable pub is_available : Text → List CredentialPlan → Bool
is_available plan_type plans = any (λ p. text_eq p.plan_type plan_type && ltb 0 p.available) plans

abbrev name_errors : BatchInput → List Text
name_errors form = if is_empty (trim form.name) then text "批次名称不能为空" ∷ [] else []

abbrev parse_errors : Text ⊎ Json → List Text
parse_errors (inl message) = (text "JSON 内容格式错误：" ++ message) ∷ []
parse_errors (inr v) = []

abbrev webhook_errors : BatchInput → List Text
webhook_errors form =
    if not (is_empty form.webhook_url) && not (starts_with form.webhook_url (text "https://"))
    then text "Webhook 地址必须以 https:// 开头" ∷ []
    else []

abbrev plan_errors : Page → Text → List Text
plan_errors p plan_type =
    if p.plans_loading
    then text "套餐列表仍在加载，请稍后再试" ∷ []
    else if is_given p.plans_error
    then text "套餐列表加载失败，请重新加载" ∷ []
    else if is_empty plan_type
    then text "启用凭证分配时必须选择套餐" ∷ []
    else if not (is_available plan_type p.plans)
    then text "所选套餐没有可用凭证，请刷新库存后重试" ∷ []
    else []

abbrev credential_errors : Page → List Text
credential_errors p =
    if p.form.assign_credential then plan_errors p (trim p.form.credential_plan_type) else []

-- What is sent for a form without errors.
unfoldable pub sent_input : BatchInput → BatchInput
sent_input form = record form {
  payload_json = text_or (trim form.payload_json) (text "{}");
  name = trim form.name;
  credential_plan_type = if form.assign_credential then trim form.credential_plan_type else [];
}

unfoldable pub batch_json : BatchInput → Json
batch_json i = object (
    (text "name", str i.name)
    ∷ (text "description", str i.description)
    ∷ (text "payload_json", str i.payload_json)
    ∷ (text "count", i.count)
    ∷ (text "prefix", str i.prefix)
    ∷ (text "code_length", i.code_length)
    ∷ (text "expires_at", str i.expires_at)
    ∷ (text "max_uses_per_code", i.max_uses_per_code)
    ∷ (text "max_redeems_per_user", i.max_redeems_per_user)
    ∷ (text "webhook_url", str i.webhook_url)
    ∷ (text "webhook_secret", str i.webhook_secret)
    ∷ (text "assign_credential", Json.bool i.assign_credential)
    ∷ (text "credential_plan_type", str i.credential_plan_type)
    ∷ [])

-- The errors that a failed creation shows: those that the server lists as texts, or the message if it
-- lists none.
abbrev listed_errors : Text → Option Json → List Text
listed_errors message none = message ∷ []
listed_errors message (some null) = message ∷ []
listed_errors message (some (arr vs)) = map (λ v. text_or_empty (some v)) (items_of vs)
listed_errors message (some _) = []

unfoldable pub failure_errors : Failure → List Text
failure_errors (api e) = listed_errors e.message e.errors
failure_errors (other message) = text "网络异常，请稍后再试" ∷ []

-- `handleSubmit` from the answer on; the second component is the batch that the page goes to.
unfoldable pub create_settled : Settled ℕ → Page → Page × Option ℕ
create_settled (resolved id) p = (record p { loading = false }, some id)
create_settled (rejected e) p = (record p { errors = failure_errors e; loading = false }, none)

module _ (parse : Text → Text ⊎ Json) where
  abbrev payload_errors : BatchInput → List Text
  payload_errors form =
      if is_empty (trim form.payload_json) then [] else parse_errors (parse form.payload_json)

  unfoldable pub validate : Page → List Text
  validate p =
      name_errors p.form
      ++ (payload_errors p.form ++ (webhook_errors p.form ++ credential_errors p))

  -- `handleSubmit` up to its request.
  unfoldable pub handle_submit : Page → Page × Option BatchInput
  handle_submit p =
      if is_empty (validate p)
      then (record p { loading = true; errors = [] }, some (sent_input p.form))
      else (record p { errors = validate p }, none)
