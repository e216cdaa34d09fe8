-- ===== src/Admin/Batches/Shown.antt =====
-- What the page of one batch shows, and the switching of the batch, in
-- web/src/pages/admin/batch-detail.tsx.
use cdk_system.Base.{
  ℕ, Bool, Option, none, some, List, [], ◌∷◌, ◌++◌, Text, text, text_eq, text_or, is_empty, decimal,
  if◌then◌else◌, map, ◌&&◌, ◌==◌,
}
use cdk_system.Api.{Settled, resolved, rejected}
use cdk_system.Api.Endpoints.{Endpoint, export_url, txt, csv}
use cdk_system.Admin.Batches.{Batch, BatchCounts, CodeItem, Page, CodeBadge, code_badge, load_codes}
use cdk_system.Admin.Badges.{Badge, batch_status_badge}
use cdk_system.Admin.BatchList.{Switch, switch_description, expiry_text}

-- `STATE_TABS`: the values and labels of the filter.
unfoldable pub state_tabs : List (Text × Text)
state_tabs =
    (text "all", text "全部")
    ∷ (text "active", text "可用")
    ∷ (text "partused", text "部分使用")
    ∷ (text "used", text "已用完")
    ∷ (text "disabled", text "已禁用")
    ∷ []

-- The filter and the page bar; a change of either loads the codes again.
unfoldable pub change_state : Text → Page → Page
change_state state p = record p { state = state; page = 1 }

unfoldable pub change_page : ℕ → Page → Page
change_page page p = record p { page = page }

-- The effect behind such a change: the request that it makes, if the query has changed.
unfoldable pub reload_codes : ℕ → Page → Page → Page × Option Endpoint
reload_codes batch_id before p =
    if text_eq before.state p.state && (before.page == p.page)
    then (p, none)
    else (load_codes p, some (Endpoint.batch_codes batch_id p.state p.page))

-- `handleToggleBatch`, up to its request, and the request that follows a success.
unfoldable pub handle_toggle_batch : Page → Option Endpoint
handle_toggle_batch p = elim p.batch [
  | none ↦ none
  | some batch ↦ some (Endpoint.toggle_batch batch.id)
]

unfoldable pub batch_toggled : ℕ → Settled Text → Option Endpoint
batch_toggled batch_id (resolved message) = some (Endpoint.batch batch_id)
batch_toggled batch_id (rejected e) = none

-- The question before a batch is switched.
unfoldable pub batch_switch : Batch → Switch
batch_switch b = record {
  label = if text_eq b.status (text "active") then text "停用批次" else text "启用批次";
  title =
      text "确定要"
      ++ ((if text_eq b.status (text "active") then text "停用" else text "启用") ++ text "该批次吗？");
  description = switch_description b.status;
  destructive = text_eq b.status (text "active");
}

abbrev or_zero : Option ℕ → ℕ
or_zero none = 0
or_zero (some n) = n

-- The head of the page and the card with the figures of the batch.
pub record Info : Type 0 where
  pub title : Text
  pub description : Text
  pub exports : List (Text × List (Text × Text))
  pub badge : Badge
  pub total : ℕ
  pub used_up : ℕ
  pub total_uses : ℕ
  pub disabled : ℕ
  pub prefix : Text
  pub expires : Text
  pub max_uses : ℕ
  pub plan : Text
  pub created : Text

unfoldable pub batch_info : Batch → BatchCounts → Info
batch_info b counts = record {
  title = b.name;
  description = text_or b.description (text "批次 #" ++ decimal b.id);
  exports = export_url b.id txt ∷ export_url b.id csv ∷ [];
  badge = batch_status_badge b.status;
  total = counts.total;
  used_up = or_zero counts.usedup;
  total_uses = counts.total_uses;
  disabled = or_zero counts.disabled;
  prefix = text_or b.prefix (text "—");
  expires = expiry_text b.expires_at;
  max_uses = b.max_uses_per_code;
  plan = if b.assign_credential then b.credential_plan_type else text "未启用";
  created = b.created_at;
}

-- The webhook with its secret, if there is one.
unfoldable pub webhook_box : Batch → Option (Text × Text)
webhook_box b = if is_empty b.webhook_url then none else some (b.webhook_url, b.webhook_secret)

-- A row of the table of codes.
pub record CodeRow : Type 0 where
  pub code : Text
  pub copied : Text × Text
  pub badge : CodeBadge
  pub uses : Text
  pub created : Text
  pub switch_label : Text
  pub switch_title : Text
  pub destructive : Bool

abbrev code_word : Text → Text
code_word status = if text_eq status (text "unused") then text "禁用" else text "恢复"

unfoldable pub code_row : ℕ → CodeItem → CodeRow
code_row max_uses c = record {
  code = c.code;
  copied = (c.code, text "已复制：" ++ c.code);
  badge = code_badge c.status c.use_count max_uses;
  uses = decimal c.use_count ++ (text " / " ++ decimal max_uses);
  created = c.created_at;
  switch_label = code_word c.status;
  switch_title = text "确定要" ++ (code_word c.status ++ (text "兑换码 " ++ (c.display ++ text " 吗？")));
  destructive = text_eq c.status (text "unused");
}

-- What the card of codes holds: a grey box, a notice, or the rows.
pub data CodeTable : Type 0 where
  skeleton empty : CodeTable
  rows : List CodeRow → CodeTable

abbrev table_of : ℕ → List CodeItem → CodeTable
table_of max_uses [] = empty
table_of max_uses (c ∷ cs) = rows (map (code_row max_uses) (c ∷ cs))

unfoldable pub code_table : Page → CodeTable
code_table p = elim p.codes [ none ↦ skeleton | some codes ↦ table_of p.max_uses codes ]
