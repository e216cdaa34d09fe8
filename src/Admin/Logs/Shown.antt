-- ===== src/Admin/Logs/Shown.antt =====
-- What the page of records shows, web/src/pages/admin/logs.tsx: the choices of its filters and its rows.
use cdk_system.Base.{
  Bool, ◌&&◌, Option, none, some, List, [], ◌∷◌, ◌++◌, Text, text, text_eq, decimal, any, is_empty,
  map, if◌then◌else◌,
}
use cdk_system.Api.Endpoints.{Endpoint}
use cdk_system.Admin.Badges.{Badge, result_badge, webhook_badge}
use cdk_system.Admin.Logs.{LogItem, Page, all_marker}

-- `RESULT_OPTIONS` and `WEBHOOK_OPTIONS`: values and labels.
unfoldable pub result_options : List (Text × Text)
result_options =
    (text "success", text "成功")
    ∷ (text "invalid_code", text "码无效")
    ∷ (text "code_used_up", text "已用完")
    ∷ (text "code_disabled", text "码被禁用")
    ∷ (text "batch_disabled", text "批次停用")
    ∷ (text "expired", text "已过期")
    ∷ (text "user_limit", text "邮箱超限")
    ∷ (text "invalid_input", text "输入无效")
    ∷ []

unfoldable pub webhook_options : List (Text × Text)
webhook_options =
    (text "pending", text "推送中")
    ∷ (text "success", text "已送达")
    ∷ (text "failed", text "失败")
    ∷ (text "dead_letter", text "重试耗尽")
    ∷ []

-- The entries of the three choices; the first of each stands for all.
unfoldable pub batch_choices : Page → List (Text × Text)
batch_choices p =
    (all_marker, text "全部批次")
    ∷ map (λ b. (decimal b.0, text "#" ++ (decimal b.0 ++ (text " " ++ b.1)))) p.batch_options

unfoldable pub result_choices : List (Text × Text)
result_choices = (all_marker, text "全部结果") ∷ result_options

unfoldable pub webhook_choices : List (Text × Text)
webhook_choices = (all_marker, text "Webhook 全部") ∷ webhook_options

-- Whether a record has the button that sends its webhook again.
unfoldable pub can_resend : LogItem → Bool
can_resend r =
    text_eq r.result (text "success")
    && any (λ s. text_eq s r.webhook_status)
        (text "success" ∷ text "failed" ∷ text "dead_letter" ∷ [])

-- A row, with the request of its button.
pub record LogRow : Type 0 where
  pub time : Text
  pub batch : Text
  pub code : Text
  pub user : Text
  pub result : Badge
  pub webhook : Option Badge
  pub response : Text
  pub ip : Text
  pub resend : Option Endpoint

unfoldable pub log_row : LogItem → LogRow
log_row r = record {
  time = r.created_at;
  batch = elim r.batch_name [ none ↦ text "—" | some name ↦ name ];
  code = r.code;
  user = r.user_id;
  result = result_badge r.result r.message;
  webhook = webhook_badge r.webhook_status;
  response = if is_empty r.webhook_response then text "—" else r.webhook_response;
  ip = r.ip;
  resend = if can_resend r then some (Endpoint.resend_webhook r.id) else none;
}

-- What the card holds: a grey box, a notice, or the rows.
pub data LogTable : Type 0 where
  skeleton empty : LogTable
  rows : List LogRow → LogTable

abbrev table_of : List LogItem → LogTable
table_of [] = empty
table_of (r ∷ rs) = rows (map log_row (r ∷ rs))

unfoldable pub log_table : Page → LogTable
log_table p = elim p.logs [ none ↦ skeleton | some logs ↦ table_of logs ]
