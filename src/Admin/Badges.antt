-- ===== src/Admin/Badges.antt =====
-- The badges of web/src/components/status-badge.tsx other than that of a code, as their label and
-- their look.
use cdk_system.Base.{
  Bool, true, false, Option, none, some, Text, text, text_eq, text_or, if◌then◌else◌,
}

pub data Variant : Type 0 where
  default secondary destructive outline : Variant

-- `emerald` is the class name of the good states.
pub record Badge : Type 0 where
  pub label : Text
  pub variant : Variant
  pub emerald : Bool

-- `ResultBadge`; an absent message counts as an empty one.
unfoldable pub result_badge : Text → Text → Badge
result_badge result message = record {
  label = text_or message result;
  variant = if text_eq result (text "success") then default else destructive;
  emerald = text_eq result (text "success");
}

-- `WEBHOOK_META[status]`; a status without an entry shows itself. No status of the server is a name that
-- every object has, such as `constructor`.
unfoldable pub webhook_meta : Text → Text × Variant
webhook_meta status =
    if text_eq status (text "pending")
    then (text "推送中", secondary)
    else if text_eq status (text "success")
    then (text "已送达", default)
    else if text_eq status (text "failed")
    then (text "失败", destructive)
    else if text_eq status (text "dead_letter")
    then (text "重试耗尽", destructive)
    else (status, outline)

-- `WebhookBadge`; none is the dash of a record without a webhook.
unfoldable pub webhook_badge : Text → Option Badge
webhook_badge status =
    if text_eq status (text "none")
    then none
    else some (record {
      label = (webhook_meta status).0;
      variant = (webhook_meta status).1;
      emerald = text_eq status (text "success");
    })

-- `BatchStatusBadge`.
unfoldable pub batch_status_badge : Text → Badge
batch_status_badge status =
    if text_eq status (text "active")
    then record { label = text "启用中"; variant = default; emerald = true }
    else record { label = text "已停用"; variant = destructive; emerald = false }
