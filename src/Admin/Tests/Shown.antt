-- ===== src/Admin/Tests/Shown.antt =====
-- What the pages of the administration show of small records.
use cdk_system.Base.{◌≡◌, refl, true, none, some, all, text, text_eq}
use cdk_system.Admin.Badges.{webhook_badge, webhook_meta}
use cdk_system.Admin.BatchList.{expiry_text, replace_t}
use cdk_system.Admin.Logs.Shown.{webhook_options}

-- The label of every choice of the filter is the label of its badge.
webhook_options-webhook_badge : all (λ o. text_eq (webhook_meta o.0).0 o.1) webhook_options ≡ true
unfolding all webhook_options webhook_meta text text_eq
webhook_options-webhook_badge = refl

webhook_badge-none : webhook_badge (text "none") ≡ none
unfolding webhook_badge text text_eq
webhook_badge-none = refl

-- Only the first letter of this kind is replaced.
expiry_text-first : expiry_text (some (text "2025-01-02T10:00 UTC")) ≡ text "2025-01-02 10:00 UTC"
unfolding expiry_text replace_t text
expiry_text-first = refl
