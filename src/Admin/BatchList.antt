-- ===== src/Admin/BatchList.antt =====
-- The list of batches, web/src/pages/admin/batches.tsx: its loading, the switching of a batch, and
-- what is shown of each. What is common with web/src/pages/admin/batch-detail.tsx stands here too.
use cdk_system.Base.{
  ℕ, ◌≡◌, Bool, Option, none, some, List, [], ◌∷◌, ◌++◌, Text, text, text_eq, text_or, is_empty,
  decimal, not, ◌==◌, if◌then◌else◌, length, map, arith,
}
use cdk_system.Api.{Settled, resolved, rejected, error_message}
use cdk_system.Api.Endpoints.{Endpoint}
use cdk_system.Admin.Batches.{Batch}
use cdk_system.Admin.Badges.{Badge, batch_status_badge}

pub data Toast : Type 0 where
  success failure : Text → Toast

-- The state of `BatchesPage`, with the requests made and the notices shown so far.
pub record ListPage : Type 0 where
  pub batches : Option (List Batch)
  pub asked : List Endpoint
  pub toasts : List Toast

-- `load`, up to its request and from the answer on.
unfoldable pub load : ListPage → ListPage
load p = record p { asked = p.asked ++ (Endpoint.batches ∷ []) }

unfoldable pub loaded : Settled (List Batch) → ListPage → ListPage
loaded (resolved batches) p = record p { batches = some batches }
loaded (rejected e) p = record p { toasts = p.toasts ++ (failure (error_message e) ∷ []) }

-- The page as it is first shown: its effect loads.
unfoldable pub initial_list : ListPage
initial_list = load (record { batches = none; asked = []; toasts = [] })

-- `handleToggle`, up to its request and from the answer on.
unfoldable pub handle_toggle : Batch → ListPage → ListPage
handle_toggle b p = record p { asked = p.asked ++ (Endpoint.toggle_batch b.id ∷ []) }

unfoldable pub toggled : Settled Text → ListPage → ListPage
toggled (resolved message) p = load (record p { toasts = p.toasts ++ (success message ∷ []) })
toggled (rejected e) p = record p { toasts = p.toasts ++ (failure (error_message e) ∷ []) }

-- The first `T` of a time becomes a blank.
unfoldable pub replace_t : Text → Text
replace_t [] = []
replace_t (c ∷ s) = let rest = replace_t s in if c == b'T' then 32 ∷ s else c ∷ rest

-- `expires_at ? expires_at.replace("T", " ") : "永久"`.
unfoldable pub expiry_text : Option Text → Text
expiry_text none = text "永久"
expiry_text (some []) = text "永久"
expiry_text (some (c ∷ s)) = replace_t (c ∷ s)

-- The button that switches a batch, and the question behind it.
pub record Switch : Type 0 where
  pub label : Text
  pub title : Text
  pub description : Text
  pub destructive : Bool

abbrev switch_word : Text → Text
switch_word status = if text_eq status (text "active") then text "停用" else text "启用"

abbrev pub switch_description : Text → Text
switch_description status =
    if text_eq status (text "active") then text "停用后该批次所有兑换码将无法兑换。" else text "启用后该批次兑换码恢复正常兑换。"

unfoldable pub batch_switch : Batch → Switch
batch_switch b = record {
  label = switch_word b.status;
  title = text "确定要" ++ (switch_word b.status ++ (text "批次「" ++ (b.name ++ text "」吗？")));
  description = switch_description b.status;
  destructive = text_eq b.status (text "active");
}

-- A row of the table.
pub record BatchRow : Type 0 where
  pub number : Text
  pub link : Text
  pub name : Text
  pub description : Option Text
  pub prefix : Text
  pub code_count : Option ℕ
  pub used_count : Option ℕ
  pub expires : Text
  pub has_webhook : Bool
  pub badge : Badge
  pub switch : Switch

unfoldable pub batch_row : Batch → BatchRow
batch_row b = record {
  number = text "#" ++ decimal b.id;
  link = text "/admin/batches/" ++ decimal b.id;
  name = b.name;
  description = if is_empty b.description then none else some b.description;
  prefix = text_or b.prefix (text "—");
  code_count = b.code_count;
  used_count = b.used_count;
  expires = expiry_text b.expires_at;
  has_webhook = not (is_empty b.webhook_url);
  badge = batch_status_badge b.status;
  switch = batch_switch b;
}

-- What the card holds: a grey box, a notice, or the rows; and its count.
pub data Table : Type 0 where
  skeleton empty : Table
  rows : List BatchRow → Table

abbrev table_of : List Batch → Table
table_of [] = empty
table_of (b ∷ bs) = rows (map batch_row (b ∷ bs))

unfoldable pub batch_table : ListPage → Table
batch_table p = elim p.batches [ none ↦ skeleton | some batches ↦ table_of batches ]

unfoldable pub count_text : ListPage → Text
count_text p =
    text "共 "
    ++ ((elim p.batches [ none ↦ text "…" | some batches ↦ decimal (length batches) ])
        ++ text " 个批次")

-- A question that warns is asked exactly for a batch that the badge shows as enabled.
pub batch_row-destructive :
    (b : Batch) → (batch_row b).switch.destructive ≡ (batch_row b).badge.emerald
unfolding batch_row batch_switch batch_status_badge
batch_row-destructive b = ground arith
