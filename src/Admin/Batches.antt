-- ===== src/Admin/Batches.antt =====
-- The page of one batch, web/src/pages/admin/batch-detail.tsx, and the badges of
-- web/src/components/status-badge.tsx.
pub mod Laws
pub mod Shown
use cdk_system.Base.{
  ℕ, Bool, true, false, ◌&&◌, not, Option, none, some, List, [], ◌∷◌, ◌++◌, Text, text, text_eq,
  leb, ltb, ◌==◌, is_some, is_empty, if◌then◌else◌,
}
use cdk_system.Json.{Json}
use cdk_system.Api.{Settled, resolved, rejected}
use cdk_system.Admin.Pagination.{Paged}

-- `Batch`.
pub record Batch : Type 0 where
  pub id : ℕ
  pub name : Text
  pub description : Text
  pub payload_json : Json
  pub prefix : Text
  pub code_length : ℕ
  pub expires_at : Option Text
  pub max_uses_per_code : ℕ
  pub max_redeems_per_user : ℕ
  pub assign_credential : Bool
  pub credential_plan_type : Text
  pub webhook_url : Text
  pub webhook_secret : Text
  pub status : Text
  pub created_at : Text
  pub code_count : Option ℕ
  pub used_count : Option ℕ

-- `BatchCounts`.
pub record BatchCounts : Type 0 where
  pub total : ℕ
  pub disabled : Option ℕ
  pub usedup : Option ℕ
  pub total_uses : ℕ

-- `CodeItem`.
pub record CodeItem : Type 0 where
  pub id : ℕ
  pub code : Text
  pub display : Text
  pub status : Text
  pub use_count : ℕ
  pub created_at : Text

pub record Codes : Type 0 where
  pub codes : List CodeItem
  pub paged : Paged
  pub max_uses : ℕ

-- The state of `BatchDetailPage`.
pub record Page : Type 0 where
  pub batch : Option Batch
  pub counts : Option BatchCounts
  pub not_found : Bool
  pub state : Text
  pub page : ℕ
  pub codes : Option (List CodeItem)
  pub paged : Paged
  pub max_uses : ℕ

-- The page as it is first shown, when its effects have asked for the batch and the codes.
unfoldable pub initial_page : Page
initial_page = record {
  batch = none;
  counts = none;
  not_found = false;
  state = text "all";
  page = 1;
  codes = none;
  paged = record { total = 0; page = 1; pages = 1 };
  max_uses = 1;
}

-- `loadBatch`, from the answer on.
unfoldable pub batch_loaded : Settled (Batch × BatchCounts) → Page → Page
batch_loaded (resolved (batch, counts)) p = record p { batch = some batch; counts = some counts }
batch_loaded (rejected e) p = record p { not_found = true }

-- `loadCodes`, up to its request and from the answer on.
unfoldable pub load_codes : Page → Page
load_codes p = record p { codes = none }

unfoldable pub codes_loaded : Settled Codes → Page → Page
codes_loaded (resolved d) p = record p {
  codes = some d.codes;
  paged = d.paged;
  max_uses = d.max_uses;
}
codes_loaded (rejected e) p = p

-- A successful `handleToggleCode` loads the codes and the batch again.
unfoldable pub code_toggled : Settled Text → Page → Page
code_toggled (resolved message) p = load_codes p
code_toggled (rejected e) p = p

-- What is shown: that there is no batch, a skeleton, or the batch.
pub data View : Type 0 where
  missing skeleton : View
  content : Batch → BatchCounts → View

abbrev loaded_view : Option Batch → Option BatchCounts → View
loaded_view (some batch) (some counts) = content batch counts
loaded_view _ _ = skeleton

unfoldable pub view : Page → View
view p = if p.not_found then missing else loaded_view p.batch p.counts

-- `CodeStatusBadge`.
pub data CodeBadge : Type 0 where
  disabled used_up partly_used available : CodeBadge

unfoldable pub code_badge : Text → ℕ → ℕ → CodeBadge
code_badge status use_count max_uses =
    if text_eq status (text "disabled")
    then disabled
    else if leb max_uses use_count
    then used_up
    else if ltb 0 use_count
    then partly_used
    else available
