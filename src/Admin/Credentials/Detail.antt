-- ===== src/Admin/Credentials/Detail.antt =====
-- The rest of web/src/pages/admin/credentials.tsx: the figures above the list, the dialog of one
-- credential, its download, and single deletions.
use cdk_system.Base.{
  ℕ, Bool, true, false, Option, none, some, List, [], ◌∷◌, ◌++◌, map, Text, text, decimal, ◌==◌,
  if◌then◌else◌,
}
use cdk_system.Api.{Settled, resolved, rejected}
use cdk_system.Api.Endpoints.{Endpoint}
use cdk_system.Admin.Credentials.{Credential, Query, Listing, load}
use cdk_system.Admin.Credentials.Numbers.{has}

pub record Figures : Type 0 where
  pub total : ℕ
  pub used : ℕ
  pub unused : ℕ

-- `stats`, `detail`, `loadingDetailId` and `downloading`.
pub record Dialogs : Type 0 where
  pub stats : Figures
  pub detail : Option Credential
  pub loading_detail_id : Option ℕ
  pub downloading : Bool

unfoldable pub initial_dialogs : Dialogs
initial_dialogs = record {
  stats = record { total = 0; used = 0; unused = 0 };
  detail = none;
  loading_detail_id = none;
  downloading = false;
}

-- `loadStats`, from the answer on.
unfoldable pub stats_loaded : Settled Figures → Dialogs → Dialogs
stats_loaded (resolved stats) d = record d { stats = stats }
stats_loaded (rejected e) d = d

-- `handleViewDetail`, up to its request and from the answer on.
unfoldable pub handle_view_detail : ℕ → Dialogs → Dialogs × Endpoint
handle_view_detail id d = (record d { loading_detail_id = some id }, Endpoint.credential id)

unfoldable pub detail_settled : Settled Credential → Dialogs → Dialogs
detail_settled (resolved c) d = record d { detail = some c; loading_detail_id = none }
detail_settled (rejected e) d = record d { loading_detail_id = none }

-- The dialog is closed.
unfoldable pub close_detail : Dialogs → Dialogs
close_detail d = record d { detail = none }

-- `handleDownload`, up to its request, and from the answer on with the name of the file, which is
-- saved only after a success.
unfoldable pub handle_download : ℕ → Dialogs → Dialogs × Endpoint
handle_download id d = (record d { downloading = true }, Endpoint.download_credential id)

unfoldable pub download_settled : ℕ → Settled Text → Dialogs → Dialogs × Option Text
download_settled id (resolved blob) d =
    (record d { downloading = false }, some (text "credential-" ++ (decimal id ++ text ".json")))
download_settled id (rejected e) d = (record d { downloading = false }, none)

-- `handleDelete` from the answer on: the figures, the list and the plans are loaded again.
unfoldable pub delete_settled : Query → Settled Text → Listing → Listing × List Endpoint
delete_settled q (resolved message) l = (
  load q l,
  Endpoint.credential_stats
      ∷ Endpoint.credentials q.state q.page q.page_size
      ∷ Endpoint.credential_plans
      ∷ [],
)
delete_settled q (rejected e) l = (l, [])

module _ (locale_string : Text → Option Text) where
  -- `formatExpired`; `locale_string` is none where it throws.
  unfoldable pub format_expired : Option Text → Text
  format_expired none = text "—"
  format_expired (some []) = text "—"
  format_expired (some (c ∷ s)) = elim (locale_string (c ∷ s)) [ none ↦ c ∷ s | some shown ↦ shown ]

  -- A row of the table, with whether its view button is busy and its box is ticked, and the question
  -- before it is deleted.
  pub record CredentialRow : Type 0 where
    pub id : ℕ
    pub email : Text
    pub plan_type : Text
    pub expired : Text
    pub used_badge : Text
    pub is_loading : Bool
    pub ticked : Bool
    pub delete_description : Text

  abbrev is_loading_detail : ℕ → Option ℕ → Bool
  is_loading_detail id none = false
  is_loading_detail id (some loading) = loading == id

  unfoldable pub credential_row : Dialogs → List ℕ → Credential → CredentialRow
  credential_row d selected c = record {
    id = c.id;
    email = c.email;
    plan_type = c.plan_type;
    expired = format_expired c.expired;
    used_badge = if c.used then text "已使用" else text "未使用";
    is_loading = is_loading_detail c.id d.loading_detail_id;
    ticked = has c.id selected;
    delete_description = text "邮箱：" ++ (c.email ++ text "，操作不可恢复。");
  }

  -- What the card holds: a grey box, a notice, or the rows.
  pub data CredentialTable : Type 0 where
    skeleton empty : CredentialTable
    rows : List CredentialRow → CredentialTable

  abbrev table_of : Dialogs → List ℕ → List Credential → CredentialTable
  table_of d selected [] = empty
  table_of d selected (c ∷ cs) = rows (map (credential_row d selected) (c ∷ cs))

  unfoldable pub credential_table : Dialogs → Listing → CredentialTable
  credential_table d l = elim l.items [ none ↦ skeleton | some items ↦ table_of d l.selected items ]

  -- The dialog of one credential: title, description, the two facts, and whether the download button
  -- is disabled.
  pub record DetailView : Type 0 where
    pub title : Text
    pub description : Text
    pub expired : Text
    pub redemption : Text
    pub download_disabled : Bool

  unfoldable pub detail_view : Dialogs → Option DetailView
  detail_view d = elim d.detail [
    | none ↦ none
    | some c ↦ some (record {
      title = text "凭证详情 #" ++ decimal c.id;
      description =
          c.email
          ++ (text " · "
              ++ (c.plan_type ++ (text " · " ++ (if c.used then text "已使用" else text "未使用"))));
      expired = format_expired c.expired;
      redemption = elim c.redemption_id [ none ↦ text "—" | some n ↦ decimal n ];
      download_disabled = d.downloading;
    })
  ]
