-- ===== src/Api/Endpoints.antt =====
-- The operations of the object `api` in web/src/lib/api.ts, as the requests that they make.
-- Percent encoding and `URLSearchParams.toString` belong to the runtime: a query is the list of its
-- names and values, and a path segment stands as it is given.
use cdk_system.Base.{
  ℕ, Bool, Option, none, some, List, [], ◌∷◌, ◌++◌, map, Text, text, decimal, is_empty, ◌==◌,
  if◌then◌else◌,
}
use cdk_system.Json.{Json, Fields, array_of}
use cdk_system.Api.{Body, RequestInit, Part, File}

pub record LogsParams : Type 0 where
  pub batch_id : Option ℕ
  pub result : Option Text
  pub webhook : Option Text
  pub user_id : Option Text
  pub page : Option ℕ

pub record FaqInput : Type 0 where
  pub title : Text
  pub content : Text

pub record UpdateSiteSettingsInput : Type 0 where
  pub site_title : Text
  pub logo : Option File
  pub remove_logo : Bool

pub data CredentialState : Type 0 where
  all used unused : CredentialState

pub data ExportFormat : Type 0 where
  txt csv : ExportFormat

pub data Endpoint : Type 0 where
  site_settings : Endpoint
  update_site_settings : UpdateSiteSettingsInput → Endpoint
  redeem : Text → Text → Endpoint
  redeem_batch : Text → List Text → Endpoint
  public_faq : Endpoint
  faq : Endpoint
  create_faq : FaqInput → Endpoint
  update_faq : ℕ → FaqInput → Endpoint
  delete_faq : ℕ → Endpoint
  reorder_faq : List ℕ → Endpoint
  login : Text → Text → Endpoint
  logout : Endpoint
  me : Endpoint
  stats : Endpoint
  batches : Endpoint
  create_batch : Json → Endpoint
  batch : ℕ → Endpoint
  batch_codes : ℕ → Text → ℕ → Endpoint
  toggle_batch : ℕ → Endpoint
  toggle_code : ℕ → Endpoint
  logs : LogsParams → Endpoint
  resend_webhook : ℕ → Endpoint
  credentials : CredentialState → ℕ → ℕ → Endpoint
  credential : ℕ → Endpoint
  download_credential : ℕ → Endpoint
  credential_stats : Endpoint
  credential_plans : Endpoint
  upload_credentials : File → Text → Endpoint
  delete_credential : ℕ → Endpoint
  batch_delete_credentials : List ℕ → Endpoint

-- A call of `request`: the path, the query and the `init`.
pub record Call : Type 0 where
  pub path : Text
  pub query : List (Text × Text)
  pub init : RequestInit

abbrev number : ℕ → Json
number n = Json.num (decimal n)

-- An object with these properties.
unfoldable pub object : List (Text × Json) → Json
object pairs = Json.obj (fields pairs)
  where
    fields : List (Text × Json) → Fields
    fields [] = Fields.end
    fields ((name, v) ∷ rest) = Fields.field name v (fields rest)

unfoldable pub init_of : Option Text → Option Body → RequestInit
init_of method body = record { method = method; body = body; headers = [] }

abbrev read : Text → Call
read path = record { path = path; query = []; init = init_of none none }

abbrev read_query : Text → List (Text × Text) → Call
read_query path query = record { path = path; query = query; init = init_of none none }

-- `post(url, body)`.
unfoldable pub post : Text → Option Json → Call
post path none = record { path = path; query = []; init = init_of (some (text "POST")) none }
post path (some body) = record {
  path = path;
  query = [];
  init = init_of (some (text "POST")) (some (Body.json body));
}

abbrev send : Text → Text → Option Body → Call
send method path body = record { path = path; query = []; init = init_of (some method) body }

abbrev under : Text → ℕ → Text → Text
under prefix id suffix = prefix ++ (decimal id ++ suffix)

abbrev faq_fields : FaqInput → Json
faq_fields input =
    object ((text "title", Json.str input.title) ∷ (text "content", Json.str input.content) ∷ [])

-- `if (value) qs.set(name, value)`: absent and empty values, and 0, are left out.
unfoldable pub text_param : Text → Option Text → List (Text × Text)
text_param name none = []
text_param name (some v) = if is_empty v then [] else (name, v) ∷ []

unfoldable pub number_param : Text → Option ℕ → List (Text × Text)
number_param name none = []
number_param name (some n) = if n == 0 then [] else (name, decimal n) ∷ []

unfoldable pub logs_query : LogsParams → List (Text × Text)
unfolding text_param number_param
logs_query p =
    number_param (text "batch_id") p.batch_id
    ++ (text_param (text "result") p.result
        ++ (text_param (text "webhook") p.webhook
            ++ (text_param (text "user_id") p.user_id ++ number_param (text "page") p.page)))

abbrev state_text : CredentialState → Text
state_text CredentialState.all = text "all"
state_text CredentialState.used = text "used"
state_text CredentialState.unused = text "unused"

unfoldable pub site_settings_parts : UpdateSiteSettingsInput → List (Text × Part)
site_settings_parts input =
    (text "site_title", Part.text_part input.site_title)
    ∷ (logo_part input.logo
        ++ (if input.remove_logo
            then (text "remove_logo", Part.text_part (text "true")) ∷ []
            else []))
  where
    logo_part : Option File → List (Text × Part)
    logo_part none = []
    logo_part (some f) = (text "logo", Part.file_part f) ∷ []

unfoldable pub endpoint_call : Endpoint → Call
endpoint_call site_settings = read (text "/api/site-settings")
endpoint_call (update_site_settings input) =
    send (text "POST") (text "/api/admin/site-settings")
      (some (Body.form_data (site_settings_parts input)))
endpoint_call (redeem user_id code) = send (text "POST") (text "/api/redeem") (
    some
      (Body.json (object ((text "user_id", Json.str user_id) ∷ (text "code", Json.str code) ∷ []))))
endpoint_call (redeem_batch user_id codes) = send (text "POST") (text "/api/redeem/batch") (
    some (
      Body.json (
        object (
          (text "user_id", Json.str user_id)
          ∷ (text "codes", Json.arr (array_of (map Json.str codes)))
          ∷ []))))
endpoint_call public_faq = read (text "/api/faq")
endpoint_call faq = read (text "/api/admin/faq")
endpoint_call (create_faq input) = post (text "/api/admin/faq") (some (faq_fields input))
endpoint_call (update_faq id input) =
    send (text "PUT") (under (text "/api/admin/faq/") id []) (some (Body.json (faq_fields input)))
endpoint_call (delete_faq id) = send (text "DELETE") (under (text "/api/admin/faq/") id []) none
endpoint_call (reorder_faq ids) =
    post (text "/api/admin/faq/reorder")
      (some (object ((text "ids", Json.arr (array_of (map number ids))) ∷ [])))
endpoint_call (login username password) = post (text "/api/admin/login") (
    some
      (object ((text "username", Json.str username) ∷ (text "password", Json.str password) ∷ [])))
endpoint_call logout = post (text "/api/admin/logout") none
endpoint_call me = read (text "/api/admin/me")
endpoint_call stats = read (text "/api/admin/stats")
endpoint_call batches = read (text "/api/admin/batches")
endpoint_call (create_batch input) = post (text "/api/admin/batches") (some input)
endpoint_call (batch id) = read (under (text "/api/admin/batches/") id [])
endpoint_call (batch_codes id state page) =
    read_query (under (text "/api/admin/batches/") id (text "/codes"))
      ((text "state", state) ∷ (text "page", decimal page) ∷ [])
endpoint_call (toggle_batch id) = post (under (text "/api/admin/batches/") id (text "/toggle")) none
endpoint_call (toggle_code id) = post (under (text "/api/admin/codes/") id (text "/toggle")) none
endpoint_call (logs params) = read_query (text "/api/admin/logs") (logs_query params)
endpoint_call (resend_webhook id) = post (under (text "/api/admin/logs/") id (text "/resend")) none
endpoint_call (credentials state page page_size) = read_query (text "/api/admin/credentials") (
    (text "state", state_text state)
    ∷ (text "page", decimal page)
    ∷ (text "page_size", decimal page_size)
    ∷ [])
endpoint_call (credential id) = read (under (text "/api/admin/credentials/") id [])
endpoint_call (download_credential id) =
    read (under (text "/api/admin/credentials/") id (text "/download"))
endpoint_call credential_stats = read (text "/api/admin/credentials/stats")
endpoint_call credential_plans = read (text "/api/admin/credentials/plans")
endpoint_call (upload_credentials f plan_type) =
    send (text "POST") (text "/api/admin/credentials/upload") (
      some (
        Body.form_data
          ((text "file", Part.file_part f) ∷ (text "plan_type", Part.text_part plan_type) ∷ [])))
endpoint_call (delete_credential id) =
    send (text "DELETE") (under (text "/api/admin/credentials/") id []) none
endpoint_call (batch_delete_credentials ids) =
    post (text "/api/admin/credentials/batch-delete")
      (some (object ((text "ids", Json.arr (array_of (map number ids))) ∷ [])))

-- `exportUrl`, the target of a plain link.
unfoldable pub export_url : ℕ → ExportFormat → Text × List (Text × Text)
export_url id fmt = (
  under (text "/api/admin/batches/") id (text "/export"),
  (text "fmt", (elim fmt [ txt ↦ text "txt" | csv ↦ text "csv" ])) ∷ [],
)
