-- ===== src/Api.antt =====
-- The HTTP client, web/src/lib/api.ts: requests, their headers, and what becomes of a response.
-- `fetch`, `document.cookie` and `decodeURIComponent` belong to the browser: the cookie text, the
-- decoder and the response are arguments.
pub mod Cookie
pub mod Endpoints
pub mod Laws
pub mod Errors
mod Tests
use cdk_system.Base.{
  ℕ, Bool, true, false, ◌||◌, ◌&&◌, Option, none, some, List, [], ◌∷◌, ◌++◌, Text, text, text_eq,
  decimal, if◌then◌else◌,
}
use cdk_system.Json.{Json, Fields, get, truthy, to_text}
use cdk_system.Api.Cookie.{get_csrf_token}

-- `ApiError`. `errors` is the field of the response body, `none` for `undefined`.
pub record ApiError : Type 0 where
  pub message : Text
  pub status : ℕ
  pub errors : Option Json

-- What an operation rejects with: an `ApiError`, or another `Error` with its message.
pub data Failure : Type 0 where
  api : ApiError → Failure
  other : Text → Failure

-- A settled promise.
pub data Settled {ℓ} (T : Type ℓ) : Type ℓ where
  resolved : T → Settled T
  rejected : Failure → Settled T

-- `err.message`.
abbrev pub error_message : Failure → Text
error_message (api e) = e.message
error_message (other message) = message

-- `err instanceof ApiError ? err.message : fallback`.
abbrev pub api_message : Text → Failure → Text
api_message fallback (api e) = e.message
api_message fallback (other message) = fallback

-- A file that the user chose, without its content.
pub record File : Type 0 where
  pub name : Text
  pub mime : Text
  pub size : ℕ

-- A value of a `FormData`.
pub data Part : Type 0 where
  text_part : Text → Part
  file_part : File → Part

pub data Body : Type 0 where
  form_data : List (Text × Part) → Body
  json : Json → Body

-- The fields of `RequestInit` that the source sets. `method` is `none` where it is left out.
pub record RequestInit : Type 0 where
  pub method : Option Text
  pub body : Option Body
  pub headers : List (Text × Text)

-- What `fetch` is called with, always with `credentials: "same-origin"`.
pub record Request : Type 0 where
  pub url : Text
  pub init : RequestInit

-- `none` stands for a body that is no JSON.
pub record Response : Type 0 where
  pub success : Bool
  pub status : ℕ
  pub body : Option Json

unfoldable pub is_mutating_method : Option Text → Bool
is_mutating_method none = false
is_mutating_method (some method) =
    text_eq method (text "POST")
    || text_eq method (text "PUT")
    || text_eq method (text "PATCH")
    || text_eq method (text "DELETE")

-- `headers[name] = value`.
unfoldable pub set_header : Text → Text → List (Text × Text) → List (Text × Text)
set_header name value [] = (name, value) ∷ []
set_header name value ((key, old) ∷ rest) =
    if text_eq key name then (key, value) ∷ rest else (key, old) ∷ set_header name value rest

-- `Object.assign(headers, given)`.
unfoldable pub assign_headers : List (Text × Text) → List (Text × Text) → List (Text × Text)
assign_headers headers [] = headers
assign_headers headers ((name, value) ∷ given) =
    assign_headers (set_header name value headers) given

abbrev content_headers : Option Body → List (Text × Text)
content_headers none = []
content_headers (some (form_data fields)) = []
content_headers (some (json v)) = (text "Content-Type", text "application/json") ∷ []

-- An empty token is falsy and is not sent.
unfoldable pub csrf_headers : Option Text → List (Text × Text) → List (Text × Text)
csrf_headers none headers = headers
csrf_headers (some []) headers = headers
csrf_headers (some (c ∷ token)) headers = set_header (text "X-CSRF-Token") (c ∷ token) headers

module _ (decode : Text → Option Text) (cookie : Text) where
  -- The headers that `request` builds. A malformed token makes `decodeURIComponent` throw.
  unfoldable pub request_headers : RequestInit → Option (List (Text × Text))
  request_headers init =
      if is_mutating_method init.method
      then elim (get_csrf_token decode cookie) [
        | none ↦ none
        | some token ↦
            some (assign_headers (csrf_headers token (content_headers init.body)) init.headers)
      ]
      else some (assign_headers (content_headers init.body) init.headers)

  -- The call of `fetch` that `request(url, init)` makes.
  unfoldable pub prepare : Text → RequestInit → Option Request
  unfolding request_headers
  prepare url init = elim (request_headers init) [
    | none ↦ none
    | some headers ↦ some (record { url = url; init = record init { headers = headers } })
  ]

-- `data.message || fallback`, as the message of an `ApiError`.
abbrev pub message_or : Option Json → Text → Text
message_or none fallback = fallback
message_or (some v) fallback = if truthy (some v) then to_text v else fallback

-- Reading a property of null throws a `TypeError`.
abbrev type_error : Failure
type_error = other (text "TypeError")

unfoldable pub failed_request : ℕ → Json → Failure
failed_request status Json.null = type_error
failed_request status body = api (record {
  message = message_or (get (text "message") body) (text "请求失败（" ++ (decimal status ++ text "）"));
  status = status;
  errors = get (text "errors") body;
})

-- The body that `request` puts in the place of one that is no JSON.
unfoldable pub broken_body : Json
broken_body = Json.obj (
    Fields.field (text "ok") (Json.bool false)
      (Fields.field (text "message") (Json.str (text "服务器响应异常，请稍后再试")) Fields.end))

abbrev pub body_of : Response → Json
body_of r = elim r.body [ none ↦ broken_body | some data' ↦ data' ]

-- `request` from the response on; a response that never came is the failure of `fetch`.
unfoldable pub request : Settled Response → Settled Json
request (rejected e) = rejected e
request (resolved r) =
    if r.success then resolved (body_of r) else rejected (failed_request r.status (body_of r))

-- `download`: as `request`, but the content of a good response is a blob.
unfoldable pub download {ℓ} : {Blob : Type ℓ} → Settled (Response × Blob) → Settled Blob
download (rejected e) = rejected e
download (resolved (r, blob)) =
    if r.success then resolved blob else rejected (failed_request r.status (body_of r))
