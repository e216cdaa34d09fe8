-- ===== src/Api/Laws.antt =====
-- When a request carries the CSRF token and a content type.
use cdk_system.Base.{
  ◌≡◌, refl, Bool, true, false, Option, none, some, List, [], ◌∷◌, Text, text, text_eq, is_empty,
  if◌then◌else◌, arith,
}
use cdk_system.Api.{request_headers, csrf_headers, set_header, is_mutating_method, assign_headers}
use cdk_system.Api.Cookie.{get_csrf_token}
use cdk_system.Api.Endpoints.{
  Endpoint, site_settings, update_site_settings, redeem, redeem_batch, create_faq, update_faq,
  delete_faq, reorder_faq, login, logout, create_batch, toggle_batch, toggle_code, resend_webhook,
  upload_credentials, delete_credential, batch_delete_credentials, endpoint_call, post, init_of,
}

-- The value of a header.
unfoldable pub header : Text → List (Text × Text) → Option Text
header name [] = none
header name ((key, v) ∷ rest) = if text_eq key name then some v else header name rest

-- The operations that change what the server keeps.
unfoldable pub is_write : Endpoint → Bool
is_write (update_site_settings _) = true
is_write (redeem _ _) = true
is_write (redeem_batch _ _) = true
is_write (create_faq _) = true
is_write (update_faq _ _) = true
is_write (delete_faq _) = true
is_write (reorder_faq _) = true
is_write (login _ _) = true
is_write logout = true
is_write (create_batch _) = true
is_write (toggle_batch _) = true
is_write (toggle_code _) = true
is_write (resend_webhook _) = true
is_write (upload_credentials _ _) = true
is_write (delete_credential _) = true
is_write (batch_delete_credentials _) = true
is_write _ = false

-- The operations that send a JSON body.
unfoldable pub sends_json : Endpoint → Bool
sends_json (redeem _ _) = true
sends_json (redeem_batch _ _) = true
sends_json (create_faq _) = true
sends_json (update_faq _ _) = true
sends_json (reorder_faq _) = true
sends_json (login _ _) = true
sends_json (create_batch _) = true
sends_json (batch_delete_credentials _) = true
sends_json _ = false

module _ (decode : Text → Option Text) (cookie : Text) where
  -- The header as the operation's request carries it; the outer `none` is a request that throws.
  abbrev pub sent : Text → Endpoint → Option (Option Text)
  sent name e = elim (request_headers decode cookie (endpoint_call e).init) [
    | none ↦ none
    | some headers ↦ some (header name headers)
  ]

  -- With a token in the cookies, exactly the operations that change what the server keeps carry it
  -- in `X-CSRF-Token`, and exactly those with a JSON body declare its type.
  pub sent-endpoint_call :
      (token : Text)
      → get_csrf_token decode cookie ≡ some (some token)
      → is_empty token ≡ false
      → (e : Endpoint)
      → (sent (text "X-CSRF-Token") e ≡ some (if is_write e then some token else none))
        × (sent (text "Content-Type") e
            ≡ some (if sends_json e then some (text "application/json") else none))
  unfolding request_headers csrf_headers set_header header is_write sends_json endpoint_call post
      init_of is_mutating_method text text_eq assign_headers
  sent-endpoint_call [] found full e = cc
  sent-endpoint_call (c ∷ token) found full site_settings = (refl, refl)
  sent-endpoint_call (c ∷ token) found full e = ground arith
