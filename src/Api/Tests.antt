-- ===== src/Api/Tests.antt =====
-- Runs of the cookie reader and the requests on small inputs.
use cdk_system.Base.{
  ◌≡◌, refl, false, text_eq, none, some, List, [], ◌∷◌, text, all, starts_with, if◌then◌else◌,
}
use cdk_system.Json.{get, lookup}
use cdk_system.Api.{ApiError, api, resolved, rejected, Response, request, download, broken_body}
use cdk_system.Api.Errors.{IsErrorOf, request-download}
use cdk_system.Api.Cookie.{
  match_cookie, match_here, match_later, until_semicolon, token_name, get_csrf_token,
}
use cdk_system.Api.Cookie.Laws.{Cookie, cookie_text, first_token, match_cookie-cookie_text}
use cdk_system.Api.Endpoints.{delete_faq}
use cdk_system.Api.Laws.{is_write, sends_json, sent, sent-endpoint_call}

abbrev cookies : List Cookie
cookies = (text "a", text "1") ∷ (text "csrf_token", text "xyz") ∷ []

match_cookie-cookie_text_example : match_cookie (cookie_text cookies) ≡ first_token cookies
unfolding all text
match_cookie-cookie_text_example =
    match_cookie-cookie_text cookies ((refl, refl, refl), ((refl, refl, refl), tt))

sent-endpoint_call_example :
    (sent some (text "csrf_token=xyz") (text "X-CSRF-Token") (delete_faq 3)
      ≡ some (if is_write (delete_faq 3) then some (text "xyz") else none))
    × (sent some (text "csrf_token=xyz") (text "Content-Type") (delete_faq 3)
        ≡ some (if sends_json (delete_faq 3) then some (text "application/json") else none))
unfolding get_csrf_token match_cookie match_here match_later until_semicolon token_name text
    starts_with
sent-endpoint_call_example =
    sent-endpoint_call some (text "csrf_token=xyz") (text "xyz") refl refl (delete_faq 3)

-- A gateway that answers with a page instead of JSON.
abbrev gateway : Response
gateway = record { success = false; status = 502; body = none }

request-download_example :
    (e : ApiError) × IsErrorOf gateway e
    × (request (resolved gateway) ≡ rejected (api e))
    × (download (resolved (gateway, text "blob")) ≡ rejected (api e))
unfolding broken_body get lookup text_eq text
request-download_example = request-download gateway (text "blob") refl (λ e. cc) tt
