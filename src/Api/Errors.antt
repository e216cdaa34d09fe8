-- ===== src/Api/Errors.antt =====
-- What the pages learn of a request that the server refuses, in web/src/lib/api.ts.
use cdk_system.Base.{
  ℕ, ◌⊎◌, inl, inr, ◌≡◌, ◌≢◌, refl, false, Option, none, some, [], ◌∷◌, ◌++◌, Text, text, decimal,
}
use cdk_system.Json.{Json, null, bool, num, str, arr, obj, get, truthy, to_text}
use cdk_system.Api.{
  ApiError, api, resolved, rejected, Response, message_or, failed_request, body_of, request,
  download,
}

-- The property is a text, or it is absent.
abbrev pub IsTextOrAbsent : Option Json → Type 0
IsTextOrAbsent none = Unit
IsTextOrAbsent (some (str s)) = Unit
IsTextOrAbsent _ = ⊥

-- The notice with the status.
abbrev pub status_text : Response → Text
status_text r = text "请求失败（" ++ (decimal r.status ++ text "）")

-- The error of a refused request: it has the status of the response, and a message that is not empty,
-- either the one of the body or the notice with the status.
pub record IsErrorOf (r : Response) (e : ApiError) : Type 0 where
  pub status : e.status ≡ r.status
  pub told : e.message ≢ []
  pub from : (get (text "message") (body_of r) ≡ some (str e.message)) ⊎ (e.message ≡ status_text r)

full_status : (r : Response) → status_text r ≢ []
unfolding text
full_status r = λ e. cc

message_or-told :
    (o : Option Json) (fallback : Text)
    → IsTextOrAbsent o
    → fallback ≢ []
    → (message_or o fallback ≢ [])
      × ((o ≡ some (str (message_or o fallback))) ⊎ (message_or o fallback ≡ fallback))
unfolding truthy to_text
message_or-told none fallback h f = (f, inr refl)
message_or-told (some (str [])) fallback h f = (f, inr refl)
message_or-told (some (str (c ∷ s))) fallback h f = (λ e. cc, inl refl)
message_or-told (some null) fallback h f = elim h [ ]
message_or-told (some (bool b)) fallback h f = elim h [ ]
message_or-told (some (num n)) fallback h f = elim h [ ]
message_or-told (some (arr vs)) fallback h f = elim h [ ]
message_or-told (some (obj fields)) fallback h f = elim h [ ]

-- The error for a body that is not null.
error_of : Response → ApiError
error_of r = record {
  message = message_or (get (text "message") (body_of r)) (status_text r);
  status = r.status;
  errors = get (text "errors") (body_of r);
}

failed_request-api :
    (status : ℕ) (body : Json)
    → body ≢ null
    → failed_request status body
      ≡ api (record {
        message =
            message_or (get (text "message") body) (text "请求失败（" ++ (decimal status ++ text "）"));
        status = status;
        errors = get (text "errors") body;
      })
unfolding failed_request
failed_request-api status null h = absurd (h refl)
failed_request-api status (bool b) h = refl
failed_request-api status (num n) h = refl
failed_request-api status (str s) h = refl
failed_request-api status (arr vs) h = refl
failed_request-api status (obj fields) h = refl

-- A response that is no success, whose body is not null and has a text or nothing for its message, also
-- one whose body is no JSON, ends `request` and `download` alike, with an error that has the status of the
-- response and a message that is not empty: the server's own, or the notice with the status.
pub request-download {ℓ} :
    {Blob : Type ℓ} (r : Response) (blob : Blob)
    → r.success ≡ false
    → body_of r ≢ null
    → IsTextOrAbsent (get (text "message") (body_of r))
    → (e : ApiError) × IsErrorOf r e
      × (request (resolved r) ≡ rejected (api e))
      × (download (resolved (r, blob)) ≡ rejected (api e))
unfolding request download error_of
request-download r blob refused given textual =
    let (told, from) =
      message_or-told (get (text "message") (body_of r)) (status_text r) textual (full_status r) in
    let failed = failed_request-api r.status (body_of r) given in
    (
      error_of r,
      record { status = refl; told = told; from = from },
      rw (refused, failed) refl,
      rw (refused, failed) refl,
    )
