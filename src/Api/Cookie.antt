-- ===== src/Api/Cookie.antt =====
-- `getCSRFToken` of web/src/lib/api.ts: the match of `/(?:^|; )csrf_token=([^;]+)/` in the cookies.
pub mod Laws
use cdk_system.Base.{
  ℕ, Bool, true, false, ◌||◌, ◌&&◌, Option, none, some, List, [], ◌∷◌, ◌++◌, Text, text, ◌==◌, drop,
  starts_with, is_empty, length, if◌then◌else◌,
}

-- `[^;]*`, greedy.
unfoldable pub until_semicolon : Text → Text
until_semicolon [] = []
until_semicolon (c ∷ s) = let rest = until_semicolon s in if c == b';' then [] else c ∷ rest

unfoldable pub token_name : Text
token_name = text "csrf_token="

-- `csrf_token=([^;]+)` at this place: the group, which is not empty.
unfoldable pub match_here : Text → Option Text
match_here s =
    if starts_with s token_name
    then (if is_empty (until_semicolon (drop 11 s))
        then none
        else some (until_semicolon (drop 11 s)))
    else none

-- The first match behind a `"; "`, at this place or later.
unfoldable pub match_later : Text → Option Text
match_later [] = none
match_later (c ∷ s) =
    let later = match_later s in
    elim (starts_with (c ∷ s) (b';' ∷ 32 ∷ [])) [
      | false ↦ later
      | true ↦ elim (match_here (drop 1 s)) [ none ↦ later | some token ↦ some token ]
    ]

-- The first match in the cookies: at the start, or behind a `"; "`.
unfoldable pub match_cookie : Text → Option Text
match_cookie cookie = elim (match_here cookie) [
  | none ↦ match_later cookie
  | some token ↦ some token
]

-- The outer `none` is the `URIError` that `decodeURIComponent` throws, the inner one is null.
unfoldable pub get_csrf_token : (Text → Option Text) → Text → Option (Option Text)
get_csrf_token decode cookie = elim (match_cookie cookie) [
  | none ↦ some none
  | some token ↦ elim (decode token) [ none ↦ none | some t ↦ some (some t) ]
]
