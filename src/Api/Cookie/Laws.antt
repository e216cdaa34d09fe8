-- ===== src/Api/Cookie/Laws.antt =====
-- The CSRF token is found in every list of cookies that the browser can write.
use cdk_system.Base.{
  ℕ, ◌≡◌, refl, ◌∙◌, sym, ap, Bool, true, ◌&&◌, Option, none, some, List, [], ◌∷◌, ◌++◌, Text, text,
  ◌==◌, drop, starts_with, is_empty, if◌then◌else◌, arith, all, not, All, text_eq, text_eq_iff,
  Bool-cases, inl, inr,
}
use cdk_system.Api.Cookie.{until_semicolon, token_name, match_here, match_later, match_cookie}
use mathlib.Core.List.{append-nil, append_assoc}

abbrev pub Cookie : Type 0
Cookie = Text × Text

abbrev lacks : ℕ → Text → Bool
lacks d = all (λ c. not (c == d))

-- Names hold no `=`, and names and values no `;`.
abbrev pub IsCookie : Cookie → Type 0
IsCookie (name, value) =
    (lacks b'=' name ≡ true) × (lacks b';' name ≡ true) × (lacks b';' value ≡ true)

abbrev pair_text : Cookie → Text
pair_text (name, value) = name ++ (b'=' ∷ value)

-- `document.cookie`: `name=value` pairs with `"; "` between them.
unfoldable pub cookie_text : List Cookie → Text
cookie_text [] = []
cookie_text (p ∷ []) = pair_text p
cookie_text (p ∷ q ∷ rest) = pair_text p ++ (b';' ∷ 32 ∷ cookie_text (q ∷ rest))

-- The value of the first cookie named `csrf_token` that is not empty.
unfoldable pub first_token : List Cookie → Option Text
first_token [] = none
first_token ((name, value) ∷ rest) =
    if text_eq name (text "csrf_token") && not (is_empty value)
    then some value
    else first_token rest

-- What may follow a pair: nothing, or a semicolon.
abbrev Follows : Text → Type 0
Follows [] = Unit
Follows (c ∷ s) = c ≡ b';'

until_semicolon-append :
    (value rest : Text)
    → lacks b';' value ≡ true
    → Follows rest
    → until_semicolon (value ++ rest) ≡ value
unfolding until_semicolon all
until_semicolon-append [] [] h f = refl
until_semicolon-append [] (c ∷ rest) h f = ground arith
until_semicolon-append (c ∷ value) rest h f = ground (arith, until_semicolon-append value rest)

starts_with-name :
    (name key rest : Text)
    → lacks b'=' name ≡ true
    → lacks b'=' key ≡ true
    → starts_with (name ++ (b'=' ∷ rest)) (key ++ (b'=' ∷ [])) ≡ text_eq name key
unfolding starts_with text_eq all
starts_with-name [] [] rest h k = refl
starts_with-name [] (d ∷ key) rest h k = ground arith
starts_with-name (c ∷ name) [] rest h k = ground arith
starts_with-name (c ∷ name) (d ∷ key) rest h k = ground (arith, starts_with-name name key rest)

token_name_split : token_name ≡ text "csrf_token" ++ (b'=' ∷ [])
unfolding token_name text
token_name_split = refl

drop-name : (name rest : Text) → name ≡ text "csrf_token" → drop 11 (name ++ (b'=' ∷ rest)) ≡ rest
unfolding text
drop-name name rest e = rw e

text-lacks : lacks b'=' (text "csrf_token") ≡ true
unfolding text all
text-lacks = refl

match_here-pair :
    (name value rest : Text)
    → IsCookie (name, value)
    → Follows rest
    → match_here (name ++ (b'=' ∷ (value ++ rest)))
      ≡ (if text_eq name (text "csrf_token") && not (is_empty value) then some value else none)
unfolding match_here
match_here-pair name value rest (h, k, l) f =
    let named : starts_with (name ++ (b'=' ∷ (value ++ rest))) token_name
        ≡ text_eq name (text "csrf_token") =
      rw token_name_split
        (starts_with-name name (text "csrf_token") (value ++ rest) h text-lacks) in
    rw named (elim (Bool-cases (text_eq name (text "csrf_token"))) [
      | inl same ↦
          rw
            (
              same,
              drop-name name (value ++ rest) ((text_eq_iff _ _).0 same),
              until_semicolon-append value rest l f,
            )
            (ground arith)
      | inr other ↦ rw other
    ])

match_later-equals : (s : Text) → match_later (b'=' ∷ s) ≡ match_later s
unfolding match_later starts_with
match_later-equals s = refl

match_later-append :
    (s rest : Text) → lacks b';' s ≡ true → match_later (s ++ rest) ≡ match_later rest
unfolding match_later starts_with all
match_later-append [] rest h = refl
match_later-append (c ∷ s) rest h = ground (arith, match_later-append s rest)

tail_text : List Cookie → Text
tail_text [] = []
tail_text (q ∷ rest) = b';' ∷ 32 ∷ cookie_text (q ∷ rest)

cookie_text-cons :
    (name value : Text) (rest : List Cookie)
    → cookie_text ((name, value) ∷ rest) ≡ name ++ (b'=' ∷ (value ++ tail_text rest))
unfolding cookie_text tail_text
cookie_text-cons name value [] = ap (λ v. name ++ (b'=' ∷ v)) (sym (append-nil value))
cookie_text-cons name value (q ∷ rest) =
    append_assoc name (b'=' ∷ value) (b';' ∷ 32 ∷ cookie_text (q ∷ rest))

tail_text-Follows : (rest : List Cookie) → Follows (tail_text rest)
unfolding tail_text
tail_text-Follows [] = tt
tail_text-Follows (q ∷ rest) = refl

match_later-pair :
    (name value rest : Text)
    → IsCookie (name, value)
    → match_later (name ++ (b'=' ∷ (value ++ rest))) ≡ match_later rest
match_later-pair name value rest (h, k, l) =
    match_later-append name (b'=' ∷ (value ++ rest)) k
    ∙ match_later-equals (value ++ rest)
    ∙ match_later-append value rest l

match_later-separator : (s : Text) → match_later (b';' ∷ 32 ∷ s) ≡ match_cookie s
unfolding match_later match_cookie starts_with
match_later-separator s = ground arith

match_cookie-pair :
    (name value rest : Text)
    → IsCookie (name, value)
    → Follows rest
    → match_cookie (name ++ (b'=' ∷ (value ++ rest))) ≡ (
        if text_eq name (text "csrf_token") && not (is_empty value)
        then some value
        else match_later rest)
unfolding match_cookie
match_cookie-pair name value rest h f =
    ground (arith, match_here-pair name value rest h f, match_later-pair name value rest h)

match_cookie-cons :
    (p : Cookie) (rest : List Cookie)
    → IsCookie p
    → match_later (tail_text rest) ≡ first_token rest
    → match_cookie (cookie_text (p ∷ rest)) ≡ first_token (p ∷ rest)
unfolding first_token
match_cookie-cons (name, value) rest h later =
    ap match_cookie (cookie_text-cons name value rest)
    ∙ match_cookie-pair name value (tail_text rest) h (tail_text-Follows rest)
    ∙ rw later

match_later-tail_text :
    (rest : List Cookie) → All IsCookie rest → match_later (tail_text rest) ≡ first_token rest
unfolding tail_text
match_later-tail_text [] h = unfold match_later first_token in refl
match_later-tail_text (p ∷ rest) (h, hs) =
    match_later-separator (cookie_text (p ∷ rest))
    ∙ match_cookie-cons p rest h (match_later-tail_text rest hs)

-- Whatever the other cookies are, the token found is the first non-empty `csrf_token`.
pub match_cookie-cookie_text :
    (cookies : List Cookie)
    → All IsCookie cookies
    → match_cookie (cookie_text cookies) ≡ first_token cookies
match_cookie-cookie_text [] h =
    unfold match_cookie match_here match_later cookie_text first_token starts_with token_name
      text in
    refl
match_cookie-cookie_text (p ∷ rest) (h, hs) =
    match_cookie-cons p rest h (match_later-tail_text rest hs)
