-- ===== src/Convert/Account.antt =====
-- `convertOne`, `convertAll` and `buildMerged` of web/src/lib/converter.ts. What belongs to the
-- runtime is a parameter: `JSON.parse`, `atob`, the parsing of dates, and the clock.
pub mod Token
pub mod Laws
pub mod Merged
use cdk_system.Base.{
  ℕ, suc, ◌+◌, Bool, true, false, ◌||◌, Option, none, some, List, [], ◌∷◌, ◌++◌, Text, text,
  text_eq, text_or, is_empty, decimal, pad_start, if◌then◌else◌,
}
use cdk_system.Json.{
  Json, null, num, str, arr, obj, Items, nil, cons, Fields, end, field, get, assign, text_or_empty,
}
use cdk_system.Convert.Account.Token.{Runtime, decode_jwt}

-- The local month (from 0), day, hour and minute that `convertOne` reads for one account, each of its
-- own `new Date()`; so they need not be parts of one time.
pub record Moment : Type 0 where
  pub month : ℕ
  pub date : ℕ
  pub hours : ℕ
  pub minutes : ℕ

-- The field `credentials`. `organization_id` is always empty.
pub record Credentials : Type 0 where
  pub access_token : Text
  pub chatgpt_account_id : Text
  pub chatgpt_user_id : Text
  pub client_id : Text
  pub email : Text
  pub expires_at : Json
  pub id_token : Text
  pub organization_id : Text
  pub plan_type : Text
  pub refresh_token : Text

-- An element of `accounts`. Its fields `platform`, `type`, `concurrency`, `priority`,
-- `rate_multiplier` and `auto_pause_on_expired` are constants, which `account_constants` lists.
pub record Account : Type 0 where
  pub name : Text
  pub credentials : Credentials
  pub extra : Fields

unfoldable pub account_constants : List (Text × Json)
account_constants =
    (text "platform", str (text "openai"))
    ∷ (text "type", str (text "oauth"))
    ∷ (text "concurrency", num (text "10"))
    ∷ (text "priority", num (text "1"))
    ∷ (text "rate_multiplier", num (text "1"))
    ∷ (text "auto_pause_on_expired", Json.bool false)
    ∷ []

-- `Sub2ApiAccount`. `proxies` is always empty.
pub record Sub2ApiAccount : Type 0 where
  pub exported_at : Text
  pub accounts : List Account

-- The tokens that the loop over `Object.entries(cpa)` leaves out.
unfoldable pub is_token_key : Text → Bool
is_token_key key =
    text_eq key (text "access_token")
    || text_eq key (text "id_token")
    || text_eq key (text "refresh_token")

-- The keys that get no own property: the tokens, and `__proto__`, whose assignment runs the setter of
-- `Object.prototype`. It can change the prototype of `extra`, which is not printed, but adds no own
-- property; what it then inherits from parsed JSON has no setter.
unfoldable pub is_left_out : Text → Bool
is_left_out key = is_token_key key || text_eq key (text "__proto__")

-- The loop over the own properties.
unfoldable pub copy_fields : Fields → Fields → Fields
copy_fields extra end = extra
copy_fields extra (field key v rest) =
    copy_fields (if is_left_out key then extra else assign key v extra) rest

-- `Object.entries`: an array has its indices for keys.
unfoldable pub index_fields : ℕ → Items → Fields
index_fields i nil = end
index_fields i (cons v vs) = field (decimal i) v (index_fields (suc i) vs)

unfoldable pub entries : Json → Fields
unfolding index_fields
entries (obj fields) = fields
entries (arr vs) = index_fields 0 vs
entries _ = end

abbrev pad : ℕ → Text
pad n = pad_start 2 b'0' (decimal n)

unfoldable pub account_name : Moment → Text → ℕ → Text
account_name now email index =
    text_or email (text "account_" ++ pad_start 4 b'0' (decimal index))
    ++ (text "-"
        ++ (pad (now.month + 1)
            ++ (text "-"
                ++ (pad now.date
                    ++ (text "-" ++ (pad now.hours ++ (text ":" ++ pad now.minutes)))))))

-- `(jwt[key] ?? {})`, then a property of it, as text. A value that is no object has no properties.
abbrev claim : Text → Text → Json → Text
claim section name jwt = elim (get section jwt) [ none ↦ [] | some v ↦ text_or_empty (get name v) ]

abbrev auth : Text
auth = text "https://api.openai.com/auth"

abbrev profile : Text
profile = text "https://api.openai.com/profile"

abbrev pub field_text : Text → Json → Text
field_text name cpa = text_or_empty (get name cpa)

-- `converted.map((item) => item.accounts[0])`; every item of `convertAll` has one account.
unfoldable pub first_accounts : List Sub2ApiAccount → List Account
first_accounts [] = []
first_accounts (item ∷ items) = elim item.accounts [
  | [] ↦ first_accounts items
  | account ∷ more ↦ account ∷ first_accounts items
]

module _ (R : Runtime) where
  unfoldable pub parse_expired : Text → Json
  parse_expired [] = null
  parse_expired (c ∷ s) = elim (R.epoch_seconds (c ∷ s)) [ none ↦ null | some n ↦ num n ]

  -- The account for the claims of its token.
  unfoldable pub account_of : Moment → ℕ → Json → Json → Account
  account_of now index jwt cpa =
      let email = field_text (text "email") cpa in
      let shown_email = text_or email (claim profile (text "email") jwt) in
      record {
        name = account_name now email index;
        credentials = record {
          access_token = field_text (text "access_token") cpa;
          chatgpt_account_id = field_text (text "account_id") cpa;
          chatgpt_user_id = claim auth (text "chatgpt_user_id") jwt;
          client_id = text_or_empty (get (text "client_id") jwt);
          email = shown_email;
          expires_at = parse_expired (field_text (text "expired") cpa);
          id_token = field_text (text "id_token") cpa;
          organization_id = [];
          plan_type =
              text_or (field_text (text "plan_type") cpa)
                (claim auth (text "chatgpt_plan_type") jwt);
          refresh_token = field_text (text "refresh_token") cpa;
        };
        extra =
            copy_fields
              (field (text "email") (str shown_email)
                (field (text "converted_from") (str (text "cpa")) end))
              (entries cpa);
      }

  -- `accessToken ? decodeJWT(accessToken) : {}`.
  abbrev pub claims : Text → Json
  claims [] = obj end
  claims (c ∷ token) = decode_jwt R (c ∷ token)

  -- From the claims on. `none`: reading a property of null throws.
  unfoldable pub with_claims : Moment → Text → ℕ → Json → Json → Option Sub2ApiAccount
  with_claims now exported_at index cpa null = none
  with_claims now exported_at index cpa jwt =
      some (record { exported_at = exported_at; accounts = account_of now index jwt cpa ∷ [] })

  -- `convertOne`.
  unfoldable pub convert_one : Moment → Text → ℕ → Json → Option Sub2ApiAccount
  convert_one now exported_at index cpa =
      with_claims now exported_at index cpa (claims (field_text (text "access_token") cpa))

  -- `convertAll`; `index` is `idx + 1`, and `moments index` is what is read of the clock for this
  -- account. An exception ends the whole conversion.
  unfoldable pub convert_all : (ℕ → Moment) → Text → ℕ → List Json → Option (List Sub2ApiAccount)
  convert_all moments exported_at index [] = some []
  convert_all moments exported_at index (acc ∷ accounts) =
      elim (convert_one (moments index) exported_at index acc) [
        | none ↦ none
        | some converted ↦ elim (convert_all moments exported_at (suc index) accounts) [
          | none ↦ none
          | some rest ↦ some (converted ∷ rest)
        ]
      ]

  -- `buildMerged`, with the two dates that are printed.
  unfoldable pub build_merged : (ℕ → Moment) → Text → Text → List Json → Option Sub2ApiAccount
  build_merged moments exported_at merged_at accounts =
      elim (convert_all moments exported_at 1 accounts) [
        | none ↦ none
        | some converted ↦
            some (record { exported_at = merged_at; accounts = first_accounts converted })
      ]
