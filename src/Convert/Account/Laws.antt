-- ===== src/Convert/Account/Laws.antt =====
-- What a converted account carries over from the account that was read.
use cdk_system.Base.{
  ℕ, ◌≡◌, refl, ◌∙◌, ap, sym, Bool, true, false, Option, none, some, List, [], ◌∷◌, any, Text, text,
  text_eq, text_eq_iff, if◌then◌else◌, arith, inl, inr, Bool-cases,
}
use mathlib.Core.Bool.{false≢true}
use mathlib.Core.Option.{some-injective}
use cdk_system.Json.{Json, null, obj, str, Fields, end, field, lookup, assign}
use cdk_system.Json.Laws.{lookup-assign}
use cdk_system.Convert.Account.Token.{Runtime}
use cdk_system.Convert.Account.{
  Moment, Account, Sub2ApiAccount, is_token_key, is_left_out, copy_fields, entries, account_of,
  with_claims, convert_one,
}

-- No name stands twice among the properties, as in every JavaScript object.
abbrev pub HasDistinctKeys : Fields → Type 0
HasDistinctKeys end = Unit
HasDistinctKeys (field key v rest) = (lookup key rest ≡ none) × HasDistinctKeys rest

abbrev pub or_old : Option Json → Option Json → Option Json
or_old none old = old
or_old (some v) old = some v

lookup-copy_fields :
    (key : Text) (extra fields : Fields)
    → HasDistinctKeys fields
    → lookup key (copy_fields extra fields) ≡ (
        if is_left_out key then lookup key extra else or_old (lookup key fields) (lookup key extra))
unfolding copy_fields lookup
lookup-copy_fields key extra end d = ground arith
lookup-copy_fields key extra (field k v rest) (d, ds) = ground (
  arith,
  lookup-copy_fields key (if is_left_out k then extra else assign k v extra) rest ds,
  lookup-assign k key v extra,
  text_eq_iff k key,
)

-- The two properties that the converter writes itself.
abbrev pub own_extra : Text → Fields
own_extra email =
    field (text "email") (str email) (field (text "converted_from") (str (text "cpa")) end)

-- A name that is copied is not equal to one that is left out.
no_clash :
    (name key : Text) → is_left_out name ≡ false → is_left_out key ≡ true → text_eq name key ≡ false
no_clash name key h k = elim (Bool-cases (text_eq name key)) [
  | inl same ↦ absurd (false≢true (sym h ∙ ap is_left_out ((text_eq_iff name key).0 same) ∙ k))
  | inr other ↦ other
]

lookup-own_extra_left_out :
    (key email : Text) → is_left_out key ≡ true → lookup key (own_extra email) ≡ none
unfolding lookup
lookup-own_extra_left_out key email h =
    rw
      (no_clash (text "email") key plain_email h, no_clash (text "converted_from") key plain_from h)
  where
    plain_email : is_left_out (text "email") ≡ false
    plain_email = unfold is_left_out is_token_key text text_eq in refl

    plain_from : is_left_out (text "converted_from") ≡ false
    plain_from = unfold is_left_out is_token_key text text_eq in refl

-- The names of the tokens, and the one that no assignment makes an own property.
abbrev pub left_out_names : List Text
left_out_names =
    text "access_token" ∷ text "id_token" ∷ text "refresh_token" ∷ text "__proto__" ∷ []

is_left_out-eq-any : (key : Text) → is_left_out key ≡ any (text_eq key) left_out_names
unfolding is_left_out is_token_key any
is_left_out-eq-any key = ground arith

-- One converted account and its `extra`, for the properties of the account that was read.
abbrev pub HasExtra : Fields → Text → Sub2ApiAccount → Type 0
HasExtra fields key s =
    (a : Account) × (s.accounts ≡ a ∷ [])
    × (lookup key a.extra ≡ (
        if any (text_eq key) left_out_names
        then none
        else or_old (lookup key fields) (lookup key (own_extra a.credentials.email))))

module _ (R : Runtime) (now : Moment) where
  account_of-eq :
      (index : ℕ) (jwt : Json) (fields : Fields)
      → (account_of R now index jwt (obj fields)).extra
        ≡ copy_fields (own_extra (account_of R now index jwt (obj fields)).credentials.email) fields
  unfolding account_of entries
  account_of-eq index jwt fields = refl

  account_of-extra :
      (index : ℕ) (jwt : Json) (fields : Fields) (key : Text)
      → HasDistinctKeys fields
      → let a = account_of R now index jwt (obj fields) in
        lookup key a.extra ≡ (
          if is_left_out key
          then none
          else or_old (lookup key fields) (lookup key (own_extra a.credentials.email)))
  account_of-extra index jwt fields key d =
      let email : Text = (account_of R now index jwt (obj fields)).credentials.email in
      ap (lookup key) (account_of-eq index jwt fields)
      ∙ lookup-copy_fields key (own_extra email) fields d
      ∙ without_key email (is_left_out key) refl
    where
      without_key :
          (email : Text) (b : Bool)
          → is_left_out key ≡ b
          → (if b
              then lookup key (own_extra email)
              else or_old (lookup key fields) (lookup key (own_extra email)))
            ≡ (if b then none else or_old (lookup key fields) (lookup key (own_extra email)))
      without_key email true e = lookup-own_extra_left_out key email e
      without_key email false e = refl

  with_claims-HasExtra :
      (exported_at : Text) (index : ℕ) (fields : Fields) (s : Sub2ApiAccount) (key : Text)
      (jwt : Json)
      → HasDistinctKeys fields
      → with_claims R now exported_at index (obj fields) jwt ≡ some s
      → HasExtra fields key s
  unfolding with_claims
  with_claims-HasExtra exported_at index fields s key null d h = cc
  with_claims-HasExtra exported_at index fields s key jwt d h =
      let e = some-injective _ _ h in
      (
        account_of R now index jwt (obj fields),
        sym (ap (λ r. r.accounts) e),
        account_of-extra index jwt fields key d
            ∙ ap
                (λ b.
                  if b
                  then none
                  else or_old (lookup key fields) (
                      lookup key
                        (own_extra (account_of R now index jwt (obj fields)).credentials.email)))
                (is_left_out-eq-any key),
      )

  -- A converted object gives one account. Its `extra` has no own property with the name of a token or
  -- `__proto__`, whatever the object is; every other property of the object stands there as it was,
  -- before the two that the converter writes.
  pub convert_one-HasExtra :
      (exported_at : Text) (index : ℕ) (fields : Fields) (s : Sub2ApiAccount) (key : Text)
      → HasDistinctKeys fields
      → convert_one R now exported_at index (obj fields) ≡ some s
      → HasExtra fields key s
  unfolding convert_one
  convert_one-HasExtra exported_at index fields s key d h =
      with_claims-HasExtra exported_at index fields s key _ d h
