-- ===== src/Convert/Account/Merged.antt =====
-- The accounts of a whole conversion: what each of them is, when a conversion throws, and what depends
-- on the clock.
use cdk_system.Base.{
  ℕ, suc, ◌≡◌, refl, ◌∙◌, ap, sym, Bool, true, false, none, some, List, [], ◌∷◌, map, any, Text,
  text, arith, Option-cases, inl, inr,
}
use mathlib.Core.Option.{some-injective}
use cdk_system.Json.{Json, null}
use cdk_system.Convert.Account.Token.{Runtime}
use cdk_system.Convert.Account.{
  Moment, Account, Sub2ApiAccount, account_name, claims, field_text, account_of, with_claims,
  convert_one, convert_all, first_accounts,
}

-- An item with one account.
abbrev pub alone : Text → Account → Sub2ApiAccount
alone exported_at a = record { exported_at = exported_at; accounts = a ∷ [] }

pub first_accounts-map :
    (exported_at : Text) (as' : List Account) → first_accounts (map (alone exported_at) as') ≡ as'
unfolding first_accounts
first_accounts-map exported_at [] = refl
first_accounts-map exported_at (a ∷ as') =
    ap (λ rest. a ∷ rest) (first_accounts-map exported_at as')

abbrev is_null : Json → Bool
is_null null = true
is_null _ = false

module _ (R : Runtime) where
  -- Every account is the only one of the conversion of the account at its place, under its number.
  abbrev pub AreConverted : (ℕ → Moment) → Text → ℕ → List Json → List Account → Type 0
  AreConverted moments exported_at index [] [] = Unit
  AreConverted moments exported_at index (acc ∷ accs) (a ∷ as') =
      (convert_one R (moments index) exported_at index acc ≡ some (alone exported_at a))
      × AreConverted moments exported_at (suc index) accs as'
  AreConverted moments exported_at index _ _ = ⊥

  -- The access token of this account has null for its claims.
  abbrev pub has_null_claims : Json → Bool
  has_null_claims acc = is_null (claims R (field_text (text "access_token") acc))

  -- The second account is the first one, except for the time at the end of its name.
  abbrev pub IsRetimed : Moment → Moment → ℕ → Account → Account → Type 0
  IsRetimed now now' index a b =
      (email : Text) × (a.name ≡ account_name now email index)
      × (b ≡ record a { name = account_name now' email index })

  abbrev pub AreRetimed : (ℕ → Moment) → (ℕ → Moment) → ℕ → List Account → List Account → Type 0
  AreRetimed moments moments' index [] [] = Unit
  AreRetimed moments moments' index (a ∷ as') (b ∷ bs) =
      IsRetimed (moments index) (moments' index) index a b
      × AreRetimed moments moments' (suc index) as' bs
  AreRetimed moments moments' index _ _ = ⊥

  with_claims-IsRetimed :
      (now now' : Moment) (e e' : Text) (index : ℕ) (acc jwt : Json) (s : Sub2ApiAccount)
      → with_claims R now e index acc jwt ≡ some s
      → (a : Account) × (b : Account) × (s ≡ alone e a)
        × (with_claims R now' e' index acc jwt ≡ some (alone e' b))
        × IsRetimed now now' index a b
  unfolding with_claims account_of
  with_claims-IsRetimed now now' e e' index acc null s h = cc
  with_claims-IsRetimed now now' e e' index acc jwt s h = (
    account_of R now index jwt acc,
    account_of R now' index jwt acc,
    sym (some-injective _ _ h),
    refl,
    (field_text (text "email") acc, refl, refl),
  )

  convert_one-IsRetimed :
      (now now' : Moment) (e e' : Text) (index : ℕ) (acc : Json) (s : Sub2ApiAccount)
      → convert_one R now e index acc ≡ some s
      → (a : Account) × (b : Account) × (s ≡ alone e a)
        × (convert_one R now' e' index acc ≡ some (alone e' b))
        × IsRetimed now now' index a b
  unfolding convert_one
  convert_one-IsRetimed now now' e e' index acc s h =
      with_claims-IsRetimed now now' e e' index acc _ s h

  convert_all_of_some :
      (moments : ℕ → Moment) (e : Text) (index : ℕ) (acc : Json) (accs : List Json)
      (s : Sub2ApiAccount) (rest : List Sub2ApiAccount)
      → convert_one R (moments index) e index acc ≡ some s
      → convert_all R moments e (suc index) accs ≡ some rest
      → convert_all R moments e index (acc ∷ accs) ≡ some (s ∷ rest)
  unfolding convert_all
  convert_all_of_some moments e index acc accs s rest one later = rw (one, later, convert_all) refl

  -- A conversion that ends with one clock ends with every clock, in the same accounts up to the time
  -- in their names.
  pub convert_all-AreRetimed :
      (moments moments' : ℕ → Moment) (e e' : Text) (index : ℕ) (accs : List Json)
      (converted : List Sub2ApiAccount)
      → convert_all R moments e index accs ≡ some converted
      → (as' : List Account) × (bs : List Account) × (converted ≡ map (alone e) as')
        × (convert_all R moments' e' index accs ≡ some (map (alone e') bs))
        × AreRetimed moments moments' index as' bs
        × AreConverted moments e index accs as'
  unfolding convert_all
  convert_all-AreRetimed moments moments' e e' index [] converted h =
      ([], [], ground arith, refl, tt, tt)
  convert_all-AreRetimed moments moments' e e' index (acc ∷ accs) converted h =
      elim (Option-cases (convert_one R (moments index) e index acc)) [
        | inl thrown ↦ ground arith
        | inr (s, one) ↦ elim (Option-cases (convert_all R moments e (suc index) accs)) [
          | inl thrown ↦ ground arith
          | inr (rest, all_rest) ↦
              let (a, b, alone_a, one', same) =
                convert_one-IsRetimed (moments index) (moments' index) e e' index acc s one in
              let (as', bs, rest_as, all', sames, are) =
                convert_all-AreRetimed moments moments' e e' (suc index) accs rest all_rest in
              let whole : converted ≡ s ∷ rest = ground arith in
              (
                a ∷ as',
                b ∷ bs,
                rw (whole, alone_a, rest_as) refl,
                convert_all_of_some moments' e' index acc accs _ _ one' all',
                (same, sames),
                (one ∙ ap some alone_a, are),
              )
        ]
      ]

  null_of_none :
      (now : Moment) (e : Text) (index : ℕ) (acc jwt : Json)
      → with_claims R now e index acc jwt ≡ none
      → is_null jwt ≡ true
  unfolding with_claims
  null_of_none now e index acc null h = refl
  null_of_none now e index acc jwt h = cc

  null_of_thrown :
      (now : Moment) (e : Text) (index : ℕ) (acc : Json)
      → convert_one R now e index acc ≡ none
      → has_null_claims acc ≡ true
  unfolding convert_one
  null_of_thrown now e index acc h = null_of_none now e index acc _ h

  -- A conversion throws only for a token with null claims.
  pub convert_all-none :
      (moments : ℕ → Moment) (e : Text) (index : ℕ) (accs : List Json)
      → convert_all R moments e index accs ≡ none
      → any has_null_claims accs ≡ true
  unfolding convert_all any
  convert_all-none moments e index [] h = cc
  convert_all-none moments e index (acc ∷ accs) h =
      elim (Option-cases (convert_one R (moments index) e index acc)) [
        | inl thrown ↦ rw (null_of_thrown (moments index) e index acc thrown) refl
        | inr (s, one) ↦ elim (Option-cases (convert_all R moments e (suc index) accs)) [
          | inl thrown ↦ ground (arith, convert_all-none moments e (suc index) accs thrown)
          | inr (rest, all_rest) ↦ ground arith
        ]
      ]
