-- ===== src/Redeem/Submit/Laws.antt =====
-- What the redeem form sends, and what it leaves for the next attempt.
use cdk_system.Base.{
  ◌≡◌, ◌≢◌, if◌then◌else◌, refl, ◌∙◌, ap, ◌⊎◌, inl, inr, true, false, Option, none, some, List, [],
  ◌∷◌, Text, trim, is_empty, is_some, keep, Every, any, arith, Bool-cases,
}
use cdk_system.Api.{resolved}
use cdk_system.Redeem.Codes.{parse_cdk_list, contains}
use cdk_system.Redeem.Codes.Parts.{is_code}
use cdk_system.Redeem.Codes.Laws.{Distinct, parse_cdk_list-Distinct}
use cdk_system.Redeem.Codes.Roundtrip.{lines, parse_cdk_list-lines}
use cdk_system.Redeem.Email.{is_valid_email, is_address}
use cdk_system.Redeem.Archive.{RedeemBatchItem}
use cdk_system.Redeem.Submit.{
  RedeemBatchResponse, Tab, Redemption, one, many, request_for, handle_submit, failed_codes,
  redeem_batch_settled,
}

-- The user and the codes that a request names.
abbrev pub user_of : Redemption → Text
user_of (one uid code) = uid
user_of (many uid codes) = uid

abbrev pub codes_of : Redemption → List Text
codes_of (one uid code) = code ∷ []
codes_of (many uid codes) = codes

-- What a submission does: it stops with a message and leaves all else as it was, because the address
-- or the codes are missing; or it sends a request for a valid address and distinct codes.
abbrev pub IsSubmission : Tab → Tab × Option Redemption → Type 0
IsSubmission t (t', none) =
    (is_some t'.error ≡ true)
    × (t' ≡ record t { error = t'.error })
    × ((is_valid_email (trim t.user_id) ≡ false) ⊎ (parse_cdk_list t.code_input ≡ []))
IsSubmission t (t', some r) =
    (t' ≡ record t { loading = true; error = none; batch_results = [] })
    × (user_of r ≡ trim t.user_id)
    × (is_valid_email (user_of r) ≡ true)
    × (codes_of r ≡ parse_cdk_list t.code_input)
    × ((codes_of r ≢ []) × Every is_code (codes_of r) × Distinct (codes_of r))

request_for-codes :
    (uid : Text) (codes : List Text)
    → is_empty codes ≡ false
    → (r : Redemption) × (request_for uid codes ≡ some r) × (user_of r ≡ uid) × (codes_of r ≡ codes)
request_for-codes uid [] h = cc
request_for-codes uid (code ∷ []) h = (one uid code, refl, refl, refl)
request_for-codes uid (code ∷ next ∷ codes) h = (many uid (code ∷ next ∷ codes), refl, refl, refl)

is_empty→nil {ℓ} : {A : Type ℓ} (xs : List A) → is_empty xs ≡ true → xs ≡ []
is_empty→nil [] h = refl
is_empty→nil (x ∷ xs) h = cc

empty_is_no_email : (s : Text) → is_empty s ≡ true → is_valid_email s ≡ false
empty_is_no_email [] h = unfold is_valid_email is_address in refl
empty_is_no_email (c ∷ s) h = cc

ne_nil_of_full {ℓ} : {A : Type ℓ} (xs : List A) → is_empty xs ≡ false → xs ≢ []
ne_nil_of_full [] h = cc
ne_nil_of_full (x ∷ xs) h = λ e. cc

sent-IsSubmission :
    (t : Tab)
    → is_valid_email (trim t.user_id) ≡ true
    → is_empty (parse_cdk_list t.code_input) ≡ false
    → IsSubmission t (
      record t { loading = true; error = none; batch_results = [] },
      request_for (trim t.user_id) (parse_cdk_list t.code_input),
    )
sent-IsSubmission t valid full =
    let (r, e, user, codes) =
      request_for-codes (trim t.user_id) (parse_cdk_list t.code_input) full in
    let (good, distinct) = parse_cdk_list-Distinct t.code_input in
    rw e (
      refl,
      user,
      rw user valid,
      codes,
      (
        rw codes (ne_nil_of_full (parse_cdk_list t.code_input) full),
        rw codes good,
        rw codes distinct,
      ),
    )

-- A submission either stops with a message, changing nothing else, because there is no valid
-- address or no code; or it starts to load and sends one request, for the trimmed address and the
-- codes of the field, which are well formed, distinct and at least one.
pub handle_submit-IsSubmission : (t : Tab) → IsSubmission t (handle_submit t)
unfolding handle_submit
handle_submit-IsSubmission t = elim (Bool-cases (is_empty (trim t.user_id))) [
  | inl nobody ↦
      rw (nobody, handle_submit) (refl, refl, inl (empty_is_no_email (trim t.user_id) nobody))
  | inr somebody ↦ elim (Bool-cases (is_valid_email (trim t.user_id))) [
    | inr invalid ↦ rw (somebody, invalid, handle_submit) (refl, refl, inl invalid)
    | inl valid ↦ elim (Bool-cases (is_empty (parse_cdk_list t.code_input))) [
      | inl no_codes ↦
          rw (somebody, valid, no_codes, handle_submit)
            (refl, refl, inr (is_empty→nil (parse_cdk_list t.code_input) no_codes))
      | inr full ↦ rw (somebody, valid, full, handle_submit) (sent-IsSubmission t valid full)
    ]
  ]
]

redeem_batch_settled-code_input :
    (t : Tab) (answer : RedeemBatchResponse)
    → answer.failed ≢ 0
    → (redeem_batch_settled (resolved answer) t).0.code_input ≡ lines (failed_codes answer.results)
unfolding redeem_batch_settled
redeem_batch_settled-code_input t answer h = ground arith

-- The items answer the codes at their places. A code that is redeemed may come back in another
-- form, such as the one with dashes in which the server shows it; any other code comes back as it
-- was sent.
abbrev pub AreAnswers : List Text → List RedeemBatchItem → Type 0
AreAnswers [] [] = Unit
AreAnswers (code ∷ codes) (item ∷ items) =
    ((item.success ≡ true) ⊎ (item.code ≡ code)) × AreAnswers codes items
AreAnswers _ _ = ⊥

-- The codes that were sent and not reported as redeemed.
unfoldable pub unredeemed : List Text → List RedeemBatchItem → List Text
unredeemed [] items = []
unredeemed (code ∷ codes) [] = []
unredeemed (code ∷ codes) (item ∷ items) =
    let rest = unredeemed codes items in if item.success then rest else code ∷ rest

failed_codes-eq-unredeemed :
    (codes : List Text) (items : List RedeemBatchItem)
    → AreAnswers codes items
    → failed_codes items ≡ unredeemed codes items
unfolding failed_codes keep unredeemed
failed_codes-eq-unredeemed [] [] h = refl
failed_codes-eq-unredeemed [] (item ∷ items) h = elim h [ ]
failed_codes-eq-unredeemed (code ∷ codes) [] h = elim h [ ]
failed_codes-eq-unredeemed (code ∷ codes) (item ∷ items) (inl redeemed, hs) =
    rw redeemed (failed_codes-eq-unredeemed codes items hs)
failed_codes-eq-unredeemed (code ∷ codes) (item ∷ items) (inr same, hs) =
    elim (Bool-cases item.success) [
      | inl redeemed ↦ rw redeemed (failed_codes-eq-unredeemed codes items hs)
      | inr refused ↦ rw refused (
          ap (λ c. c ∷ failed_codes items) same
          ∙ ap (λ cs. code ∷ cs) (failed_codes-eq-unredeemed codes items hs))
    ]

-- Dropping codes keeps them well formed and distinct.
unredeemed-subset :
    (codes : List Text) (items : List RedeemBatchItem) (code : Text)
    → contains codes code ≡ false
    → contains (unredeemed codes items) code ≡ false
unfolding unredeemed contains any
unredeemed-subset [] items code h = refl
unredeemed-subset (c ∷ codes) [] code h = refl
unredeemed-subset (c ∷ codes) (item ∷ items) code h =
    ground (arith, unredeemed-subset codes items code)

unredeemed-Distinct :
    (codes : List Text) (items : List RedeemBatchItem)
    → Every is_code codes
    → Distinct codes
    → Every is_code (unredeemed codes items) × Distinct (unredeemed codes items)
unfolding unredeemed
unredeemed-Distinct [] items h d = (tt, tt)
unredeemed-Distinct (code ∷ codes) [] h d = (tt, tt)
unredeemed-Distinct (code ∷ codes) (item ∷ items) (h, hs) (d, ds) =
    ground (arith, unredeemed-Distinct codes items hs ds, unredeemed-subset codes items code d)

-- When some codes of a batch failed, and the answer has one item for each code that was sent, in
-- their order, which names a code that failed as it was sent and a redeemed one in any form: the
-- field is left with a text from which exactly the codes that failed are read, in the order in which
-- they were sent; so a second submission asks for exactly those.
pub parse_cdk_list-redeem_batch_settled :
    (t t' : Tab) (uid : Text) (codes : List Text) (answer : RedeemBatchResponse)
    → handle_submit t ≡ (t', some (many uid codes))
    → AreAnswers codes answer.results
    → answer.failed ≢ 0
    → parse_cdk_list (redeem_batch_settled (resolved answer) t').0.code_input
      ≡ unredeemed codes answer.results
parse_cdk_list-redeem_batch_settled t t' uid codes answer e answers some_failed =
    let submission : IsSubmission t (t', some (many uid codes)) =
      rw e at (handle_submit-IsSubmission t) in
    let (_, good, distinct) = submission.4 in
    let (failed_good, failed_distinct) = unredeemed-Distinct codes answer.results good distinct in
    ap parse_cdk_list (
      redeem_batch_settled-code_input t' answer some_failed
      ∙ ap lines (failed_codes-eq-unredeemed codes answer.results answers))
    ∙ parse_cdk_list-lines (unredeemed codes answer.results) failed_good failed_distinct
