-- ===== src/Redeem/History/Typed.antt =====
-- The types that the guards of web/src/pages/redeem.tsx promise: `RedeemSuccess` of
-- web/src/lib/types.ts and `RedeemHistoryEntry`.
use cdk_system.Base.{
  ◌≡◌, refl, ◌∙◌, sym, ap, subst, ◌↔◌, true, false, Option, none, some, Text, text, text_eq,
  text_eq_iff, is_some, and_split,
}
use mathlib.Core.Option.{some-injective}
use cdk_system.Json.{Json, null, bool, num, str, arr, obj, Fields, get, is_string, is_record}
use cdk_system.Redeem.History.Guards.{
  is_true, is_text, is_record_or_absent, is_redeem_success, result_ok, is_history_entry,
}

-- `RedeemSuccess`: of a record of unknown values its fields are kept.
pub record RedeemSuccess : Type 0 where
  pub message : Text
  pub batch : Text
  pub code : Text
  pub user_id : Text
  pub payload : Json
  pub credential : Option Fields
  pub redeemed_at : Text

-- `RedeemHistoryEntry`.
pub record RedeemHistoryEntry : Type 0 where
  pub id : Text
  pub saved_at : Text
  pub result : RedeemSuccess

abbrev pub record_of : Option Fields → Option Json
record_of none = none
record_of (some fields) = some (obj fields)

-- The value has the type, with these properties.
pub record IsSuccess (value : Json) (r : RedeemSuccess) : Type 0 where
  pub ok : get (text "ok") value ≡ some (bool true)
  pub result : get (text "result") value ≡ some (str (text "success"))
  pub message : get (text "message") value ≡ some (str r.message)
  pub batch : get (text "batch") value ≡ some (str r.batch)
  pub code : get (text "code") value ≡ some (str r.code)
  pub user_id : get (text "user_id") value ≡ some (str r.user_id)
  pub redeemed_at : get (text "redeemed_at") value ≡ some (str r.redeemed_at)
  pub payload : get (text "payload") value ≡ some r.payload
  pub credential : get (text "credential") value ≡ record_of r.credential

pub record IsEntry (value : Json) (e : RedeemHistoryEntry) : Type 0 where
  pub id : get (text "id") value ≡ some (str e.id)
  pub saved_at : get (text "saved_at") value ≡ some (str e.saved_at)
  pub result : (v : Json) × (get (text "result") value ≡ some v) × IsSuccess v e.result

string_of : (o : Option Json) → is_string o ≡ true → (s : Text) × (o ≡ some (str s))
unfolding is_string
string_of (some (str s)) h = (s, refl)
string_of none h = cc
string_of (some null) h = cc
string_of (some (bool b)) h = cc
string_of (some (num n)) h = cc
string_of (some (arr vs)) h = cc
string_of (some (obj fields)) h = cc

true_of : (o : Option Json) → is_true o ≡ true → o ≡ some (bool true)
true_of (some (bool true)) h = refl
true_of (some (bool false)) h = cc
true_of none h = cc
true_of (some null) h = cc
true_of (some (str s)) h = cc
true_of (some (num n)) h = cc
true_of (some (arr vs)) h = cc
true_of (some (obj fields)) h = cc

text_of : (s : Text) (o : Option Json) → is_text s o ≡ true → o ≡ some (str s)
text_of s (some (str t)) h = ap (λ u. some (str u)) ((text_eq_iff t s).0 h)
text_of s (some (bool b)) h = cc
text_of s none h = cc
text_of s (some null) h = cc
text_of s (some (num n)) h = cc
text_of s (some (arr vs)) h = cc
text_of s (some (obj fields)) h = cc

given_of : (o : Option Json) → is_some o ≡ true → (v : Json) × (o ≡ some v)
given_of none h = cc
given_of (some v) h = (v, refl)

fields_of :
    (o : Option Json) → is_record_or_absent o ≡ true → (f : Option Fields) × (o ≡ record_of f)
unfolding is_record
fields_of none h = (none, refl)
fields_of (some (obj fields)) h = (some fields, refl)
fields_of (some (str s)) h = cc
fields_of (some (bool b)) h = cc
fields_of (some null) h = cc
fields_of (some (num n)) h = cc
fields_of (some (arr vs)) h = cc

is_redeem_success-IsSuccess :
    (value : Json) → is_redeem_success value ≡ true → (r : RedeemSuccess) × IsSuccess value r
unfolding is_redeem_success
is_redeem_success-IsSuccess value h =
    let (_, h1) = and_split _ _ h in
    let (ok, h2) = and_split _ _ h1 in
    let (success, h3) = and_split _ _ h2 in
    let (m, h4) = and_split _ _ h3 in
    let (b, h5) = and_split _ _ h4 in
    let (c, h6) = and_split _ _ h5 in
    let (u, h7) = and_split _ _ h6 in
    let (d, h8) = and_split _ _ h7 in
    let (p, f) = and_split _ _ h8 in
    let (message, is_message) = string_of (get (text "message") value) m in
    let (batch, is_batch) = string_of (get (text "batch") value) b in
    let (code, is_code) = string_of (get (text "code") value) c in
    let (user_id, is_user_id) = string_of (get (text "user_id") value) u in
    let (redeemed_at, is_redeemed_at) = string_of (get (text "redeemed_at") value) d in
    let (payload, is_payload) = given_of (get (text "payload") value) p in
    let (credential, is_credential) = fields_of (get (text "credential") value) f in
    (
      record {
        message = message;
        batch = batch;
        code = code;
        user_id = user_id;
        payload = payload;
        credential = credential;
        redeemed_at = redeemed_at;
      },
      record {
        ok = true_of (get (text "ok") value) ok;
        result = text_of (text "success") (get (text "result") value) success;
        message = is_message;
        batch = is_batch;
        code = is_code;
        user_id = is_user_id;
        redeemed_at = is_redeemed_at;
        payload = is_payload;
        credential = is_credential;
      },
    )

is_record-get : (name : Text) (value v : Json) → get name value ≡ some v → is_record value ≡ true
unfolding get is_record
is_record-get name (obj fields) v h = refl
is_record-get name (str s) v h = cc
is_record-get name (bool b) v h = cc
is_record-get name null v h = cc
is_record-get name (num n) v h = cc
is_record-get name (arr vs) v h = cc

is_record-record_of : (f : Option Fields) → is_record_or_absent (record_of f) ≡ true
unfolding is_record
is_record-record_of none = refl
is_record-record_of (some fields) = refl

IsSuccess-is_redeem_success :
    (value : Json) (r : RedeemSuccess) → IsSuccess value r → is_redeem_success value ≡ true
unfolding is_redeem_success is_string
IsSuccess-is_redeem_success value r s =
    rw
      (
        is_record-get (text "ok") value (bool true) s.ok,
        s.ok,
        s.result,
        s.message,
        s.batch,
        s.code,
        s.user_id,
        s.redeemed_at,
        s.payload,
        s.credential,
      )
      (unfold text text_eq in is_record-record_of r.credential)

text_of_str : {a b : Text} → some (str a) ≡ some (str b) → a ≡ b
text_of_str h = cc

record_of-injective : (f g : Option Fields) → record_of f ≡ record_of g → f ≡ g
record_of-injective none none h = refl
record_of-injective none (some b) h = cc
record_of-injective (some a) none h = cc
record_of-injective (some a) (some b) h = cc

IsSuccess-unique :
    (value : Json) (r q : RedeemSuccess) → IsSuccess value r → IsSuccess value q → r ≡ q
IsSuccess-unique value r q s t =
    let message : r.message ≡ q.message = text_of_str (sym s.message ∙ t.message) in
    let batch : r.batch ≡ q.batch = text_of_str (sym s.batch ∙ t.batch) in
    let code : r.code ≡ q.code = text_of_str (sym s.code ∙ t.code) in
    let user_id : r.user_id ≡ q.user_id = text_of_str (sym s.user_id ∙ t.user_id) in
    let redeemed_at : r.redeemed_at ≡ q.redeemed_at =
      text_of_str (sym s.redeemed_at ∙ t.redeemed_at) in
    let payload : r.payload ≡ q.payload = some-injective _ _ (sym s.payload ∙ t.payload) in
    let credential : r.credential ≡ q.credential =
      record_of-injective r.credential q.credential (sym s.credential ∙ t.credential) in
    cc

is_history_entry-IsEntry :
    (value : Json) → is_history_entry value ≡ true → (e : RedeemHistoryEntry) × IsEntry value e
unfolding is_history_entry
is_history_entry-IsEntry value h =
    let (_, h1) = and_split _ _ h in
    let (i, h2) = and_split _ _ h1 in
    let (t, o) = and_split _ _ h2 in
    let (id, is_id) = string_of (get (text "id") value) i in
    let (saved_at, is_saved_at) = string_of (get (text "saved_at") value) t in
    let (v, is_v, success) = result_of (get (text "result") value) o in
    let (r, s) = is_redeem_success-IsSuccess v success in
    (
      record { id = id; saved_at = saved_at; result = r },
      record { id = is_id; saved_at = is_saved_at; result = (v, is_v, s) },
    )
  where
    result_of :
        (o : Option Json)
        → result_ok o ≡ true
        → (v : Json) × (o ≡ some v) × (is_redeem_success v ≡ true)
    result_of none h = cc
    result_of (some v) h = (v, refl, h)

IsEntry-is_history_entry :
    (value : Json) (e : RedeemHistoryEntry) → IsEntry value e → is_history_entry value ≡ true
unfolding is_history_entry is_string
IsEntry-is_history_entry value e s =
    let (v, is_v, success) = s.result in
    rw (is_record-get (text "id") value (str e.id) s.id, s.id, s.saved_at, is_v)
      (IsSuccess-is_redeem_success v e.result success)

IsEntry-unique :
    (value : Json) (e f : RedeemHistoryEntry) → IsEntry value e → IsEntry value f → e ≡ f
IsEntry-unique value e f s t =
    let (v, is_v, left) = s.result in
    let (w, is_w, right) = t.result in
    let id : e.id ≡ f.id = text_of_str (sym s.id ∙ t.id) in
    let saved_at : e.saved_at ≡ f.saved_at = text_of_str (sym s.saved_at ∙ t.saved_at) in
    let same : v ≡ w = some-injective _ _ (sym is_v ∙ is_w) in
    let result : e.result ≡ f.result =
      IsSuccess-unique w e.result f.result (subst (λ u. IsSuccess u e.result) same left) right in
    cc

-- A stored value passes the guard of a reload exactly if it has the type of a history entry, whose
-- result has the type of a successful redemption; and it is then one such entry only.
pub is_history_entry_iff :
    (value : Json)
    → ((is_history_entry value ≡ true) ↔ ((e : RedeemHistoryEntry) × IsEntry value e))
      × ((e f : RedeemHistoryEntry) → IsEntry value e → IsEntry value f → e ≡ f)
is_history_entry_iff value = (
  (is_history_entry-IsEntry value, λ (e, s). IsEntry-is_history_entry value e s),
  IsEntry-unique value,
)
