-- ===== src/Redeem/History/Entries.antt =====
-- The entries of the history: which of them a reload drops, and how many.
use cdk_system.Base.{
  ℕ, zero, suc, ◌+◌, ◌≤◌, ◌≡◌, refl, Bool, true, List, [], ◌∷◌, Text, text, text_eq, text_eq_refl,
  not, keep, take, length, Every, arith,
}
use cdk_system.Json.{Json, get, lookup, is_string, is_record}
use cdk_system.Api.Endpoints.{object}
use cdk_system.Redeem.History.Guards.{is_redeem_success, is_history_entry}
use cdk_system.Redeem.History.{create_history_entry, has_id}

-- A redemption that the server reports makes an entry that a later load accepts.
pub create_history_entry-is_history_entry :
    (id saved_at : Text) (result : Json)
    → is_redeem_success result ≡ true
    → is_history_entry (create_history_entry id saved_at result) ≡ true
unfolding is_history_entry create_history_entry object get lookup is_string is_record text text_eq
create_history_entry-is_history_entry id saved_at result h = h

pub has_id-create_history_entry :
    (id saved_at : Text) (result : Json)
    → has_id id (create_history_entry id saved_at result) ≡ true
unfolding has_id create_history_entry object get lookup text
has_id-create_history_entry id saved_at result = unfold text_eq in text_eq_refl id

pub keep-cons_dropped :
    (id : Text) (entry : Json) (entries : List Json)
    → has_id id entry ≡ true
    → keep (λ e. not (has_id id e)) (entry ∷ entries) ≡ keep (λ e. not (has_id id e)) entries
unfolding keep
keep-cons_dropped id entry entries h = rw h

-- An entry that a reload would drop, and an answer that is no redemption.
abbrev pub fails : Json → Bool
fails entry = not (is_history_entry entry)

abbrev pub is_stray : Json → Bool
is_stray result = not (is_redeem_success result)

pub length-keep-take {ℓ} :
    {A : Type ℓ} (f : A → Bool) (n : ℕ) (xs : List A)
    → length (keep f (take n xs)) ≤ length (keep f xs)
unfolding keep
length-keep-take f zero xs = omega arith
length-keep-take f (suc n) [] = omega arith
length-keep-take f (suc n) (x ∷ xs) = ground (arith, length-keep-take f n xs)

pub length-keep-keep {ℓ} :
    {A : Type ℓ} (f g : A → Bool) (xs : List A) → length (keep f (keep g xs)) ≤ length (keep f xs)
unfolding keep
length-keep-keep f g [] = omega arith
length-keep-keep f g (x ∷ xs) = ground (arith, length-keep-keep f g xs)

pub keep-one {ℓ} :
    {A : Type ℓ} (f : A → Bool) (x : A) (xs : List A)
    → length (keep f (x ∷ [])) + length (keep f xs) ≡ length (keep f (x ∷ xs))
unfolding keep
keep-one f x xs = ground arith

pub no_fails :
    (entries : List Json) → Every is_history_entry entries → length (keep fails entries) ≡ 0
unfolding keep
no_fails [] h = refl
no_fails (e ∷ entries) (h, hs) = rw h (no_fails entries hs)

pub fails-create_history_entry :
    (id saved_at : Text) (result : Json) (entries : List Json)
    → length (keep fails (create_history_entry id saved_at result ∷ entries))
      ≤ length (keep is_stray (result ∷ [])) + length (keep fails entries)
unfolding keep
fails-create_history_entry id saved_at result entries =
    ground (arith, create_history_entry-is_history_entry id saved_at result)
