-- ===== src/Viewer/Numbers.antt =====
-- A printed number is one match of the expression, when punctuation or nothing follows it.
use mathlib.Core.List.{append_assoc, append-nil}
use cdk_system.Base.{
  ℕ, ◌≡◌, refl, sym, ap, ◌∙◌, Bool, true, false, ◌||◌, not, Option, none, some, [], ◌∷◌, ◌++◌, Text,
  text, starts_with, arith, length, ◌<◌, ◌==◌,
}
use cdk_system.Viewer.{
  Taken, push, maybe_after, scan_digits, scan_fraction, scan_exponent, unsigned_number,
  number_token, match_token, string_token, word_token, is_digit,
}
use cdk_system.Viewer.Printed.{
  Digits, one_digit, more_digits, ExponentText, no_exponent, positive_exponent, negative_exponent,
  UnsignedText, integral, decimal_point, NumberText, whole_number, negative,
}

-- The punctuation of a printed value.
unfoldable pub is_mark : ℕ → Bool
is_mark c =
    (c == b',')
    || (c == b'[')
    || (c == b']')
    || (c == b'{')
    || (c == b'}')
    || (c == 10)
    || (c == 32)

-- What may follow a token: nothing or punctuation.
abbrev pub opens : Text → Bool
opens [] = true
opens (c ∷ s) = is_mark c

abbrev no_digit : Text → Bool
no_digit [] = true
no_digit (c ∷ s) = not (is_digit c)

no_digit-opens : (s : Text) → opens s ≡ true → no_digit s ≡ true
unfolding is_mark
no_digit-opens [] h = refl
no_digit-opens (c ∷ s) h = ground arith

scan_digits-end : (s : Text) → no_digit s ≡ true → scan_digits s ≡ none
unfolding scan_digits
scan_digits-end [] h = refl
scan_digits-end (c ∷ s) h = ground arith

scan_digits-Digits :
    (t rest : Text) → Digits t → no_digit rest ≡ true → scan_digits (t ++ rest) ≡ some (t, rest)
unfolding scan_digits
scan_digits-Digits [] rest d k = elim d [ ]
scan_digits-Digits (c ∷ []) rest (one_digit h) k = rw (h, scan_digits-end rest k) refl
scan_digits-Digits (c ∷ t) rest (more_digits h hs) k = rw (h, scan_digits-Digits t rest hs k) refl

scan_exponent-opens : (s : Text) → opens s ≡ true → scan_exponent s ≡ none
unfolding scan_exponent is_mark
scan_exponent-opens [] h = refl
scan_exponent-opens (c ∷ s) h = ground arith

scan_fraction-opens : (s : Text) → opens s ≡ true → scan_fraction s ≡ none
unfolding scan_fraction is_mark
scan_fraction-opens [] h = refl
scan_fraction-opens (c ∷ s) h = ground arith

no_digit-exponent :
    (e rest : Text) → ExponentText e → opens rest ≡ true → no_digit (e ++ rest) ≡ true
no_digit-exponent _ rest no_exponent h = no_digit-opens rest h
no_digit-exponent _ rest (positive_exponent d) h = refl
no_digit-exponent _ rest (negative_exponent d) h = refl

scan_fraction-exponent :
    (e rest : Text) → ExponentText e → opens rest ≡ true → scan_fraction (e ++ rest) ≡ none
unfolding scan_fraction
scan_fraction-exponent _ rest no_exponent h = scan_fraction-opens rest h
scan_fraction-exponent _ rest (positive_exponent d) h = refl
scan_fraction-exponent _ rest (negative_exponent d) h = refl

abbrev and_taken : Text → Text → Option Taken → Taken
and_taken t rest none = (t, rest)
and_taken t rest (some (u, left)) = (t ++ u, left)

signed_exponent :
    (c : ℕ) (d rest : Text)
    → Digits d
    → opens rest ≡ true
    → ((c == b'+') || (c == b'-')) ≡ true
    → scan_exponent (b'e' ∷ c ∷ (d ++ rest)) ≡ some (b'e' ∷ c ∷ d, rest)
unfolding scan_exponent
signed_exponent c d rest ds h k = rw (k, scan_digits-Digits d rest ds (no_digit-opens rest h)) refl

fraction_lem :
    (u rest : Text)
    → Digits u
    → no_digit rest ≡ true
    → scan_fraction (b'.' ∷ (u ++ rest)) ≡ some (b'.' ∷ u, rest)
unfolding scan_fraction
fraction_lem u rest d h = rw (scan_digits-Digits u rest d h) refl

pub maybe_after-some :
    (part : Text → Option Taken) (t u rest left : Text)
    → part rest ≡ some (u, left)
    → maybe_after part (some (t, rest)) ≡ some (t ++ u, left)
maybe_after-some part t u rest left h = ap (λ (o : Option Taken). some (and_taken t rest o)) h

pub maybe_after-none :
    (part : Text → Option Taken) (t rest : Text)
    → part rest ≡ none
    → maybe_after part (some (t, rest)) ≡ some (t, rest)
maybe_after-none part t rest h = ap (λ (o : Option Taken). some (and_taken t rest o)) h

exponent_after :
    (t e rest : Text)
    → ExponentText e
    → opens rest ≡ true
    → maybe_after scan_exponent (some (t, e ++ rest)) ≡ some (t ++ e, rest)
exponent_after t _ rest no_exponent h =
    maybe_after-none scan_exponent t rest (scan_exponent-opens rest h)
    ∙ ap (λ r. some (r, rest)) (sym (append-nil t))
exponent_after t _ rest (positive_exponent {t = d} ds) h =
    maybe_after-some scan_exponent t (b'e' ∷ b'+' ∷ d) _ rest
      (signed_exponent b'+' d rest ds h refl)
exponent_after t _ rest (negative_exponent {t = d} ds) h =
    maybe_after-some scan_exponent t (b'e' ∷ b'-' ∷ d) _ rest
      (signed_exponent b'-' d rest ds h refl)

fraction_after :
    (t u rest : Text)
    → Digits u
    → no_digit rest ≡ true
    → maybe_after scan_fraction (some (t, b'.' ∷ (u ++ rest))) ≡ some (t ++ (b'.' ∷ u), rest)
fraction_after t u rest d h =
    maybe_after-some scan_fraction t (b'.' ∷ u) _ rest (fraction_lem u rest d h)

unsigned_number-UnsignedText :
    (t rest : Text)
    → UnsignedText t
    → opens rest ≡ true
    → unsigned_number (t ++ rest) ≡ some (t, rest)
unsigned_number-UnsignedText _ rest (integral {t} {e} d x) h =
    ap unsigned_number (append_assoc t e rest)
    ∙ (ap (λ o. maybe_after scan_exponent (maybe_after scan_fraction o))
          (scan_digits-Digits t (e ++ rest) d (no_digit-exponent e rest x h))
        ∙ (ap (maybe_after scan_exponent)
              (maybe_after-none scan_fraction t (e ++ rest) (scan_fraction-exponent e rest x h))
            ∙ exponent_after t e rest x h))
unsigned_number-UnsignedText _ rest (decimal_point {t} {u} {e} d f x) h =
    ap unsigned_number
      (append_assoc t (b'.' ∷ (u ++ e)) rest ∙ ap (λ r. t ++ (b'.' ∷ r)) (append_assoc u e rest))
    ∙ (ap (λ o. maybe_after scan_exponent (maybe_after scan_fraction o))
          (scan_digits-Digits t (b'.' ∷ (u ++ (e ++ rest))) d refl)
        ∙ (ap (maybe_after scan_exponent)
              (fraction_after t u (e ++ rest) f (no_digit-exponent e rest x h))
            ∙ (exponent_after (t ++ (b'.' ∷ u)) e rest x h
                ∙ ap (λ r. some (r, rest)) (append_assoc t (b'.' ∷ u) e))))

-- Where a number may begin, only a number matches.
match_token-number :
    (before : Bool) (c : ℕ) (s : Text)
    → (is_digit c || (c == b'-')) ≡ true
    → match_token before (c ∷ s) ≡ number_token (c ∷ s)
unfolding match_token string_token word_token starts_with text
match_token-number true c s h = ground arith
match_token-number false c s h = ground arith

pub first_digit :
    (t : Text) → UnsignedText t → (c : ℕ) × (u : Text) × (t ≡ c ∷ u) × (is_digit c ≡ true)
first_digit _ (integral {e = e} (one_digit {c} h) x) = (c, e, refl, h)
first_digit _ (integral {e = e} (more_digits {c} {t} h d) x) = (c, t ++ e, refl, h)
first_digit _ (decimal_point (one_digit {c} h) d x) = (c, _, refl, h)
first_digit _ (decimal_point (more_digits {c} h d) f x) = (c, _, refl, h)

number_token-negative : (s : Text) → number_token (b'-' ∷ s) ≡ push b'-' (unsigned_number s)
unfolding number_token
number_token-negative s = refl

number_token-digit :
    (c : ℕ) (s : Text) → is_digit c ≡ true → number_token (c ∷ s) ≡ unsigned_number (c ∷ s)
unfolding number_token
number_token-digit c s h = ground arith

from_digit :
    (before : Bool) (t rest : Text)
    → (c : ℕ) × (u : Text) × (t ≡ c ∷ u) × (is_digit c ≡ true)
    → unsigned_number (t ++ rest) ≡ some (t, rest)
    → match_token before (t ++ rest) ≡ some (t, rest)
from_digit before t rest (c, u, e, d) h =
    ap (λ r. match_token before (r ++ rest)) e
    ∙ (match_token-number before c (u ++ rest) (rw d refl)
        ∙ (number_token-digit c (u ++ rest) d
            ∙ (ap (λ r. unsigned_number (r ++ rest)) (sym e) ∙ h)))

-- A printed number is matched whole, up to punctuation or the end.
pub match_token-NumberText :
    (before : Bool) (t rest : Text)
    → NumberText t
    → opens rest ≡ true
    → match_token before (t ++ rest) ≡ some (t, rest)
match_token-NumberText before _ rest (negative {t} u) h =
    match_token-number before b'-' (t ++ rest) refl
    ∙ (number_token-negative (t ++ rest) ∙ ap (push b'-') (unsigned_number-UnsignedText t rest u h))
match_token-NumberText before t rest (whole_number u) h =
    from_digit before t rest (first_digit t u) (unsigned_number-UnsignedText t rest u h)

pub length-NumberText : (t : Text) → NumberText t → 0 < length t
length-NumberText t (whole_number u) = length_of_first t (first_digit t u)
  where
    length_of_first :
        (t : Text) → (c : ℕ) × (u : Text) × (t ≡ c ∷ u) × (is_digit c ≡ true) → 0 < length t
    length_of_first t (c, u, e, d) = omega (arith, ap length e)
length-NumberText _ (negative {t} u) = omega arith
