-- ===== src/Viewer/Spelling.antt =====
-- A printed string, word or number is one match of the expression, whatever follows it in a printed
-- value.
use mathlib.Core.List.{append_assoc}
use cdk_system.Base.{
  ℕ, suc, ◌/◌, ◌%◌, ◌<◌, ◌≡◌, ◌⊎◌, refl, sym, ap, ◌∙◌, Bool, true, false, ◌&&◌, ◌||◌, Bool-cases,
  Option, none, some, Option-cases, [], ◌∷◌, ◌++◌, Text, text, starts_with, arith, inl, inr, ltb,
  leb, ◌==◌, is_alnum, if◌then◌else◌,
}
use cdk_system.Viewer.{
  Taken, push, plain, hex, scan_string, is_hex, match_token, string_token, word_token, maybe_after,
  scan_colon, starts_word, is_word, number_token, scan_digits,
}
use cdk_system.Viewer.Printed.{
  hex_digit, hex_escape, short_escape, quoted_unit, quoted_units, quoted, is_pair,
}
use cdk_system.Viewer.Numbers.{is_mark, opens, maybe_after-some, maybe_after-none}

-- A part in front of what has been taken.
abbrev behind : Text → Option Taken → Option Taken
behind [] o = o
behind (c ∷ t) o = push c (behind t o)

behind-append : (t u : Text) (o : Option Taken) → behind (t ++ u) o ≡ behind t (behind u o)
behind-append [] u o = refl
behind-append (c ∷ t) u o = ap (push c) (behind-append t u o)

is_hex-hex_digit : (n : ℕ) → n < 16 → is_hex (hex_digit n) ≡ true
is_hex-hex_digit n h = ground arith

scan_string-zero : (s : Text) → scan_string (hex 0) s ≡ scan_string plain s
unfolding scan_string
scan_string-zero [] = refl
scan_string-zero (c ∷ s) = refl

scan_string-plain :
    (c : ℕ) (s : Text)
    → (c == b'"') ≡ false
    → (c == 92) ≡ false
    → scan_string plain (c ∷ s) ≡ push c (scan_string plain s)
unfolding scan_string
scan_string-plain c s h k = rw (h, k) refl

scan_string-slash :
    (c : ℕ) (s : Text)
    → (c == b'u') ≡ false
    → scan_string plain (92 ∷ c ∷ s) ≡ push 92 (push c (scan_string plain s))
unfolding scan_string
scan_string-slash c s h = rw h refl

scan_string-hex :
    (n d : ℕ) (s : Text)
    → d < 16
    → scan_string (hex (suc n)) (hex_digit d ∷ s) ≡ push (hex_digit d) (scan_string (hex n) s)
unfolding scan_string
scan_string-hex n d s h = rw (is_hex-hex_digit d h) refl

escape_begins :
    (s : Text) → scan_string plain (92 ∷ b'u' ∷ s) ≡ push 92 (push b'u' (scan_string (hex 4) s))
unfolding scan_string
escape_begins s = refl

scan_string-hex_escape :
    (c : ℕ) (s : Text)
    → scan_string plain (hex_escape c ++ s) ≡ behind (hex_escape c) (scan_string plain s)
unfolding hex_escape
scan_string-hex_escape c s =
    rw
      (
        escape_begins (hex_digit ((c / 4096) % 16) ∷ _),
        scan_string-hex 3 ((c / 4096) % 16) _ (omega arith),
        scan_string-hex 2 ((c / 256) % 16) _ (omega arith),
        scan_string-hex 1 ((c / 16) % 16) _ (omega arith),
        scan_string-hex 0 (c % 16) _ (omega arith),
        scan_string-zero s,
      )
      refl

short_escape-some : (c d : ℕ) → short_escape c ≡ some d → (d == b'u') ≡ false
unfolding short_escape
short_escape-some c d h = ground arith

short_escape-none : (c : ℕ) → short_escape c ≡ none → ((c == b'"') ≡ false) × ((c == 92) ≡ false)
unfolding short_escape
short_escape-none c h = ground arith

quoted_unit-cases :
    (c : ℕ)
    → ((d : ℕ) × ((d == b'u') ≡ false) × (quoted_unit c ≡ 92 ∷ d ∷ []))
      ⊎ ((quoted_unit c ≡ hex_escape c)
          ⊎ (((c == b'"') ≡ false) × ((c == 92) ≡ false) × (quoted_unit c ≡ c ∷ [])))
unfolding quoted_unit
quoted_unit-cases c = elim (Option-cases (short_escape c)) [
  | inr (d, e) ↦ inl (d, short_escape-some c d e, rw e refl)
  | inl e ↦ inr (elim (Bool-cases (ltb c 32 || (leb 0xd800 c && ltb c 0xe000))) [
    | inl h ↦ inl (rw (e, h) refl)
    | inr h ↦ inr ((short_escape-none c e).0, (short_escape-none c e).1, rw (e, h) refl)
  ])
]

scan_string-quoted_unit :
    (c : ℕ) (s : Text)
    → scan_string plain (quoted_unit c ++ s) ≡ behind (quoted_unit c) (scan_string plain s)
scan_string-quoted_unit c s = elim (quoted_unit-cases c) [
  | inl (d, h, e) ↦ rw e (scan_string-slash d s h)
  | inr (inl e) ↦ rw e (scan_string-hex_escape c s)
  | inr (inr (h, k, e)) ↦ rw e (scan_string-plain c s h k)
]

is_pair-plain :
    (c d : ℕ)
    → is_pair c d ≡ true
    → (((c == b'"') ≡ false) × ((c == 92) ≡ false)) × (((d == b'"') ≡ false) × ((d == 92) ≡ false))
is_pair-plain c d h = ground arith

behind-some : (t u rest : Text) → behind t (some (u, rest)) ≡ some (t ++ u, rest)
behind-some [] u rest = refl
behind-some (c ∷ t) u rest = ap (push c) (behind-some t u rest)

scan_string-behind :
    (c : ℕ) (s rest : Text)
    → scan_string plain (s ++ (b'"' ∷ rest)) ≡ some (s ++ (b'"' ∷ []), rest)
    → scan_string plain ((quoted_unit c ++ s) ++ (b'"' ∷ rest))
      ≡ some ((quoted_unit c ++ s) ++ (b'"' ∷ []), rest)
scan_string-behind c s rest h =
    ap (scan_string plain) (append_assoc (quoted_unit c) s (b'"' ∷ rest))
    ∙ (scan_string-quoted_unit c (s ++ (b'"' ∷ rest))
        ∙ (ap (behind (quoted_unit c)) h
            ∙ (behind-some (quoted_unit c) (s ++ (b'"' ∷ [])) rest
                ∙ ap (λ r. some (r, rest)) (sym (append_assoc (quoted_unit c) s (b'"' ∷ []))))))

pair_or_unit :
    (c d : ℕ) (s t rest : Text)
    → scan_string plain (s ++ (b'"' ∷ rest)) ≡ some (s ++ (b'"' ∷ []), rest)
    → scan_string plain (t ++ (b'"' ∷ rest)) ≡ some (t ++ (b'"' ∷ []), rest)
    → (b : Bool) → (is_pair c d ≡ b)
    → scan_string plain ((if b then c ∷ d ∷ s else quoted_unit c ++ t) ++ (b'"' ∷ rest))
      ≡ some ((if b then c ∷ d ∷ s else quoted_unit c ++ t) ++ (b'"' ∷ []), rest)
pair_or_unit c d s t rest h k true e =
    scan_string-plain c _ (is_pair-plain c d e).0.0 (is_pair-plain c d e).0.1
    ∙ ap (push c)
        (scan_string-plain d _ (is_pair-plain c d e).1.0 (is_pair-plain c d e).1.1 ∙ ap (push d) h)
pair_or_unit c d s t rest h k false e = scan_string-behind c t rest k

-- The units of a printed string are taken up to its closing quote.
scan_string-quoted_units :
    (s rest : Text)
    → scan_string plain (quoted_units s ++ (b'"' ∷ rest))
      ≡ some (quoted_units s ++ (b'"' ∷ []), rest)
unfolding quoted_units
scan_string-quoted_units [] rest = unfold scan_string in refl
scan_string-quoted_units (c ∷ []) rest =
    scan_string-quoted_unit c (b'"' ∷ rest)
    ∙ unfold scan_string in behind-some (quoted_unit c) (b'"' ∷ []) rest
scan_string-quoted_units (c ∷ d ∷ s) rest =
    pair_or_unit c d (quoted_units s) (quoted_units (d ∷ s)) rest (scan_string-quoted_units s rest)
      (scan_string-quoted_units (d ∷ s) rest) (is_pair c d) refl

string_token-quoted :
    (s rest : Text)
    → scan_colon rest ≡ none
    → string_token (quoted s ++ rest) ≡ some (quoted s, rest)
unfolding string_token
string_token-quoted s rest h =
    ap (λ r. maybe_after scan_colon (push b'"' (scan_string plain r)))
      (append_assoc (quoted_units s) (b'"' ∷ []) rest)
    ∙ (ap (λ o. maybe_after scan_colon (push b'"' o)) (scan_string-quoted_units s rest)
        ∙ maybe_after-none scan_colon (quoted s) rest h)

string_token-key :
    (s rest : Text)
    → string_token ((quoted s ++ (b':' ∷ [])) ++ rest) ≡ some (quoted s ++ (b':' ∷ []), rest)
unfolding string_token scan_colon
string_token-key s rest =
    ap string_token (append_assoc (quoted s) (b':' ∷ []) rest)
    ∙ (ap (λ r. maybe_after scan_colon (push b'"' (scan_string plain r)))
          (append_assoc (quoted_units s) (b'"' ∷ []) (b':' ∷ rest))
        ∙ (ap (λ o. maybe_after scan_colon (push b'"' o)) (scan_string-quoted_units s (b':' ∷ rest))
            ∙ maybe_after-some scan_colon (quoted s) (b':' ∷ []) (b':' ∷ rest) rest refl))

match_token-string :
    (before : Bool) (s t rest : Text)
    → string_token s ≡ some (t, rest)
    → match_token before s ≡ some (t, rest)
unfolding match_token
match_token-string before s t rest h = rw h refl

-- A printed string is matched whole when no colon follows.
pub match_token-quoted :
    (before : Bool) (s rest : Text)
    → scan_colon rest ≡ none
    → match_token before (quoted s ++ rest) ≡ some (quoted s, rest)
match_token-quoted before s rest h = match_token-string before _ _ _ (string_token-quoted s rest h)

pub match_token-key :
    (before : Bool) (s rest : Text)
    → match_token before ((quoted s ++ (b':' ∷ [])) ++ rest) ≡ some (quoted s ++ (b':' ∷ []), rest)
match_token-key before s rest = match_token-string before _ _ _ (string_token-key s rest)

starts_word-opens : (s : Text) → opens s ≡ true → starts_word s ≡ false
unfolding is_mark is_word is_alnum
starts_word-opens [] h = refl
starts_word-opens (c ∷ s) h = ground arith

-- So are the words, where no word character stands before.
pub match_token-null :
    (rest : Text)
    → opens rest ≡ true
    → match_token false (text "null" ++ rest) ≡ some (text "null", rest)
unfolding match_token word_token starts_with text string_token
match_token-null rest h = rw (starts_word-opens rest h) refl

pub match_token-bool :
    (b : Bool) (rest : Text)
    → opens rest ≡ true
    → match_token false ((if b then text "true" else text "false") ++ rest)
      ≡ some (if b then text "true" else text "false", rest)
unfolding match_token word_token starts_with text string_token
match_token-bool true rest h = rw (starts_word-opens rest h) refl
match_token-bool false rest h = rw (starts_word-opens rest h) refl

-- Punctuation is no token.
pub match_token-mark :
    (before : Bool) (c : ℕ) (s : Text) → is_mark c ≡ true → match_token before (c ∷ s) ≡ none
unfolding match_token word_token starts_with text string_token number_token scan_digits is_mark
match_token-mark true c s h = ground arith
match_token-mark false c s h = ground arith
