-- ===== src/Viewer/Parts.antt =====
-- A match cuts a text in two and is not empty, so the splitting ends and loses nothing.
use mathlib.Core.List.{append_assoc, append-nil}
use cdk_system.Base.{
  starts_with-append, ℕ, zero, suc, ◌<◌, ◌≤◌, ◌≡◌, refl, sym, ap, ◌∙◌, Bool, true, false,
  Bool-cases, Option, none, some, List, [], ◌∷◌, ◌++◌, map, Text, text, length, length-append,
  starts_with, drop, arith, inl, inr, if◌then◌else◌, subst, join, ◌&&◌, and_split, not,
}
use cdk_system.Viewer.{
  Taken, push, Escape, plain, slash, hex, scan_string, scan_colon, maybe_after, string_token,
  word_token, scan_digits, scan_fraction, signed_digits, scan_exponent, unsigned_number,
  number_token, or_else, match_token, ends_in_word, is_word, Colour, split_tokens, put_before,
  token_class, Painted, paint_result, paint_part, paint_parts, paint, starts_word,
}

-- What is taken and what is left make up the text, and something is taken.
pub data Cuts (s : Text) : Option Taken → Type 0 where
  no_match : Cuts s none
  cut : {t rest : Text} → t ++ rest ≡ s → 1 ≤ length t → Cuts s (some (t, rest))

push-Cuts : (c : ℕ) (s : Text) (o : Option Taken) → Cuts s o → Cuts (c ∷ s) (push c o)
push-Cuts c s none h = no_match
push-Cuts c s (some (t, rest)) (cut h k) = cut (rw h) (omega arith)

if-Cuts :
    (b : Bool) (s : Text) (o p : Option Taken) → Cuts s o → Cuts s p → Cuts s (if b then o else p)
if-Cuts true s o p h k = h
if-Cuts false s o p h k = k

first-Cuts : (c : ℕ) (s : Text) → Cuts (c ∷ s) (some (c ∷ [], s))
first-Cuts c s = cut refl (omega arith)

or_else-Cuts : (s : Text) (o p : Option Taken) → Cuts s o → Cuts s p → Cuts s (or_else o p)
or_else-Cuts s none p h k = k
or_else-Cuts s (some t) p h k = h

and_maybe-Cuts :
    (s t u : Text) (o : Option Taken)
    → Cuts u o
    → t ++ u ≡ s
    → 1 ≤ length t
    → Cuts s (some (elim o [ none ↦ (t, u) | some (v, left) ↦ (t ++ v, left) ]))
and_maybe-Cuts s t u none h k l = cut k l
and_maybe-Cuts s t u (some (v, left)) (cut h m) k l =
    cut (append_assoc t v left ∙ (ap (λ r. t ++ r) h ∙ k)) (omega (arith, length-append t v))

maybe_after-Cuts :
    (part : Text → Option Taken)
    → ((u : Text) → Cuts u (part u))
    → (s : Text) (o : Option Taken) → Cuts s o
    → Cuts s (maybe_after part o)
maybe_after-Cuts part each s none h = no_match
maybe_after-Cuts part each s (some (t, u)) (cut h k) = and_maybe-Cuts s t u (part u) (each u) h k

scan_string-Cuts : (e : Escape) (s : Text) → Cuts s (scan_string e s)
unfolding scan_string
scan_string-Cuts e [] = no_match
scan_string-Cuts plain (c ∷ s) = if-Cuts _ _ _ _ (first-Cuts c s) (
    if-Cuts _ _ _ _ (push-Cuts c s _ (scan_string-Cuts slash s))
      (push-Cuts c s _ (scan_string-Cuts plain s)))
scan_string-Cuts slash (c ∷ s) =
    if-Cuts _ _ _ _ (push-Cuts c s _ (scan_string-Cuts (hex 4) s))
      (push-Cuts c s _ (scan_string-Cuts plain s))
scan_string-Cuts (hex zero) (c ∷ s) = if-Cuts _ _ _ _ (first-Cuts c s) (
    if-Cuts _ _ _ _ (push-Cuts c s _ (scan_string-Cuts slash s))
      (push-Cuts c s _ (scan_string-Cuts plain s)))
scan_string-Cuts (hex (suc n)) (c ∷ s) =
    if-Cuts _ _ _ _ (push-Cuts c s _ (scan_string-Cuts (hex n) s)) no_match

scan_colon-Cuts : (s : Text) → Cuts s (scan_colon s)
unfolding scan_colon
scan_colon-Cuts [] = no_match
scan_colon-Cuts (c ∷ s) =
    if-Cuts _ _ _ _ (first-Cuts c s)
      (if-Cuts _ _ _ _ (push-Cuts c s _ (scan_colon-Cuts s)) no_match)

string_token-Cuts : (s : Text) → Cuts s (string_token s)
unfolding string_token
string_token-Cuts [] = no_match
string_token-Cuts (c ∷ s) =
    if-Cuts _ _ _ _
      (maybe_after-Cuts scan_colon scan_colon-Cuts _ _ (push-Cuts c s _ (scan_string-Cuts plain s)))
      no_match

word_token-Cuts :
    (w : Text) (before : Bool) (s : Text) → 1 ≤ length w → Cuts s (word_token w before s)
unfolding word_token
word_token-Cuts w before s h =
    elim (Bool-cases (not before && (starts_with s w && not (starts_word (drop (length w) s))))) [
      | inl e ↦
          rw e (cut (starts_with-append s w (and_split _ _ (and_split (not before) _ e).1).0) h)
      | inr e ↦ rw e no_match
    ]

digits_more :
    (c : ℕ) (s : Text) (o : Option Taken)
    → Cuts s o
    → Cuts (c ∷ s) (elim o [ none ↦ some (c ∷ [], s) | some (t, rest) ↦ some (c ∷ t, rest) ])
digits_more c s none h = first-Cuts c s
digits_more c s (some (t, rest)) h = push-Cuts c s (some (t, rest)) h

scan_digits-Cuts : (s : Text) → Cuts s (scan_digits s)
unfolding scan_digits
scan_digits-Cuts [] = no_match
scan_digits-Cuts (c ∷ s) = if-Cuts _ _ _ _ (digits_more c s _ (scan_digits-Cuts s)) no_match

scan_fraction-Cuts : (s : Text) → Cuts s (scan_fraction s)
unfolding scan_fraction
scan_fraction-Cuts [] = no_match
scan_fraction-Cuts (c ∷ s) = if-Cuts _ _ _ _ (push-Cuts c s _ (scan_digits-Cuts s)) no_match

signed_digits-Cuts : (s : Text) → Cuts s (signed_digits s)
signed_digits-Cuts [] = no_match
signed_digits-Cuts (c ∷ s) =
    if-Cuts _ _ _ _ (push-Cuts c s _ (scan_digits-Cuts s)) (scan_digits-Cuts (c ∷ s))

scan_exponent-Cuts : (s : Text) → Cuts s (scan_exponent s)
unfolding scan_exponent
scan_exponent-Cuts [] = no_match
scan_exponent-Cuts (c ∷ s) = if-Cuts _ _ _ _ (push-Cuts c s _ (signed_digits-Cuts s)) no_match

unsigned_number-Cuts : (s : Text) → Cuts s (unsigned_number s)
unsigned_number-Cuts s =
    maybe_after-Cuts scan_exponent scan_exponent-Cuts s _
      (maybe_after-Cuts scan_fraction scan_fraction-Cuts s _ (scan_digits-Cuts s))

number_token-Cuts : (s : Text) → Cuts s (number_token s)
unfolding number_token
number_token-Cuts [] = no_match
number_token-Cuts (c ∷ s) =
    if-Cuts _ _ _ _ (push-Cuts c s _ (unsigned_number-Cuts s)) (unsigned_number-Cuts (c ∷ s))

pub match_token-Cuts : (before : Bool) (s : Text) → Cuts s (match_token before s)
unfolding match_token text
match_token-Cuts before s = or_else-Cuts s _ _ (string_token-Cuts s) (
    or_else-Cuts s _ _ (word_token-Cuts _ before s (omega arith)) (
      or_else-Cuts s _ _ (word_token-Cuts _ before s (omega arith))
        (or_else-Cuts s _ _ (word_token-Cuts _ before s (omega arith)) (number_token-Cuts s))))

-- All parts together make up the text.
data Whole (s : Text) : Option (List Text) → Type 0 where
  whole : {parts : List Text} → join [] parts ≡ s → Whole s (some parts)

join-cons : (t : Text) (parts : List Text) → join [] (t ∷ parts) ≡ t ++ join [] parts
unfolding join
join-cons t [] = sym (append-nil t)
join-cons t (u ∷ parts) = refl

put_before-Whole :
    (cur t s : Text) (o : Option (List Text))
    → Whole s o
    → Whole (cur ++ (t ++ s)) (put_before cur t o)
put_before-Whole cur t s none h = elim h [ ]
put_before-Whole cur t s (some parts) (whole h) =
    whole (join-cons cur (t ∷ parts) ∙ ap (λ r. cur ++ r) (join-cons t parts ∙ ap (λ r. t ++ r) h))

Whole-eq : (s t : Text) (o : Option (List Text)) → s ≡ t → Whole s o → Whole t o
Whole-eq s t o h k = subst (λ r. Whole r o) h k

one_token :
    (f : ℕ)
    → ((b : Bool) (u v : Text) → length v < f → Whole (u ++ v) (split_tokens f b u v))
    → (before : Bool) (cur : Text) (c : ℕ) (s : Text) (o : Option Taken) → length (c ∷ s) < suc f
    → Cuts (c ∷ s) o
    → Whole (cur ++ (c ∷ s)) (elim o [
      | none ↦ split_tokens f (is_word c) (cur ++ (c ∷ [])) s
      | some (t, rest) ↦ put_before cur t (split_tokens f (ends_in_word before t) [] rest)
    ])
one_token f less before cur c s none h no_match =
    Whole-eq _ _ _ (append_assoc cur (c ∷ []) s)
      (less (is_word c) (cur ++ (c ∷ [])) s (omega arith))
one_token f less before cur c s (some (t, rest)) h (cut e k) =
    Whole-eq _ _ _ (ap (λ r. cur ++ r) e) (
      put_before-Whole cur t rest _
        (less (ends_in_word before t) [] rest (omega (arith, length-append t rest, ap length e))))

-- With more fuel than units, the parts are all there and make up the text.
split_tokens-Whole :
    (f : ℕ) (before : Bool) (cur s : Text)
    → length s < f
    → Whole (cur ++ s) (split_tokens f before cur s)
unfolding split_tokens join
split_tokens-Whole zero before cur s h = absurd (omega arith)
split_tokens-Whole (suc f) before cur [] h = whole (sym (append-nil cur))
split_tokens-Whole (suc f) before cur (c ∷ s) h =
    one_token f (split_tokens-Whole f) before cur c s _ h (match_token-Cuts before (c ∷ s))

-- The characters shown are those of the text.
map-paint_part : (colour : Option Colour) (s : Text) → map (λ p. p.0) (paint_part colour s) ≡ s
map-paint_part colour [] = refl
map-paint_part colour (c ∷ s) = ap (λ r. c ∷ r) (map-paint_part colour s)

map-append : (xs ys : Painted) → map (λ p. p.0) (xs ++ ys) ≡ map (λ p. p.0) xs ++ map (λ p. p.0) ys
map-append [] ys = refl
map-append (x ∷ xs) ys = ap (λ r. x.0 ∷ r) (map-append xs ys)

map-paint_parts : (parts : List Text) → map (λ p. p.0) (paint_parts parts) ≡ join [] parts
unfolding join
map-paint_parts [] = refl
map-paint_parts (part ∷ parts) =
    map-append (paint_part (token_class part) part) (paint_parts parts)
    ∙ rw (map-paint_part (token_class part) part, map-paint_parts parts)
        (sym (join-cons part parts))

shown :
    (s : Text) (o : Option (List Text))
    → Whole s o
    → (shown : Painted) × (paint_result o ≡ some shown) × (map (λ p. p.0) shown ≡ s)
shown s none h = elim h [ ]
shown s (some parts) (whole h) = (paint_parts parts, refl, map-paint_parts parts ∙ h)

-- For every text, the viewer shows something, and what it shows is the text, all of it and in its order.
pub paint_lem : (s : Text) → (shown : Painted) × (paint s ≡ some shown) × (map (λ p. p.0) shown ≡ s)
unfolding paint
paint_lem s = shown s _ (split_tokens-Whole (suc (length s)) false [] s (omega arith))
