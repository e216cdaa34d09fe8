-- ===== src/Viewer/Classes.antt =====
-- The colour of each printed token, and none for punctuation.
use mathlib.Core.List.{reverse-append}
use cdk_system.Base.{
  ℕ, ◌≡◌, refl, ap, ◌∙◌, Bool, true, false, none, some, [], ◌∷◌, ◌++◌, Text, text, text_eq,
  starts_with, trim_start, is_space, arith, ◌==◌, if◌then◌else◌, Every,
}
use cdk_system.Viewer.{sky, emerald, amber, purple, rose, token_class, ends_in_colon, is_digit}
use cdk_system.Viewer.Printed.{quoted, quoted_units, NumberText, whole_number, negative}
use cdk_system.Viewer.Numbers.{is_mark, first_digit}

ends_in_colon-append :
    (t : Text) (c : ℕ) → is_space c ≡ false → ends_in_colon (t ++ (c ∷ [])) ≡ (c == b':')
unfolding ends_in_colon trim_start starts_with
ends_in_colon-append t c h = rw (reverse-append t (c ∷ []), h) (ground arith)

pub token_class-quoted : (s : Text) → token_class (quoted s) ≡ some emerald
unfolding token_class starts_with
token_class-quoted s =
    rw (ends_in_colon-append (b'"' ∷ quoted_units s) b'"' (unfold is_space in refl)) refl

pub token_class-key : (s : Text) → token_class (quoted s ++ (b':' ∷ [])) ≡ some sky
unfolding token_class starts_with
token_class-key s = rw (ends_in_colon-append (quoted s) b':' (unfold is_space in refl)) refl

pub token_class-null : token_class (text "null") ≡ some purple
unfolding token_class starts_with text text_eq
token_class-null = refl

pub token_class-bool :
    (b : Bool) → token_class (if b then text "true" else text "false") ≡ some amber
unfolding token_class starts_with text text_eq
token_class-bool true = refl
token_class-bool false = refl

class_of_digit : (c : ℕ) (s : Text) → is_digit c ≡ true → token_class (c ∷ s) ≡ some rose
unfolding token_class starts_with text text_eq
class_of_digit c [] h = ground arith
class_of_digit c (d ∷ s) h = ground arith

class_of_minus : (d : ℕ) (s : Text) → is_digit d ≡ true → token_class (b'-' ∷ d ∷ s) ≡ some rose
unfolding token_class starts_with text text_eq
class_of_minus d s h = rw h refl

class_of_first :
    (t : Text)
    → (c : ℕ) × (u : Text) × (t ≡ c ∷ u) × (is_digit c ≡ true)
    → (token_class t ≡ some rose) × (token_class (b'-' ∷ t) ≡ some rose)
class_of_first t (c, u, e, d) = (
  ap token_class e ∙ class_of_digit c u d,
  ap (λ r. token_class (b'-' ∷ r)) e ∙ class_of_minus c u d,
)

pub token_class-NumberText : (t : Text) → NumberText t → token_class t ≡ some rose
token_class-NumberText t (whole_number u) = (class_of_first t (first_digit t u)).0
token_class-NumberText _ (negative {t} u) = (class_of_first t (first_digit t u)).1

pub token_class-marks : (s : Text) → Every is_mark s → token_class s ≡ none
unfolding token_class starts_with text text_eq is_mark
token_class-marks [] h = refl
token_class-marks (c ∷ []) (h, hs) = ground arith
token_class-marks (c ∷ d ∷ s) (h, (k, hs)) = ground arith
