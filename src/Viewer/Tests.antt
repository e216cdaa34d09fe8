-- ===== src/Viewer/Tests.antt =====
-- The viewer on concrete texts and values.
use cdk_system.Base.{
  ◌≡◌, refl, true, none, some, [], ◌∷◌, map, text, is_alnum, is_space, starts_with, trim_start,
  text_eq,
}
use cdk_system.Json.{Json, null, bool, num, str, arr, obj, nil, cons, end, field}
use cdk_system.Viewer.{
  Painted, paint, split_tokens, match_token, string_token, word_token, scan_string, scan_colon,
  is_word, token_class, ends_in_colon, shown_text, sky, purple,
}
use cdk_system.Viewer.Parts.{paint_lem}
use cdk_system.Viewer.Printed.{
  pieces, printed, coloured, line, quoted_unit, quoted_units, short_escape, NumberText, negative,
  decimal_point, one_digit, positive_exponent, PrintsNumbers, ItemsPrint, FieldsPrint,
}
use cdk_system.Viewer.Values.{paint-pieces}

-- A record of a webhook with a quote in its key, a list and a number with a fraction and an exponent.
abbrev webhook : Json
webhook = obj (
    field (text "a\"b:") (arr (cons null (cons (bool true) nil)))
      (field (text "n") (num (text "-1.5e+7")) (field (text "s") (str (text "x: 1")) end)))

number_prints : NumberText (text "-1.5e+7")
unfolding text
number_prints = negative (
    decimal_point {t = b'1' ∷ []} {u = b'5' ∷ []} (one_digit refl) (one_digit refl)
      (positive_exponent (one_digit refl)))

webhook-PrintsNumbers : PrintsNumbers webhook
unfolding PrintsNumbers ItemsPrint FieldsPrint
webhook-PrintsNumbers = ((tt, (tt, tt)), (number_prints, (tt, tt)))

paint-pieces_example : paint (printed (pieces 0 webhook)) ≡ some (coloured (pieces 0 webhook))
paint-pieces_example = paint-pieces webhook webhook-PrintsNumbers

paint_lem_example :
    (shown : Painted) × (paint (text "{\"a\": tru, 1e+") ≡ some shown)
    × (map (λ p. p.0) shown ≡ text "{\"a\": tru, 1e+")
paint_lem_example = paint_lem (text "{\"a\": tru, 1e+")

small_text :
    printed (pieces 0 (obj (field (text "k") (arr (cons null nil)) end)))
    ≡ text "{\n  \"k\": [\n    null\n  ]\n}"
unfolding pieces text line quoted_units quoted_unit short_escape
small_text = refl

shown_text-undefined : shown_text (some none) (text "undefined") ≡ text "null"
unfolding shown_text
shown_text-undefined = refl

small_paint :
    paint (text "\"k\":null")
    ≡ some (
        (b'"', some sky)
        ∷ (b'k', some sky)
        ∷ (b'"', some sky)
        ∷ (b':', some sky)
        ∷ (b'n', some purple)
        ∷ (b'u', some purple)
        ∷ (b'l', some purple)
        ∷ (b'l', some purple)
        ∷ [])
unfolding paint split_tokens text match_token string_token scan_string scan_colon word_token is_word
    is_alnum starts_with token_class ends_in_colon text_eq trim_start is_space
small_paint = refl
