-- ===== src/Viewer/Printed.antt =====
-- What the viewer is given to show: a value as `JSON.stringify(data, null, 2)` prints it, in pieces,
-- each with the colour that its kind is to have (web/src/components/json-viewer.tsx).
use cdk_system.Base.{
  ℕ, suc, ◌+◌, ◌-◌, ◌*◌, ◌/◌, ◌%◌, Bool, true, ◌&&◌, ◌||◌, Option, none, some, List, [], ◌∷◌, ◌++◌,
  Text, text, replicate, leb, ltb, ◌==◌, if◌then◌else◌, ◌≡◌,
}
use cdk_system.Json.{Json, Items, Fields, null, bool, num, str, arr, obj, nil, cons, end, field}
use cdk_system.Viewer.{Colour, sky, emerald, amber, purple, rose, Painted, paint_part, is_digit}

abbrev pub hex_digit : ℕ → ℕ
hex_digit n = if ltb n 10 then b'0' + n else b'a' + (n - 10)

-- `\uXXXX` of a code unit.
unfoldable pub hex_escape : ℕ → Text
hex_escape c =
    92
    ∷ b'u'
    ∷ hex_digit ((c / 4096) % 16)
    ∷ hex_digit ((c / 256) % 16)
    ∷ hex_digit ((c / 16) % 16)
    ∷ hex_digit (c % 16)
    ∷ []

-- The units with an escape of two characters, and its second one.
unfoldable pub short_escape : ℕ → Option ℕ
short_escape c =
    if c == b'"'
    then some b'"'
    else if c == 92
    then some 92
    else if c == 8
    then some b'b'
    else if c == 12
    then some b'f'
    else if c == 10
    then some b'n'
    else if c == 13
    then some b'r'
    else if c == 9
    then some b't'
    else none

-- A unit that is no half of a pair: the controls and the lone surrogates are escaped.
abbrev unit_by : ℕ → Option ℕ → Text
unit_by c (some d) = 92 ∷ d ∷ []
unit_by c none = if ltb c 32 || (leb 0xd800 c && ltb c 0xe000) then hex_escape c else c ∷ []

unfoldable pub quoted_unit : ℕ → Text
quoted_unit c = unit_by c (short_escape c)

abbrev pub is_pair : ℕ → ℕ → Bool
is_pair c d = (leb 0xd800 c && ltb c 0xdc00) && (leb 0xdc00 d && ltb d 0xe000)

unfoldable pub quoted_units : Text → Text
quoted_units [] = []
quoted_units (c ∷ []) = quoted_unit c
quoted_units (c ∷ d ∷ s) =
    let behind_pair = quoted_units s in
    let behind_unit = quoted_units (d ∷ s) in
    if is_pair c d then c ∷ d ∷ behind_pair else quoted_unit c ++ behind_unit

abbrev pub quoted : Text → Text
quoted s = b'"' ∷ (quoted_units s ++ (b'"' ∷ []))

abbrev pub Piece : Type 0
Piece = Text × Option Colour

abbrev pub mark : ℕ → Piece
mark c = (c ∷ [], none)

abbrev pub token : Colour → Text → Piece
token colour t = (t, some colour)

-- A new line with its indentation.
unfoldable pub line : ℕ → List Piece
line n = mark 10 ∷ replicate (2 * n) (mark 32)

-- `JSON.stringify(value, null, 2)` at a depth: keys with their colons, strings, booleans, null and
-- numbers are tokens.
unfoldable mutual
  pub pieces : ℕ → Json → List Piece
  pieces n null = token purple (text "null") ∷ []
  pieces n (bool b) = token amber (if b then text "true" else text "false") ∷ []
  pieces n (num d) = token rose d ∷ []
  pieces n (str s) = token emerald (quoted s) ∷ []
  pieces n (arr nil) = mark b'[' ∷ mark b']' ∷ []
  pieces n (arr (cons v vs)) =
      mark b'['
      ∷ (line (suc n)
          ++ (pieces (suc n) v ++ (more_items (suc n) vs ++ (line n ++ (mark b']' ∷ [])))))
  pieces n (obj end) = mark b'{' ∷ mark b'}' ∷ []
  pieces n (obj (field key v rest)) =
      mark b'{'
      ∷ (line (suc n)
          ++ (token sky (quoted key ++ (b':' ∷ []))
              ∷ mark 32
              ∷ (pieces (suc n) v ++ (more_fields (suc n) rest ++ (line n ++ (mark b'}' ∷ []))))))

  pub more_items : ℕ → Items → List Piece
  more_items n nil = []
  more_items n (cons v vs) = mark b',' ∷ (line n ++ (pieces n v ++ more_items n vs))

  pub more_fields : ℕ → Fields → List Piece
  more_fields n end = []
  more_fields n (field key v rest) =
      mark b','
      ∷ (line n
          ++ (token sky (quoted key ++ (b':' ∷ [])) ∷ mark 32 ∷ (pieces n v ++ more_fields n rest)))

abbrev pub printed : List Piece → Text
printed [] = []
printed ((t, colour) ∷ ps) = t ++ printed ps

abbrev pub coloured : List Piece → Painted
coloured [] = []
coloured ((t, colour) ∷ ps) = paint_part colour t ++ coloured ps

-- Digits, at least one.
pub data Digits : Text → Type 0 where
  one_digit : {c : ℕ} → is_digit c ≡ true → Digits (c ∷ [])
  more_digits : {c : ℕ} {t : Text} → is_digit c ≡ true → Digits t → Digits (c ∷ t)

pub data ExponentText : Text → Type 0 where
  no_exponent : ExponentText []
  positive_exponent : {t : Text} → Digits t → ExponentText (b'e' ∷ b'+' ∷ t)
  negative_exponent : {t : Text} → Digits t → ExponentText (b'e' ∷ b'-' ∷ t)

pub data UnsignedText : Text → Type 0 where
  integral : {t e : Text} → Digits t → ExponentText e → UnsignedText (t ++ e)
  decimal_point :
      {t u e : Text} → Digits t → Digits u → ExponentText e → UnsignedText (t ++ (b'.' ∷ (u ++ e)))

-- How `JSON.stringify` prints a number: a sign, digits, and perhaps a fraction and an exponent.
pub data NumberText : Text → Type 0 where
  whole_number : {t : Text} → UnsignedText t → NumberText t
  negative : {t : Text} → UnsignedText t → NumberText (b'-' ∷ t)

-- The numbers of a value print as numbers.
unfoldable mutual
  pub PrintsNumbers : Json → Type 0
  PrintsNumbers (num d) = NumberText d
  PrintsNumbers (arr vs) = ItemsPrint vs
  PrintsNumbers (obj fields) = FieldsPrint fields
  PrintsNumbers _ = Unit

  pub ItemsPrint : Items → Type 0
  ItemsPrint nil = Unit
  ItemsPrint (cons v vs) = PrintsNumbers v × ItemsPrint vs

  pub FieldsPrint : Fields → Type 0
  FieldsPrint end = Unit
  FieldsPrint (field key v rest) = PrintsNumbers v × FieldsPrint rest
