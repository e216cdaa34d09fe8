-- ===== src/Viewer.antt =====
-- The viewer of JSON values, web/src/components/json-viewer.tsx: the printed text, cut by a regular
-- expression into tokens and the text between them, each with its colour.
pub mod Printed
pub mod Parts
pub mod Numbers
pub mod Classes
pub mod Spelling
pub mod Values
pub mod Colours
mod Tests
use mathlib.Core.List.{reverse}
use cdk_system.Base.{
  ℕ, zero, suc, ◌+◌, Bool, true, false, ◌&&◌, ◌||◌, not, Option, none, some, List, [], ◌∷◌, ◌++◌,
  map, Text, text, text_eq, is_empty, is_space, is_alnum, trim_start, starts_with, drop, length,
  leb, ◌==◌, if◌then◌else◌,
}

-- `\d`, `[a-fA-F0-9]` and `\w`.
abbrev pub is_digit : ℕ → Bool
is_digit c = leb b'0' c && leb c b'9'

abbrev pub is_hex : ℕ → Bool
is_hex c = (leb b'a' c && leb c b'f') || (leb b'A' c && leb c b'F') || is_digit c

unfoldable pub is_word : ℕ → Bool
is_word c = is_alnum c || (c == b'_')

-- What a part of the expression takes off the front of a text, and what it leaves.
abbrev pub Taken : Type 0
Taken = Text × Text

abbrev pub push : ℕ → Option Taken → Option Taken
push c none = none
push c (some (t, rest)) = some (c ∷ t, rest)

-- Where the scan of a string stands: between its units, behind a backslash, or before a number of
-- hexadecimal digits.
pub data Escape : Type 0 where
  plain slash : Escape
  hex : ℕ → Escape

-- `(?:\\u[a-fA-F0-9]{4}|\\[^u]|[^\\"])*"`. The units begin differently and none with a quote, so the
-- expression has one way to match.
unfoldable pub scan_string : Escape → Text → Option Taken
scan_string e [] = none
scan_string plain (c ∷ s) =
    let behind_slash = push c (scan_string slash s) in
    let behind_unit = push c (scan_string plain s) in
    if c == b'"' then some (c ∷ [], s) else if c == 92 then behind_slash else behind_unit
scan_string slash (c ∷ s) =
    let behind_u = push c (scan_string (hex 4) s) in
    let behind_unit = push c (scan_string plain s) in if c == b'u' then behind_u else behind_unit
scan_string (hex zero) (c ∷ s) =
    let behind_slash = push c (scan_string slash s) in
    let behind_unit = push c (scan_string plain s) in
    if c == b'"' then some (c ∷ [], s) else if c == 92 then behind_slash else behind_unit
scan_string (hex (suc n)) (c ∷ s) =
    let behind_digit = push c (scan_string (hex n) s) in if is_hex c then behind_digit else none

-- `\s*:`.
unfoldable pub scan_colon : Text → Option Taken
scan_colon [] = none
scan_colon (c ∷ s) =
    let behind_space = push c (scan_colon s) in
    if c == b':' then some (c ∷ [], s) else if is_space c then behind_space else none

-- An optional part behind what has been taken.
abbrev pub and_maybe : (Text → Option Taken) → Taken → Taken
and_maybe part (t, rest) = elim (part rest) [ none ↦ (t, rest) | some (u, left) ↦ (t ++ u, left) ]

abbrev pub maybe_after : (Text → Option Taken) → Option Taken → Option Taken
maybe_after part none = none
maybe_after part (some taken) = some (and_maybe part taken)

unfoldable pub string_token : Text → Option Taken
string_token [] = none
string_token (c ∷ s) =
    if c == b'"' then maybe_after scan_colon (push c (scan_string plain s)) else none

abbrev pub starts_word : Text → Bool
starts_word [] = false
starts_word (c ∷ s) = is_word c

-- `\bword\b`; `before` says that a word character stands before.
unfoldable pub word_token : Text → Bool → Text → Option Taken
word_token word before s =
    if not before && (starts_with s word && not (starts_word (drop (length word) s)))
    then some (word, drop (length word) s)
    else none

-- `\d+`, greedy.
unfoldable pub scan_digits : Text → Option Taken
scan_digits [] = none
scan_digits (c ∷ s) =
    let more : Option Taken = elim (scan_digits s) [
      | none ↦ some (c ∷ [], s)
      | some (t, rest) ↦ some (c ∷ t, rest)
    ] in
    if is_digit c then more else none

-- `\.\d+`.
unfoldable pub scan_fraction : Text → Option Taken
scan_fraction [] = none
scan_fraction (c ∷ s) = if c == b'.' then push c (scan_digits s) else none

abbrev signed_digits : Text → Option Taken
signed_digits [] = none
signed_digits (c ∷ s) =
    if (c == b'+') || (c == b'-') then push c (scan_digits s) else scan_digits (c ∷ s)

-- `[eE][+-]?\d+`.
unfoldable pub scan_exponent : Text → Option Taken
scan_exponent [] = none
scan_exponent (c ∷ s) = if (c == b'e') || (c == b'E') then push c (signed_digits s) else none

abbrev pub unsigned_number : Text → Option Taken
unsigned_number s = maybe_after scan_exponent (maybe_after scan_fraction (scan_digits s))

unfoldable pub number_token : Text → Option Taken
number_token [] = none
number_token (c ∷ s) = if c == b'-' then push c (unsigned_number s) else unsigned_number (c ∷ s)

abbrev pub or_else : Option Taken → Option Taken → Option Taken
or_else (some t) other = some t
or_else none other = other

-- `TOKEN_RE` at this place.
unfoldable pub match_token : Bool → Text → Option Taken
match_token before s = or_else (string_token s) (
    or_else (word_token (text "true") before s) (
      or_else (word_token (text "false") before s)
        (or_else (word_token (text "null") before s) (number_token s))))

abbrev pub ends_in_word : Bool → Text → Bool
ends_in_word before [] = before
ends_in_word before (c ∷ t) = ends_in_word (is_word c) t

abbrev pub put_before : Text → Text → Option (List Text) → Option (List Text)
put_before between token none = none
put_before between token (some parts) = some (between ∷ token ∷ parts)

-- `text.split(TOKEN_RE)` on fuel: the texts between the tokens, and the tokens between them. `cur` is
-- the text since the last token.
unfoldable pub split_tokens : ℕ → Bool → Text → Text → Option (List Text)
split_tokens zero before cur s = none
split_tokens (suc f) before cur [] = some (cur ∷ [])
split_tokens (suc f) before cur (c ∷ s) = elim (match_token before (c ∷ s)) [
  | none ↦ split_tokens f (is_word c) (cur ++ (c ∷ [])) s
  | some (t, rest) ↦ put_before cur t (split_tokens f (ends_in_word before t) [] rest)
]

pub data Colour : Type 0 where
  sky emerald amber purple rose : Colour

-- `/:\s*$/`.
unfoldable pub ends_in_colon : Text → Bool
ends_in_colon token = starts_with (trim_start (reverse token)) (b':' ∷ [])

-- `/^-?\d/`.
abbrev starts_number : Text → Bool
starts_number [] = false
starts_number (c ∷ []) = is_digit c
starts_number (c ∷ d ∷ t) = is_digit c || ((c == b'-') && is_digit d)

-- `tokenClass`.
unfoldable pub token_class : Text → Option Colour
token_class token =
    if is_empty token
    then none
    else if starts_with token (b'"' ∷ [])
    then some (if ends_in_colon token then sky else emerald)
    else if text_eq token (text "true") || text_eq token (text "false")
    then some amber
    else if text_eq token (text "null")
    then some purple
    else if starts_number token
    then some rose
    else none

-- What is shown: each character with its colour.
abbrev pub Painted : Type 0
Painted = List (ℕ × Option Colour)

abbrev pub paint_part : Option Colour → Text → Painted
paint_part colour = map (λ c. (c, colour))

abbrev pub paint_parts : List Text → Painted
paint_parts [] = []
paint_parts (part ∷ parts) = paint_part (token_class part) part ++ paint_parts parts

abbrev pub paint_result : Option (List Text) → Option Painted
paint_result none = none
paint_result (some parts) = some (paint_parts parts)

-- `JsonViewer` on a text; the fuel is enough for every text.
unfoldable pub paint : Text → Option Painted
paint s = paint_result (split_tokens (suc (length s)) false [] s)

-- The text to show: what `JSON.stringify` returns, "null" where it returns `undefined`, and
-- `String(data)` where it throws.
unfoldable pub shown_text : Option (Option Text) → Text → Text
shown_text (some (some printed)) as_string = printed
shown_text (some none) as_string = text "null"
shown_text none as_string = as_string
