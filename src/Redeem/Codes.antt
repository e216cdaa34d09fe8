-- ===== src/Redeem/Codes.antt =====
-- Reading redemption codes from the text that a user enters: `normalizeCdk` and `parseCdkList` of
-- web/src/pages/redeem.tsx.
pub mod Parts
pub mod Laws
pub mod Roundtrip
use cdk_system.Base.{
  ℕ, Bool, true, false, ◌||◌, List, [], ◌∷◌, ◌++◌, map, Text, text_eq, is_empty, is_space, is_alnum,
  upper, keep, any, ◌==◌, if◌then◌else◌,
}

-- Drops what is no ASCII letter or digit, and puts the letters in upper case.
unfoldable pub normalize_cdk : Text → Text
normalize_cdk value = map upper (keep is_alnum value)

-- The class `[\s,，;；]`.
unfoldable pub is_separator : ℕ → Bool
is_separator c = is_space c || (c == b',') || (c == 0xff0c) || (c == b';') || (c == 0xff1b)

-- `split(/[\s,，;；]+/)`: one cut for each run of separators. `inside` says that the last code unit
-- was a separator, whose run has been cut already; `cur` is the part read so far.
unfoldable pub split_runs : Bool → Text → Text → List Text
split_runs inside cur [] = cur ∷ []
split_runs inside cur (c ∷ s) =
    let cut = split_runs true [] s in
    let longer = split_runs false (cur ++ (c ∷ [])) s in
    if is_separator c then (if inside then cut else cur ∷ cut) else longer

-- `seen.has(code)`.
unfoldable pub contains : List Text → Text → Bool
contains seen code = any (text_eq code) seen

-- The loop of `parseCdkList` over the parts, with its set and its result.
unfoldable pub parse_parts : List Text → List Text → List Text → List Text
parse_parts seen codes [] = codes
parse_parts seen codes (part ∷ parts) =
    elim (is_empty (normalize_cdk part) || contains seen (normalize_cdk part)) [
      | true ↦ parse_parts seen codes parts
      | false ↦ parse_parts (normalize_cdk part ∷ seen) (codes ++ (normalize_cdk part ∷ [])) parts
    ]

unfoldable pub parse_cdk_list : Text → List Text
parse_cdk_list value = parse_parts [] [] (split_runs false [] value)
