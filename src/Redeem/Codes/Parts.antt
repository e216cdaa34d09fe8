-- ===== src/Redeem/Codes/Parts.antt =====
-- The loop of `parseCdkList` as a plain recursion, and the alphabet of normalised codes.
use cdk_system.Base.{
  ℕ, ◌≡◌, refl, sym, Bool, true, false, ◌||◌, ◌&&◌, List, [], ◌∷◌, ◌++◌, arith, Text, text_eq_iff,
  is_empty, is_alnum, upper, keep, any, all, leb, not,
}
use cdk_system.Redeem.Codes.{normalize_cdk, contains, parse_parts}
use mathlib.Core.List.{append-nil, append_assoc}

-- A code unit that a normalised code holds: an upper-case letter or a digit.
abbrev pub is_code_unit : ℕ → Bool
is_code_unit c = (leb b'A' c && leb c b'Z') || (leb b'0' c && leb c b'9')

-- A normalised code that is not empty.
abbrev pub is_code : Text → Bool
is_code code = not (is_empty code) && all is_code_unit code

-- The codes that the loop adds.
unfoldable pub fresh : List Text → List Text → List Text
fresh seen [] = []
fresh seen (part ∷ parts) =
    elim (is_empty (normalize_cdk part) || contains seen (normalize_cdk part)) [
      | true ↦ fresh seen parts
      | false ↦ normalize_cdk part ∷ fresh (normalize_cdk part ∷ seen) parts
    ]

pub parse_parts-eq-append :
    (seen codes parts : List Text) → parse_parts seen codes parts ≡ codes ++ fresh seen parts
unfolding parse_parts fresh
parse_parts-eq-append seen codes [] = sym (append-nil codes)
parse_parts-eq-append seen codes (part ∷ parts) = ground (
  arith,
  parse_parts-eq-append seen codes parts,
  parse_parts-eq-append (normalize_cdk part ∷ seen) (codes ++ (normalize_cdk part ∷ [])) parts,
  append_assoc codes (normalize_cdk part ∷ []) (fresh (normalize_cdk part ∷ seen) parts),
)

upper-is_code_unit : (c : ℕ) → is_alnum c ≡ true → is_code_unit (upper c) ≡ true
unfolding is_alnum upper
upper-is_code_unit c h = ground arith

pub normalize_cdk-units : (value : Text) → all is_code_unit (normalize_cdk value) ≡ true
unfolding normalize_cdk keep all
normalize_cdk-units [] = refl
normalize_cdk-units (c ∷ s) = ground (arith, normalize_cdk-units s, upper-is_code_unit c)

upper_of_code_unit : (c : ℕ) → is_code_unit c ≡ true → (is_alnum c ≡ true) × (upper c ≡ c)
unfolding is_alnum upper
upper_of_code_unit c h = ground arith

-- A normalised code is its own normal form.
pub normalize_cdk_of_units :
    (code : Text) → all is_code_unit code ≡ true → normalize_cdk code ≡ code
unfolding normalize_cdk keep all
normalize_cdk_of_units [] h = refl
normalize_cdk_of_units (c ∷ s) h = ground (arith, upper_of_code_unit c, normalize_cdk_of_units s)

pub contains-cons_self : (code : Text) (seen : List Text) → contains (code ∷ seen) code ≡ true
unfolding contains any
contains-cons_self code seen = ground (arith, text_eq_iff code code)
