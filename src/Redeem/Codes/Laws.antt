-- ===== src/Redeem/Codes/Laws.antt =====
-- What the list of codes holds, for every text that a user can enter.
use cdk_system.Base.{
  ◌≡◌, refl, Bool, true, false, ◌||◌, ◌&&◌, List, [], ◌∷◌, arith, Text, text_eq, text_eq_iff,
  is_empty, any, Every, not,
}
use cdk_system.Redeem.Codes.{normalize_cdk, contains, split_runs, parse_cdk_list}
use cdk_system.Redeem.Codes.Parts.{
  is_code, fresh, parse_parts-eq-append, normalize_cdk-units, contains-cons_self,
}

-- No code stands in the list twice.
abbrev pub Distinct : List Text → Type 0
Distinct [] = Unit
Distinct (code ∷ codes) = (contains codes code ≡ false) × Distinct codes

normalize_cdk-is_code :
    (part : Text) → is_empty (normalize_cdk part) ≡ false → is_code (normalize_cdk part) ≡ true
normalize_cdk-is_code part h = ground (arith, normalize_cdk-units part)

fresh-is_code : (seen parts : List Text) → Every is_code (fresh seen parts)
unfolding fresh
fresh-is_code seen [] = tt
fresh-is_code seen (part ∷ parts) = ground (
  arith,
  normalize_cdk-is_code part,
  fresh-is_code seen parts,
  fresh-is_code (normalize_cdk part ∷ seen) parts,
)

contains-cons :
    (a b : Text) (codes : List Text) → contains (a ∷ codes) b ≡ (text_eq b a || contains codes b)
unfolding contains any
contains-cons a b codes = refl

contains-nil : (code : Text) → contains [] code ≡ false
unfolding contains any
contains-nil code = refl

fresh_of_seen :
    (seen parts : List Text) (code : Text)
    → contains seen code ≡ true
    → contains (fresh seen parts) code ≡ false
unfolding fresh contains any
fresh_of_seen seen [] code h = refl
fresh_of_seen seen (part ∷ parts) code h = ground (
  arith,
  fresh_of_seen seen parts code h,
  fresh_of_seen (normalize_cdk part ∷ seen) parts code,
  text_eq_iff code (normalize_cdk part),
)

fresh-Distinct : (seen parts : List Text) → Distinct (fresh seen parts)
unfolding fresh
fresh-Distinct seen [] = tt
fresh-Distinct seen (part ∷ parts) = ground (
  arith,
  fresh-Distinct seen parts,
  fresh-Distinct (normalize_cdk part ∷ seen) parts,
  fresh_of_seen (normalize_cdk part ∷ seen) parts (normalize_cdk part),
  contains-cons_self (normalize_cdk part) seen,
)

-- A part of the text from which the code is read.
abbrev pub is_part_of : Text → Text → Bool
is_part_of code part = not (is_empty code) && text_eq code (normalize_cdk part)

contains-fresh :
    (seen parts : List Text) (code : Text)
    → (contains seen code || contains (fresh seen parts) code)
      ≡ (contains seen code || any (is_part_of code) parts)
unfolding fresh any
contains-fresh seen [] code = rw (contains-nil code)
contains-fresh seen (part ∷ parts) code = ground (
  arith,
  contains-fresh seen parts code,
  contains-fresh (normalize_cdk part ∷ seen) parts code,
  contains-cons (normalize_cdk part) code seen,
  contains-cons (normalize_cdk part) code (fresh (normalize_cdk part ∷ seen) parts),
  text_eq_iff code (normalize_cdk part),
)

-- Whatever the text, every code of the list is a non-empty run of upper-case letters and digits,
-- and no code stands in it twice.
pub parse_cdk_list-Distinct :
    (value : Text) → Every is_code (parse_cdk_list value) × Distinct (parse_cdk_list value)
unfolding parse_cdk_list
parse_cdk_list-Distinct value =
    let parts : List Text = split_runs false [] value in
    simp (parse_parts-eq-append [] [] parts) (fresh-is_code [] parts, fresh-Distinct [] parts)

-- A code is in the list exactly when it is not empty and is the normal form of a part of the text.
pub contains-parse_cdk_list :
    (value code : Text)
    → contains (parse_cdk_list value) code ≡ any (is_part_of code) (split_runs false [] value)
unfolding parse_cdk_list
contains-parse_cdk_list value code =
    rw (parse_parts-eq-append [] [] (split_runs false [] value))
      (unfold contains any in contains-fresh [] (split_runs false [] value) code)

-- The list holds, each once, the codes that can be read from a part of the text.
pub record AreCodes (value : Text) (codes : List Text) : Type 0 where
  pub well_formed : Every is_code codes
  pub distinct : Distinct codes
  pub read : (code : Text) → contains codes code ≡ any (is_part_of code) (split_runs false [] value)

-- Whatever the text, the list that is read from it holds only non-empty runs of upper-case letters and
-- digits, none of them twice, and exactly the codes that are not empty and are the normal form of a part
-- of the text.
pub parse_cdk_list-AreCodes : (value : Text) → AreCodes value (parse_cdk_list value)
parse_cdk_list-AreCodes value =
    let (well_formed, distinct) = parse_cdk_list-Distinct value in
    record { well_formed = well_formed; distinct = distinct; read = contains-parse_cdk_list value }
