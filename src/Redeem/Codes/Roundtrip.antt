-- ===== src/Redeem/Codes/Roundtrip.antt =====
-- Codes that are put back into the input field, one on a line, are read again as they were.
use cdk_system.Base.{
  ℕ, ◌≡◌, refl, ◌∙◌, sym, ap, Bool, true, false, List, [], ◌∷◌, ◌++◌, arith, Text, text_eq_iff,
  is_space, any, all, Every, join, keep,
}
use cdk_system.Redeem.Codes.{
  normalize_cdk, contains, parse_parts, is_separator, split_runs, parse_cdk_list,
}
use cdk_system.Redeem.Codes.Parts.{
  is_code, is_code_unit, fresh, parse_parts-eq-append, normalize_cdk_of_units,
}
use cdk_system.Redeem.Codes.Laws.{Distinct}
use mathlib.Core.List.{append_assoc, append-nil}

-- The text `codes.join("\n")`.
abbrev pub lines : List Text → Text
lines = join (10 ∷ [])

code_unit_separator : (c : ℕ) → is_code_unit c ≡ true → is_separator c ≡ false
unfolding is_separator is_space
code_unit_separator c h = ground arith

split_runs-code :
    (cur code rest : Text)
    → all is_code_unit code ≡ true
    → split_runs false cur (code ++ rest) ≡ split_runs false (cur ++ code) rest
unfolding split_runs all
split_runs-code cur [] rest h = rw append-nil
split_runs-code cur (c ∷ code) rest h =
    let first : is_separator c ≡ false = code_unit_separator c (ground arith) in
    rw first (
      split_runs-code (cur ++ (c ∷ [])) code rest (ground arith)
      ∙ ap (λ t. split_runs false t rest) (append_assoc cur (c ∷ []) code))

-- At the start of the text or after a cut, a code is read whole.
split_runs-start :
    (inside : Bool) (code rest : Text)
    → is_code code ≡ true
    → split_runs inside [] (code ++ rest) ≡ split_runs false code rest
unfolding all
split_runs-start inside [] rest h = ground arith
split_runs-start inside (c ∷ code) rest h =
    let first : is_separator c ≡ false = code_unit_separator c (ground arith) in
    (unfold split_runs in rw first (split_runs-code (c ∷ []) code rest (ground arith)))

-- A line break ends the part.
split_runs-newline :
    (cur rest : Text) → split_runs false cur (10 ∷ rest) ≡ cur ∷ split_runs true [] rest
unfolding split_runs is_separator is_space
split_runs-newline cur rest = refl

split_runs-end : (inside : Bool) (cur : Text) → split_runs inside cur [] ≡ cur ∷ []
unfolding split_runs
split_runs-end inside cur = refl

split_runs-lines :
    (inside : Bool) (code : Text) (codes : List Text)
    → Every is_code (code ∷ codes)
    → split_runs inside [] (lines (code ∷ codes)) ≡ code ∷ codes
unfolding join
split_runs-lines inside code [] (h, _) =
    ap (split_runs inside []) (sym (append-nil code))
    ∙ split_runs-start inside code [] h
    ∙ split_runs-end false code
split_runs-lines inside code (next ∷ codes) (h, hs) =
    split_runs-start inside code (10 ∷ lines (next ∷ codes)) h
    ∙ split_runs-newline code (lines (next ∷ codes))
    ∙ ap (λ parts. code ∷ parts) (split_runs-lines true next codes hs)

-- No code of the second list has been seen.
abbrev Unseen : List Text → List Text → Type 0
Unseen seen [] = Unit
Unseen seen (code ∷ codes) = (contains seen code ≡ false) × Unseen seen codes

-- Distinct codes stay distinct from a code that is put before them.
Unseen-cons :
    (code : Text) (seen codes : List Text)
    → contains codes code ≡ false
    → Unseen seen codes
    → Unseen (code ∷ seen) codes
unfolding contains any
Unseen-cons code seen [] h k = tt
Unseen-cons code seen (next ∷ codes) h (k, ks) = (
  ground (arith, text_eq_iff next code, text_eq_iff code next),
  Unseen-cons code seen codes (ground arith) ks,
)

fresh_of_codes :
    (seen codes : List Text)
    → Every is_code codes
    → Distinct codes
    → Unseen seen codes
    → fresh seen codes ≡ codes
unfolding fresh
fresh_of_codes seen [] h d u = refl
fresh_of_codes seen (code ∷ codes) (h, hs) (d, ds) (u, us) = ground (
  arith,
  normalize_cdk_of_units code,
  fresh_of_codes (code ∷ seen) codes hs ds (Unseen-cons code seen codes d us),
)

Unseen-nil : (codes : List Text) → Unseen [] codes
unfolding contains any
Unseen-nil [] = tt
Unseen-nil (code ∷ codes) = (refl, Unseen-nil codes)

-- Distinct codes, put into the field one on a line, are read back as they were, in their order.
pub parse_cdk_list-lines :
    (codes : List Text)
    → Every is_code codes
    → Distinct codes
    → parse_cdk_list (lines codes) ≡ codes
unfolding parse_cdk_list
parse_cdk_list-lines [] h d = unfold join split_runs parse_parts normalize_cdk keep in refl
parse_cdk_list-lines (code ∷ codes) h d =
    ap (parse_parts [] []) (split_runs-lines false code codes h)
    ∙ parse_parts-eq-append [] [] (code ∷ codes)
    ∙ fresh_of_codes [] (code ∷ codes) h d (Unseen-nil (code ∷ codes))
