-- ===== src/Convert/Detect/Laws.antt =====
-- What `detectAndParse` accepts.
use cdk_system.Base.{
  ℕ, suc, ◌≡◌, ◌≢◌, refl, ◌∙◌, ap, sym, subst, inl, inr, true, false, Option, none, some, List, [],
  ◌∷◌, ◌++◌, map, Text, trim, is_empty, all, Every, all-Every, if◌then◌else◌, arith, Bool-cases,
  Option-cases,
}
use mathlib.Core.List.{append_assoc, append-nil}
use cdk_system.Json.{Json, Items, arr, obj, items_of, is_object}
use cdk_system.Convert.Detect.{
  ParsedInput, DetectedFormat, json_array, jsonl, json_object, found, split_lines, detect_root,
  parse_lines, detect_and_parse,
}

-- The lines that the loop parses: trimmed, without the blank ones.
unfoldable pub parsed_lines : List Text → List Text
parsed_lines [] = []
parsed_lines (line ∷ lines) =
    let rest = parsed_lines lines in if is_empty (trim line) then rest else trim line ∷ rest

abbrev pub IsArrayOf : List Json → Json → Type 0
IsArrayOf accounts root = (vs : Items) × (root ≡ arr vs) × (items_of vs ≡ accounts)

nil_ne_cons : {a : Json} {accounts : List Json} → [] ≡ a ∷ accounts → ⊥
nil_ne_cons e = cc

found-injective : {p q : ParsedInput} → found p ≡ found q → p ≡ q
found-injective e = cc

ne_nil_of_full : (vs : List Json) → is_empty vs ≡ false → vs ≢ []
ne_nil_of_full [] h = cc
ne_nil_of_full (v ∷ vs) h = λ e. cc

module _ (parse : Text → Option Json) where
  -- How the accounts come from the trimmed input, for each format.
  abbrev pub ComesFrom : Text → DetectedFormat → List Json → Type 0
  ComesFrom input json_array accounts =
      (root : Json) × (parse input ≡ some root) × IsArrayOf accounts root
  ComesFrom input json_object accounts =
      (root : Json) × (parse input ≡ some root) × (accounts ≡ root ∷ [])
  ComesFrom input jsonl accounts =
      (parse input ≡ none) × (map parse (parsed_lines (split_lines [] input)) ≡ map some accounts)

  -- What the loop adds to the accounts that it has.
  abbrev LinesParsed : List Json → List Text → ParsedInput → Type 0
  LinesParsed accounts lines p =
      (p.format ≡ jsonl)
      × (p.accounts ≢ [])
      × ((rest : List Json) × (p.accounts ≡ accounts ++ rest)
          × (map parse (parsed_lines lines) ≡ map some rest)
          × Every is_object rest)

  LinesParsed-cons :
      (accounts : List Json) (line : Text) (lines : List Text) (value : Json) (p : ParsedInput)
      → is_empty (trim line) ≡ false
      → parse (trim line) ≡ some value
      → is_object value ≡ true
      → LinesParsed (accounts ++ (value ∷ [])) lines p
      → LinesParsed accounts (line ∷ lines) p
  LinesParsed-cons accounts line lines value p full parsed object (f, n, (rest, e, m, o)) = (
    f,
    n,
    (
      value ∷ rest,
      e ∙ append_assoc accounts (value ∷ []) rest,
      (unfold parsed_lines in rw (full, parsed) (ap (λ l. some value ∷ l) m)),
      (object, o),
    ),
  )

  LinesParsed-blank :
      (accounts : List Json) (line : Text) (lines : List Text) (p : ParsedInput)
      → is_empty (trim line) ≡ true
      → LinesParsed accounts lines p
      → LinesParsed accounts (line ∷ lines) p
  LinesParsed-blank accounts line lines p blank (f, n, (rest, e, m, o)) =
      (f, n, (rest, e, (unfold parsed_lines in rw blank m), o))

  parse_lines-found :
      (number : ℕ) (accounts : List Json) (lines : List Text) (p : ParsedInput)
      → parse_lines parse number accounts lines ≡ found p
      → LinesParsed accounts lines p
  unfolding parse_lines
  parse_lines-found number [] [] p h = cc
  parse_lines-found number (a ∷ accounts) [] p h =
      let e : p ≡ record { accounts = a ∷ accounts; format = jsonl } = cc in
      (
        ap (λ q. q.format) e,
        (λ n. nil_ne_cons (sym n ∙ ap (λ q. q.accounts) e)),
        (
          [],
          ap (λ q. q.accounts) e ∙ sym (append-nil (a ∷ accounts)),
          (unfold parsed_lines in refl),
          tt,
        ),
      )
  parse_lines-found number accounts (line ∷ lines) p h = elim (Bool-cases (is_empty (trim line))) [
    | inl blank ↦
        LinesParsed-blank accounts line lines p blank
          (parse_lines-found (suc number) accounts lines p (ground arith))
    | inr full ↦ elim (Option-cases (parse (trim line))) [
      | inl bad ↦ ground arith
      | inr (value, parsed) ↦ elim (Bool-cases (is_object value)) [
        | inl object ↦
            LinesParsed-cons accounts line lines value p full parsed object
              (parse_lines-found (suc number) (accounts ++ (value ∷ [])) lines p (ground arith))
        | inr other ↦ ground arith
      ]
    ]
  ]

  -- What every result is: not empty, made of objects, and taken from the input as its format says.
  abbrev pub IsParsed : Text → ParsedInput → Type 0
  IsParsed input p =
      (p.accounts ≢ []) × Every is_object p.accounts × ComesFrom (trim input) p.format p.accounts

  detect_root-found :
      (input : Text) (root : Json) (p : ParsedInput)
      → parse (trim input) ≡ some root
      → detect_root root ≡ found p
      → IsParsed input p
  unfolding detect_root is_object
  detect_root-found input (arr vs) p parsed h = elim (Bool-cases (is_empty (items_of vs))) [
    | inl none_there ↦ ground arith
    | inr full ↦ elim (Bool-cases (all is_object (items_of vs))) [
      | inr bad ↦ ground arith
      | inl good ↦
          let e : found (record { accounts = items_of vs; format = json_array }) ≡ found p =
            ground arith in
          subst (IsParsed input) (found-injective e) (
            ne_nil_of_full (items_of vs) full,
            all-Every is_object (items_of vs) good,
            (arr vs, parsed, (vs, refl, refl)),
          )
    ]
  ]
  detect_root-found input (obj fields) p parsed h =
      subst (IsParsed input) (found-injective h) ((λ e. cc), (refl, tt), (obj fields, parsed, refl))
  detect_root-found input _ p parsed h = cc

  lines-IsParsed :
      (input : Text) (p : ParsedInput)
      → parse (trim input) ≡ none
      → LinesParsed [] (split_lines [] (trim input)) p
      → IsParsed input p
  lines-IsParsed input p bad (f, n, (rest, e, m, o)) = (n, rw e o, rw f (bad, rw e m))

  -- A result holds at least one account, and every account is an object (or an array, which JavaScript
  -- counts as an object). Either the input as a whole parses, to the array of the accounts or to the
  -- only account; or it does not, and the accounts are what its lines parse to, in their order,
  -- where blank lines count for nothing.
  pub detect_and_parse-found :
      (input : Text) (p : ParsedInput) → detect_and_parse parse input ≡ found p → IsParsed input p
  unfolding detect_and_parse
  detect_and_parse-found input p h = elim (Option-cases (parse (trim input))) [
    | inl bad ↦
        lines-IsParsed input p bad
          (parse_lines-found 1 [] (split_lines [] (trim input)) p (ground arith))
    | inr (root, parsed) ↦ detect_root-found input root p parsed (ground arith)
  ]
