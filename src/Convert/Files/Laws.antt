-- ===== src/Convert/Files/Laws.antt =====
-- The files in the ZIP of single accounts.
use cdk_system.Base.{
  ℕ, suc, ◌+◌, ◌<◌, ◌≤◌, ◌≡◌, refl, ap, true, false, Option, some, List, [], ◌∷◌, ◌++◌, Text, text,
  is_alnum, length, decimal, pad_start, all, any, all-append_true, Every, arith, text_eq_iff,
  Option-cases, inl, inr,
}
use cdk_system.Base.Decimal.{all-pad_start, read_number, read_number-pad_start}
use cdk_system.Json.{Json, str, get}
use cdk_system.Redeem.Codes.{contains}
use cdk_system.Redeem.Codes.Laws.{Distinct}
use cdk_system.Redeem.Archive.{LocalTime}
use cdk_system.Redeem.Archive.Laws.{names}
use cdk_system.Convert.Account.Token.{Runtime}
use cdk_system.Convert.Account.{Moment, Sub2ApiAccount, convert_all}
use cdk_system.Convert.Files.{
  zip, Download, is_file_char, safe_filename, identifier, file_name, single_files,
  create_single_zip,
}

digit-is_file_char : (d : ℕ) → d ≤ 9 → is_file_char (48 + d) ≡ true
unfolding is_file_char is_alnum
digit-is_file_char d h = ground arith

all-safe_filename : (name : Text) → all is_file_char (safe_filename name) ≡ true
unfolding safe_filename all
all-safe_filename [] = refl
all-safe_filename (c ∷ name) = ground (arith, all-safe_filename name, underscore)
  where
    underscore : is_file_char b'_' ≡ true
    underscore = unfold is_file_char is_alnum in refl

all-numbered :
    (number : ℕ) → all is_file_char (text "account_" ++ pad_start 4 b'0' (decimal number)) ≡ true
all-numbered number =
    all-append_true is_file_char (text "account_") _ (unfold all is_file_char is_alnum text in refl)
      (all-pad_start is_file_char digit-is_file_char 4 number)

all-identifier : (number : ℕ) (acc : Json) → all is_file_char (identifier number acc) ≡ true
unfolding identifier
all-identifier number acc = by_email (get (text "email") acc)
  where
    by_email :
        (o : Option Json)
        → all is_file_char (elim o [
          | some (str (c ∷ email)) ↦ safe_filename (c ∷ email)
          | _ ↦ text "account_" ++ pad_start 4 b'0' (decimal number)
        ])
          ≡ true
    by_email (some (str (c ∷ email))) = all-safe_filename (c ∷ email)
    by_email _ = all-numbered number

all-file_name : (number : ℕ) (acc : Json) → all is_file_char (file_name number acc) ≡ true
unfolding file_name
all-file_name number acc =
    all-append_true is_file_char _ _ (all-pad_start is_file_char digit-is_file_char 4 number) (
      all-append_true is_file_char (b'_' ∷ []) _ (unfold all is_file_char is_alnum in refl) (
        all-append_true is_file_char _ (text ".json") (all-identifier number acc)
          (unfold all is_file_char is_alnum text in refl)))

read_number-file_name : (number : ℕ) (acc : Json) → read_number 0 (file_name number acc) ≡ number
unfolding file_name
read_number-file_name number acc = read_number-pad_start 4 number _

-- One file for each account of the list, with distinct names of safe characters.
abbrev pub AreSafeFiles : List Json → List (Text × Text) → Type 0
AreSafeFiles accounts files =
    (length files ≡ length accounts)
    × Distinct (names files)
    × Every (all is_file_char) (names files)

module _ (R : Runtime) (print : Sub2ApiAccount → Text) where
  later_names :
      (name : Text) (number : ℕ) (accs : List Json) (converted : List Sub2ApiAccount)
      → read_number 0 name < number
      → contains (names (single_files R print number accs converted)) name ≡ false
  unfolding contains any single_files
  later_names name number [] converted h = refl
  later_names name number (acc ∷ accs) [] h = refl
  later_names name number (acc ∷ accs) (c ∷ converted) h = ground (
    arith,
    text_eq_iff name (file_name number acc),
    read_number-file_name number acc,
    later_names name (suc number) accs converted,
  )

  pub single_files-AreSafeFiles :
      (number : ℕ) (accs : List Json) (converted : List Sub2ApiAccount)
      → length converted ≡ length accs
      → AreSafeFiles accs (single_files R print number accs converted)
  unfolding single_files
  single_files-AreSafeFiles number [] converted h = (refl, tt, tt)
  single_files-AreSafeFiles number (acc ∷ accs) [] h = absurd (omega arith)
  single_files-AreSafeFiles number (acc ∷ accs) (c ∷ converted) h =
      let (same, distinct, safe) =
        single_files-AreSafeFiles (suc number) accs converted (omega arith) in
      (
        ap suc same,
        (
          later_names (file_name number acc) (suc number) accs converted
              (omega (arith, read_number-file_name number acc)),
          distinct,
        ),
        (all-file_name number acc, safe),
      )

  pub length-convert_all :
      (moments : ℕ → Moment) (exported_at : Text) (index : ℕ) (accs : List Json)
      (converted : List Sub2ApiAccount)
      → convert_all R moments exported_at index accs ≡ some converted
      → length converted ≡ length accs
  unfolding convert_all
  length-convert_all moments exported_at index [] converted h = ground arith
  length-convert_all moments exported_at index (acc ∷ accs) converted h =
      elim (Option-cases (convert_all R moments exported_at (suc index) accs)) [
        | inl thrown ↦ ground arith
        | inr (rest, e) ↦
            ground (arith, length-convert_all moments exported_at (suc index) accs rest e)
      ]

  -- A ZIP of single accounts holds one file for each account, no two files have one name, and every
  -- name consists of ASCII letters, digits and `@._-`, whatever the e-mail addresses are.
  pub create_single_zip-AreSafeFiles :
      (clock : LocalTime) (moments : ℕ → Moment) (exported_at : Text) (accounts : List Json)
      (d : Download)
      → create_single_zip R print clock moments exported_at accounts ≡ some d
      → (files : List (Text × Text)) × (d.content ≡ zip files) × AreSafeFiles accounts files
  unfolding create_single_zip
  create_single_zip-AreSafeFiles clock moments exported_at accounts d h =
      elim (Option-cases (convert_all R moments exported_at 1 accounts)) [
        | inl thrown ↦ ground arith
        | inr (converted, e) ↦ (
          single_files R print 1 accounts converted,
          ground arith,
          single_files-AreSafeFiles 1 accounts converted
              (length-convert_all moments exported_at 1 accounts converted e),
        )
      ]
