-- ===== src/Convert/Files.antt =====
-- `createSingleZip`, `createMergedZip` and `createMergedJson` of web/src/lib/converter.ts. JSZip is
-- a third-party library: an archive is the list of the calls `zip.file(name, content)`. Printing a
-- converted account by `JSON.stringify(value, null, 2)` is a parameter.
pub mod Laws
pub mod Merged
use cdk_system.Base.{
  ℕ, suc, ◌+◌, Bool, true, false, ◌||◌, Option, none, some, List, [], ◌∷◌, ◌++◌, map, Text, text,
  ◌==◌, is_alnum, length, decimal, pad_start, if◌then◌else◌,
}
use cdk_system.Json.{Json, str, get}
use cdk_system.Redeem.Archive.{LocalTime, timestamp}
use cdk_system.Convert.Account.Token.{Runtime}
use cdk_system.Convert.Account.{Moment, Sub2ApiAccount, convert_all, build_merged}

-- A download: its name, and a ZIP of files or the text of a single file.
pub data Content : Type 0 where
  zip : List (Text × Text) → Content
  plain : Text → Content

pub record Download : Type 0 where
  pub content : Content
  pub filename : Text

-- The characters that `[^a-zA-Z0-9@._-]` leaves alone.
unfoldable pub is_file_char : ℕ → Bool
is_file_char c = is_alnum c || (c == b'@') || (c == b'.') || (c == b'_') || (c == b'-')

unfoldable pub safe_filename : Text → Text
safe_filename name = map (λ c. if is_file_char c then c else b'_') name

-- `acc.email` if it is a text that is not empty, made safe; else the number of the account.
unfoldable pub identifier : ℕ → Json → Text
identifier number acc = elim (get (text "email") acc) [
  | some (str (c ∷ email)) ↦ safe_filename (c ∷ email)
  | _ ↦ text "account_" ++ pad_start 4 b'0' (decimal number)
]

unfoldable pub file_name : ℕ → Json → Text
file_name number acc =
    pad_start 4 b'0' (decimal number) ++ (b'_' ∷ (identifier number acc ++ text ".json"))

module _ (R : Runtime) (print : Sub2ApiAccount → Text) where
  -- The loop over the converted accounts; `number` is `i + 1`.
  unfoldable pub single_files : ℕ → List Json → List Sub2ApiAccount → List (Text × Text)
  single_files number (acc ∷ accs) (converted ∷ rest) =
      (file_name number acc, print converted) ∷ single_files (suc number) accs rest
  single_files number _ _ = []

  unfoldable pub create_single_zip : LocalTime → (ℕ → Moment) → Text → List Json → Option Download
  create_single_zip clock moments exported_at accounts =
      elim (convert_all R moments exported_at 1 accounts) [
        | none ↦ none
        | some converted ↦ some (record {
          content = zip (single_files 1 accounts converted);
          filename =
              text "04-sub_"
              ++ (decimal (length converted) ++ (text "_" ++ (timestamp clock ++ text ".zip")));
        })
      ]

  abbrev merged_name : LocalTime → List Json → Text
  merged_name clock accounts =
      text "sub2api_merged_"
      ++ (decimal (length accounts) ++ (text "_" ++ (timestamp clock ++ text ".json")))

  unfoldable pub create_merged_zip :
      LocalTime → (ℕ → Moment) → Text → Text → List Json → Option Download
  create_merged_zip clock moments exported_at merged_at accounts =
      elim (build_merged R moments exported_at merged_at accounts) [
        | none ↦ none
        | some merged ↦ some (record {
          content = zip ((merged_name clock accounts, print merged) ∷ []);
          filename =
              text "04-sub_merged_"
              ++ (decimal (length accounts) ++ (text "_" ++ (timestamp clock ++ text ".zip")));
        })
      ]

  unfoldable pub create_merged_json :
      LocalTime → (ℕ → Moment) → Text → Text → List Json → Option Download
  create_merged_json clock moments exported_at merged_at accounts =
      elim (build_merged R moments exported_at merged_at accounts) [
        | none ↦ none
        | some merged ↦
            some (record { content = plain (print merged); filename = merged_name clock accounts })
      ]
