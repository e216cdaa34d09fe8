-- ===== src/Convert/Tab/Laws.antt =====
-- What the convert tab previews and downloads.
use cdk_system.Base.{
  ℕ, ◌≡◌, true, false, none, List, [], ◌∷◌, map, any, Text, text, text_eq, length, arith,
}
use cdk_system.Json.{Json}
use cdk_system.Convert.Detect.{ParsedInput, DetectError, failed, detect_and_parse}
use cdk_system.Convert.Account.Token.{Runtime}
use cdk_system.Convert.Account.{Moment, Account, Sub2ApiAccount}
use cdk_system.Convert.Account.Merged.{alone, AreConverted, has_null_claims}
use cdk_system.Convert.Files.{zip, plain, Download}
use cdk_system.Convert.Files.Laws.{AreSafeFiles}
use cdk_system.Redeem.Archive.{LocalTime}
use cdk_system.Convert.Tab.{
  Tab, Preview, Built, built, no_build, format_options, detect, handle_download,
}

module _ (R : Runtime) (print : Sub2ApiAccount → Text) where
  -- The format, the number and the rows that a preview shows are those of these accounts.
  abbrev pub IsPreviewOf : ParsedInput → Preview → Type 0
  IsPreviewOf p v =
      (v.format ≡ p.format) × (v.total ≡ length p.accounts) × (length v.summary ≡ length p.accounts)

  -- What a download of these accounts hands over, for the chosen format.
  pub data IsBuiltFor (moments : ℕ → Moment) (exported_at merged_at format : Text)
      (accounts : List Json) : Built → Type 0 where
    single_zip :
        (d : Download) (files : List (Text × Text)) (as' : List Account)
        → format ≡ text "single_zip"
        → d.content ≡ zip files
        → AreSafeFiles accounts files
        → map (λ file. file.1) files ≡ map (λ a. print (alone exported_at a)) as'
        → AreConverted R moments exported_at 1 accounts as'
        → IsBuiltFor moments exported_at merged_at format accounts (built d)
    merged_zip :
        (d : Download) (name : Text) (m : Sub2ApiAccount)
        → format ≡ text "merged_zip"
        → d.content ≡ zip ((name, print m) ∷ [])
        → m.exported_at ≡ merged_at
        → AreConverted R moments exported_at 1 accounts m.accounts
        → IsBuiltFor moments exported_at merged_at format accounts (built d)
    merged_json :
        (d : Download) (m : Sub2ApiAccount)
        → format ≡ text "merged_json"
        → d.content ≡ plain (print m)
        → m.exported_at ≡ merged_at
        → AreConverted R moments exported_at 1 accounts m.accounts
        → IsBuiltFor moments exported_at merged_at format accounts (built d)
    null_claims :
        (message : Text)
        → any (has_null_claims R) accounts ≡ true
        → IsBuiltFor moments exported_at merged_at format accounts (no_build message)
    no_format :
        (message : Text)
        → any (text_eq format) format_options ≡ false
        → IsBuiltFor moments exported_at merged_at format accounts (no_build message)

  -- When the text does not parse, recognising it shows the reason and no preview, and a download is
  -- refused without loading.
  pub handle_download-detect_failed :
      (clock : LocalTime) (moments : ℕ → Moment) (exported_at merged_at : Text) (t : Tab)
      (e : DetectError)
      → detect_and_parse R.parse t.input ≡ failed e
      → ((detect R print t).preview ≡ none)
        × ((handle_download R print clock moments exported_at merged_at (detect R print t)).1
            ≡ none)
        × ((handle_download R print clock moments exported_at merged_at
              (detect R print t)).0.loading
            ≡ t.loading)
  unfolding detect handle_download
  handle_download-detect_failed clock moments exported_at merged_at t e h = ground arith
