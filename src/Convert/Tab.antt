-- ===== src/Convert/Tab.antt =====
-- `ConvertTab` of web/src/pages/redeem.tsx: the state of the form and its handlers, as steps between
-- the points where they wait. The ZIP library may reject what it is given.
pub mod Laws
pub mod Shown
use cdk_system.Base.{
  ℕ, Bool, true, false, ◌||◌, ◌==◌, not, Option, none, some, List, [], ◌∷◌, Text, text, text_eq,
  trim, is_empty, length, if◌then◌else◌,
}
use cdk_system.Json.{Json}
use cdk_system.Api.{Settled, resolved, rejected, error_message}
use cdk_system.Redeem.Archive.{LocalTime}
use cdk_system.Convert.Detect.{
  ParsedInput, DetectedFormat, Detected, found, failed, detect_message, detect_and_parse,
  ConvertSummary, build_summary,
}
use cdk_system.Convert.Account.Token.{Runtime}
use cdk_system.Convert.Account.{Moment, Sub2ApiAccount}
use cdk_system.Convert.Files.{Download, create_single_zip, create_merged_zip, create_merged_json}

pub record Preview : Type 0 where
  pub format : DetectedFormat
  pub total : ℕ
  pub summary : List ConvertSummary

pub record Tab : Type 0 where
  pub input : Text
  pub format : Text
  pub preview : Option Preview
  pub loading : Bool
  pub error : Option Text

unfoldable pub initial_tab : Tab
initial_tab = record {
  input = [];
  format = text "single_zip";
  preview = none;
  loading = false;
  error = none;
}

-- `FORMAT_OPTIONS`.
unfoldable pub format_options : List Text
format_options = text "single_zip" ∷ text "merged_zip" ∷ text "merged_json" ∷ []

-- `setText`: typing, a chosen or dropped file, and the clipboard. The preview stays as it is.
unfoldable pub set_text : Text → Tab → Tab
set_text value t = record t { input = value }

unfoldable pub set_format : Text → Tab → Tab
set_format value t = if is_empty value then t else record t { format = value }

-- What a reader of a chosen file gives: its text, or an error.
unfoldable pub file_read : Option Text → Tab → Tab
file_read (some value) t = record t { input = value }
file_read none t = record t { error = some (text "文件读取失败") }

unfoldable pub paste : Option Text → Tab → Tab
paste none t = record t { error = some (text "无法读取剪贴板") }
paste (some []) t = t
paste (some (c ∷ s)) t = record t { input = c ∷ s }

abbrev pub preview_of : ParsedInput → Preview
preview_of p = record {
  format = p.format;
  total = length p.accounts;
  summary = build_summary 1 p.accounts;
}

-- `!preview || preview.total === 0`.
abbrev has_no_accounts : Option Preview → Bool
has_no_accounts none = true
has_no_accounts (some p) = p.total == 0

-- The outcome of the `try` block before the ZIP library: a download, or the message of an error.
pub data Built : Type 0 where
  built : Download → Built
  no_build : Text → Built

abbrev pub or_type_error : Option Download → Built
or_type_error none = no_build (text "TypeError")
or_type_error (some d) = built d

module _ (R : Runtime) (print : Sub2ApiAccount → Text) where
  -- `detect`.
  unfoldable pub detect : Tab → Tab
  detect t =
      if is_empty (trim t.input)
      then record t { error = none; preview = none }
      else elim (detect_and_parse R.parse t.input) [
        | found p ↦ record t { error = none; preview = some (preview_of p) }
        | failed e ↦ record t { error = some (detect_message e); preview = none }
      ]

  unfoldable pub build : LocalTime → (ℕ → Moment) → Text → Text → Text → ParsedInput → Built
  build clock moments exported_at merged_at format p =
      if text_eq format (text "single_zip")
      then or_type_error (create_single_zip R print clock moments exported_at p.accounts)
      else if text_eq format (text "merged_zip")
      then or_type_error (create_merged_zip R print clock moments exported_at merged_at p.accounts)
      else if text_eq format (text "merged_json")
      then or_type_error (create_merged_json R print clock moments exported_at merged_at p.accounts)
      else no_build (text "不支持的输出格式")

  abbrev build_input : LocalTime → (ℕ → Moment) → Text → Text → Text → Detected → Built
  build_input clock moments exported_at merged_at format (found p) =
      build clock moments exported_at merged_at format p
  build_input clock moments exported_at merged_at format (failed e) = no_build (detect_message e)

  -- `handleDownload` up to the ZIP library; the second component is what is handed to it.
  unfoldable pub handle_download : LocalTime → (ℕ → Moment) → Text → Text → Tab → Tab × Option Built
  handle_download clock moments exported_at merged_at t =
      if is_empty (trim t.input) || has_no_accounts t.preview
      then (record t { error = some (text "请先输入有效内容并完成识别") }, none)
      else (
        record t { loading = true; error = none },
        some (
            build_input clock moments exported_at merged_at t.format
              (detect_and_parse R.parse t.input)),
      )

  -- The rest of `handleDownload`: the download that it starts, if the blob is there.
  unfoldable pub download_settled : Built → Settled Download → Tab → Tab × Option Download
  download_settled (no_build message) _ t =
      (record t { loading = false; error = some message }, none)
  download_settled (built d) (rejected e) t =
      (record t { loading = false; error = some (error_message e) }, none)
  download_settled (built d) (resolved blob) t = (record t { loading = false }, some blob)
