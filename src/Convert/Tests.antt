-- ===== src/Convert/Tests.antt =====
-- Runs of the converter on a small account.
use cdk_system.Base.{
  ◌≡◌, refl, none, some, List, [], ◌∷◌, Text, text, text_eq, trim, trim_start, is_space, decimal,
  digits_from, pad_start,
}
use cdk_system.Json.{str, obj, Fields, field, end, get, lookup, assign, text_or_empty, is_object}
use cdk_system.Redeem.Archive.{LocalTime, timestamp, pad}
use cdk_system.Convert.Detect.{
  ParsedInput, json_object, empty_input, found, failed, detect_and_parse, detect_root, utf8_size,
}
use cdk_system.Convert.Detect.Laws.{IsParsed, detect_and_parse-found}
use cdk_system.Convert.Account.Token.{Runtime}
use cdk_system.Convert.Account.{
  Moment, Sub2ApiAccount, convert_one, convert_all, build_merged, with_claims, account_of,
  first_accounts, copy_fields, is_left_out, is_token_key,
}
use cdk_system.Convert.Account.Laws.{HasExtra, convert_one-HasExtra}
use cdk_system.Convert.Files.{zip, Download, create_single_zip, single_files}
use cdk_system.Convert.Files.Merged.{HoldSame, create_single_zip-build_merged}
use cdk_system.Convert.Files.Laws.{AreSafeFiles, create_single_zip-AreSafeFiles}
use cdk_system.Convert.Tab.{Tab, initial_tab}

abbrev account : Fields
account = field (text "email") (str (text "a@b.c")) (field (text "id_token") (str (text "t")) end)

-- A runtime that parses every text to this account.
abbrev runtime : Runtime
runtime = record { parse = λ s. some (obj account); atob = λ s. none; epoch_seconds = λ s. none }

abbrev print : Sub2ApiAccount → Text
print s = s.exported_at

abbrev noon : Moment
noon = record { month = 4; date = 6; hours = 12; minutes = 0 }

abbrev later : Moment
later = record noon { minutes = 1 }

abbrev clock : LocalTime
clock = record { year = 2025; month = 4; date = 6; hours = 12; minutes = 0; seconds = 9 }

abbrev converted : Sub2ApiAccount
converted = record {
  exported_at = text "now";
  accounts = account_of runtime noon 1 (obj end) (obj account) ∷ [];
}

abbrev parsed : ParsedInput
parsed = record { accounts = obj account ∷ []; format = json_object }

convert_one-account : convert_one runtime noon (text "now") 1 (obj account) ≡ some converted
unfolding convert_one with_claims get lookup text text_eq text_or_empty
convert_one-account = refl

convert_one-HasExtra_example : HasExtra account (text "id_token") converted
unfolding lookup text text_eq
convert_one-HasExtra_example =
    convert_one-HasExtra runtime noon (text "now") 1 account converted (text "id_token")
      (refl, (refl, tt)) convert_one-account

-- A property `__proto__` of the input does not become a property of `extra`.
with_prototype :
    copy_fields end (field (text "__proto__") (str (text "p")) (field (text "k") (str []) end))
    ≡ field (text "k") (str []) end
unfolding copy_fields is_left_out is_token_key assign text text_eq
with_prototype = refl

abbrev merged : Sub2ApiAccount
merged = record converted { exported_at = text "later" }

-- The single accounts are downloaded a minute after the merged file.
create_single_zip-build_merged_example :
    (d : Download) × (create_single_zip runtime print clock
        (λ index. later)
        (text "then")
        (obj account ∷ [])
      ≡ some d)
    × HoldSame runtime print (λ index. noon) (λ index. later) (text "then") merged d
unfolding build_merged convert_all convert_one with_claims get lookup text text_eq first_accounts
    text_or_empty
create_single_zip-build_merged_example =
    create_single_zip-build_merged runtime print clock (λ index. noon) (λ index. later) (text "now")
      (text "then") (text "later") (obj account ∷ []) merged refl

detect_and_parse-parsed : detect_and_parse runtime.parse (text "{}") ≡ found parsed
unfolding detect_and_parse trim trim_start is_space text utf8_size detect_root is_object
detect_and_parse-parsed = refl

detect_and_parse-found_example : IsParsed runtime.parse (text "{}") parsed
detect_and_parse-found_example =
    detect_and_parse-found runtime.parse (text "{}") parsed detect_and_parse-parsed

abbrev download : Download
download = record {
  content = zip (single_files runtime print 1 (obj account ∷ []) (converted ∷ []));
  filename = text "04-sub_1_20250506_120009.zip";
}

create_single_zip-AreSafeFiles_example :
    (files : List (Text × Text)) × (download.content ≡ zip files)
    × AreSafeFiles (obj account ∷ []) files
unfolding create_single_zip convert_all convert_one with_claims get lookup text text_eq
    text_or_empty decimal digits_from timestamp pad pad_start
create_single_zip-AreSafeFiles_example =
    create_single_zip-AreSafeFiles runtime print clock (λ index. noon) (text "now")
      (obj account ∷ []) download refl

abbrev typed : Tab
typed = record initial_tab { input = text "{}" }

blank_fails : detect_and_parse runtime.parse initial_tab.input ≡ failed empty_input
unfolding detect_and_parse trim trim_start initial_tab
blank_fails = refl
