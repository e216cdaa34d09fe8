-- ===== src/Convert/Detect.antt =====
-- `detectAndParse` and `buildSummary` of web/src/lib/converter.ts. `JSON.parse` is a parameter, whose
-- `none` is a `SyntaxError`.
pub mod Laws
use cdk_system.Base.{
  ℕ, suc, ◌+◌, ◌*◌, Bool, true, false, ◌&&◌, Option, none, some, List, [], ◌∷◌, ◌++◌, Text, text,
  text_eq, trim, is_empty, all, decimal, ltb, leb, ◌==◌, if◌then◌else◌,
}
use cdk_system.Json.{Json, arr, str, get, items_of, is_object}

-- 10 MB.
abbrev pub max_input_size : ℕ
max_input_size = 10485760

-- The bytes of a text in UTF-8, as `new Blob([text]).size` counts them: a surrogate pair takes four,
-- a lone surrogate is replaced by a character of three.
unfoldable pub utf8_size : Text → ℕ
utf8_size [] = 0
utf8_size (c ∷ []) = if ltb c 0x80 then 1 else if ltb c 0x800 then 2 else 3
utf8_size (c ∷ d ∷ s) =
    let behind_pair = utf8_size s in
    let behind_unit = utf8_size (d ∷ s) in
    if leb 0xd800 c && (ltb c 0xdc00 && (leb 0xdc00 d && ltb d 0xe000))
    then 4 + behind_pair
    else (if ltb c 0x80 then 1 else if ltb c 0x800 then 2 else 3) + behind_unit

pub data DetectedFormat : Type 0 where
  json_array jsonl json_object : DetectedFormat

pub record ParsedInput : Type 0 where
  pub accounts : List Json
  pub format : DetectedFormat

-- The errors that `detectAndParse` throws; lines count from 1.
pub data DetectError : Type 0 where
  empty_input too_large empty_array bad_element bad_root no_account : DetectError
  line_no_object line_no_json : ℕ → DetectError

pub data Detected : Type 0 where
  found : ParsedInput → Detected
  failed : DetectError → Detected

unfoldable pub detect_message : DetectError → Text
detect_message empty_input = text "输入内容为空"
detect_message too_large = text "输入内容超过 10MB 限制"
detect_message empty_array = text "账号数组为空"
detect_message bad_element = text "JSON 数组中的元素必须是对象"
detect_message bad_root = text "JSON 根必须是数组或对象"
detect_message no_account = text "未解析到任何账号"
detect_message (line_no_object n) = text "第 " ++ (decimal n ++ text " 行必须是 JSON 对象")
detect_message (line_no_json n) = text "第 " ++ (decimal n ++ text " 行不是有效 JSON")

-- `split(/\r?\n/)`, with the line read so far.
unfoldable pub split_lines : Text → Text → List Text
split_lines cur [] = cur ∷ []
split_lines cur (c ∷ []) = if c == 10 then cur ∷ [] ∷ [] else (cur ++ (c ∷ [])) ∷ []
split_lines cur (c ∷ d ∷ s) =
    let cut = cur ∷ split_lines [] (d ∷ s) in
    let cut_both = cur ∷ split_lines [] s in
    let longer = split_lines (cur ++ (c ∷ [])) (d ∷ s) in
    if c == 10 then cut else if (c == 13) && (d == 10) then cut_both else longer

-- A root that parses.
unfoldable pub detect_root : Json → Detected
detect_root (arr vs) =
    if is_empty (items_of vs)
    then failed empty_array
    else if all is_object (items_of vs)
    then found (record { accounts = items_of vs; format = json_array })
    else failed bad_element
detect_root root =
    if is_object root
    then found (record { accounts = root ∷ []; format = json_object })
    else failed bad_root

module _ (parse : Text → Option Json) where
  -- The loop over the lines; `number` is `i + 1`.
  unfoldable pub parse_lines : ℕ → List Json → List Text → Detected
  parse_lines number accounts [] =
      if is_empty accounts
      then failed no_account
      else found (record { accounts = accounts; format = jsonl })
  parse_lines number accounts (line ∷ lines) = elim (is_empty (trim line)) [
    | true ↦ parse_lines (suc number) accounts lines
    | false ↦ elim (parse (trim line)) [
      | none ↦ failed (line_no_json number)
      | some value ↦ elim (is_object value) [
        | true ↦ parse_lines (suc number) (accounts ++ (value ∷ [])) lines
        | false ↦ failed (line_no_object number)
      ]
    ]
  ]

  unfoldable pub detect_and_parse : Text → Detected
  detect_and_parse input =
      if is_empty (trim input)
      then failed empty_input
      else if ltb max_input_size (utf8_size (trim input))
      then failed too_large
      else elim (parse (trim input)) [
        | some root ↦ detect_root root
        | none ↦ parse_lines 1 [] (split_lines [] (trim input))
      ]

-- `ConvertSummary`.
pub record ConvertSummary : Type 0 where
  pub index : ℕ
  pub email : Option Text
  pub account_id : Option Text

-- `typeof value === "string" ? value : undefined`.
abbrev string_or_none : Option Json → Option Text
string_or_none (some (str s)) = some s
string_or_none _ = none

-- `buildSummary`; `index` is `idx + 1`.
unfoldable pub build_summary : ℕ → List Json → List ConvertSummary
build_summary index [] = []
build_summary index (acc ∷ accounts) =
    record {
      index = index;
      email = string_or_none (get (text "email") acc);
      account_id = string_or_none (get (text "account_id") acc);
    }
    ∷ build_summary (suc index) accounts
