-- ===== src/Convert/Tab/Shown.antt =====
-- What the converter shows, in `ConvertTab` of web/src/pages/redeem.tsx.
use cdk_system.Base.{
  Bool, true, ◌||◌, Option, none, some, List, [], ◌∷◌, ◌++◌, map, Text, text, text_or, take, length,
  min, join, decimal, ◌==◌, if◌then◌else◌,
}
use cdk_system.Convert.Detect.{DetectedFormat, json_array, jsonl, json_object, ConvertSummary}
use cdk_system.Convert.Tab.{Preview, Tab}

-- The name of a format.
unfoldable pub format_name : DetectedFormat → Text
format_name json_array = text "JSON 数组"
format_name jsonl = text "JSONL"
format_name json_object = text "JSON 对象"

abbrev nonempty_or : Option Text → Text → Text
nonempty_or none t = t
nonempty_or (some s) t = text_or s t

-- `s.email || s.account_id || #index`.
unfoldable pub summary_text : ConvertSummary → Text
summary_text s = nonempty_or s.email (nonempty_or s.account_id (text "#" ++ decimal s.index))

-- The first ten accounts, none for an empty list.
unfoldable pub first_ten : List ConvertSummary → Option Text
first_ten [] = none
first_ten (s ∷ ss) = some (
    text "前 "
    ++ (decimal (min (length (s ∷ ss)) 10)
        ++ (text " 条：" ++ join (text ", ") (map summary_text (take 10 (s ∷ ss))))))

-- What is shown of a recognised input: its format and count, and the first accounts.
unfoldable pub preview_text : Preview → Text × Option Text
preview_text p = (
  text "格式：" ++ (format_name p.format ++ (text " · 共 " ++ (decimal p.total ++ text " 个账号"))),
  first_ten p.summary,
)

abbrev nothing_to_convert : Option Preview → Bool
nothing_to_convert none = true
nothing_to_convert (some p) = p.total == 0

-- The button: its label, and whether it is disabled.
unfoldable pub convert_button : Tab → Text × Bool
convert_button t =
    ((if t.loading then text "转换中…" else text "转换并下载"), t.loading || nothing_to_convert t.preview)
