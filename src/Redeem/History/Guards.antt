-- ===== src/Redeem/History/Guards.antt =====
-- The type guards of web/src/pages/redeem.tsx on values of type `unknown`.
use cdk_system.Base.{Bool, true, false, ◌&&◌, Option, none, some, Text, text, text_eq, is_some}
use cdk_system.Json.{Json, bool, str, get, is_string, is_record}

-- `value.ok === true`.
abbrev pub is_true : Option Json → Bool
is_true (some (bool b)) = b
is_true _ = false

-- `value.result === "success"`.
abbrev pub is_text : Text → Option Json → Bool
is_text s (some (str t)) = text_eq t s
is_text s _ = false

abbrev pub is_record_or_absent : Option Json → Bool
is_record_or_absent none = true
is_record_or_absent (some v) = is_record v

-- `isRedeemSuccess`.
unfoldable pub is_redeem_success : Json → Bool
unfolding is_record is_string
is_redeem_success value =
    is_record value
    && (is_true (get (text "ok") value)
        && (is_text (text "success") (get (text "result") value)
            && (is_string (get (text "message") value)
                && (is_string (get (text "batch") value)
                    && (is_string (get (text "code") value)
                        && (is_string (get (text "user_id") value)
                            && (is_string (get (text "redeemed_at") value)
                                && (is_some (get (text "payload") value)
                                    && is_record_or_absent (get (text "credential") value)))))))))

abbrev pub result_ok : Option Json → Bool
result_ok none = false
result_ok (some v) = is_redeem_success v

-- The guard in `loadRedeemHistory`.
unfoldable pub is_history_entry : Json → Bool
is_history_entry entry =
    is_record entry
    && (is_string (get (text "id") entry)
        && (is_string (get (text "saved_at") entry) && result_ok (get (text "result") entry)))
