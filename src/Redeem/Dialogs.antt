-- ===== src/Redeem/Dialogs.antt =====
-- The two dialogs of web/src/pages/redeem.tsx: `RedeemHistoryDialog` and `RedeemResultDialog`, as the
-- texts and buttons that they show. Values that passed the guards have the properties read here.
use cdk_system.Base.{
  Bool, true, false, Option, none, some, List, [], ◌∷◌, ◌++◌, Text, text, text_or, is_empty,
  if◌then◌else◌,
}
use cdk_system.Json.{Json, get, to_text, truthy, text_or_empty}

-- A property of an object, printed.
abbrev pub field_text : Text → Json → Text
field_text name value = text_or_empty (get name value)

-- A row of the history, with what its two buttons do.
pub record HistoryRow : Type 0 where
  pub code : Text
  pub time : Text
  pub batch : Text
  pub user : Text
  pub selects : Option Json
  pub deletes : Text

abbrev pub result_text : Text → Json → Text
result_text name entry = elim (get (text "result") entry) [
  | none ↦ []
  | some result ↦ field_text name result
]

unfoldable pub history_row : Json → HistoryRow
history_row entry = record {
  code = result_text (text "code") entry;
  time = text_or (result_text (text "redeemed_at") entry) (field_text (text "saved_at") entry);
  batch = result_text (text "batch") entry;
  user = result_text (text "user_id") entry;
  selects = get (text "result") entry;
  deletes = field_text (text "id") entry;
}

-- The rows, and whether there is a button that clears the history; none is the notice that there is no
-- history.
unfoldable pub history_rows : List Json → List HistoryRow
history_rows [] = []
history_rows (entry ∷ entries) = history_row entry ∷ history_rows entries

unfoldable pub shows_clear_button : List Json → Bool
shows_clear_button entries = if is_empty entries then false else true

-- `serializeJson`, with what `JSON.stringify` returns.
unfoldable pub serialize_json : Option Text → Text
serialize_json printed = elim printed [ none ↦ text "null" | some s ↦ s ]

module _ (locale_string : Text → Option Text) where
  -- `formatExpiry`: `locale_string` is none for an invalid date.
  unfoldable pub format_expiry : Option Json → Text
  format_expiry value = elim value [
    | none ↦ text "—"
    | some v ↦
        if truthy (some v)
        then (elim (locale_string (to_text v)) [ none ↦ to_text v | some shown ↦ shown ])
        else text "—"
  ]

  -- `String(value ?? "—")`.
  abbrev pub text_or_dash : Option Json → Text
  text_or_dash none = text "—"
  text_or_dash (some Json.null) = text "—"
  text_or_dash (some v) = to_text v

  pub record CredentialView : Type 0 where
    pub email : Text
    pub plan_type : Text
    pub expires : Text
    pub file_name : Text

  pub record ResultView : Type 0 where
    pub description : Text
    pub code : Text
    pub user : Text
    pub payload : Option (Json × Text)
    pub credential : Option CredentialView

  unfoldable pub credential_view : Text → Option Json → Option CredentialView
  credential_view code none = none
  credential_view code (some c) =
      if truthy (some c)
      then some (record {
        email = text_or_dash (get (text "email") c);
        plan_type = text_or_dash (get (text "plan_type") c);
        expires = format_expiry (get (text "expired") c);
        file_name = text "credential-" ++ (code ++ text ".json");
      })
      else none

  abbrev pub payload_view : Text → Option Json → Option (Json × Text)
  payload_view code none = none
  payload_view code (some payload) = some (payload, text "redemption-" ++ (code ++ text ".json"))

  -- What the dialog shows of a result; it is closed without one.
  unfoldable pub result_view : Option Json → Option ResultView
  result_view none = none
  result_view (some result) =
      let code = field_text (text "code") result in
      some (record {
        description =
            field_text (text "batch") result
            ++ (text " · " ++ field_text (text "redeemed_at") result);
        code = code;
        user = field_text (text "user_id") result;
        payload = payload_view code (get (text "payload") result);
        credential = credential_view code (get (text "credential") result);
      })
