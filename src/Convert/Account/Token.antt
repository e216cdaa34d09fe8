-- ===== src/Convert/Account/Token.antt =====
-- `decodeJWT` of web/src/lib/converter.ts.
use cdk_system.Base.{
  ◌-◌, ◌%◌, Option, none, some, List, [], ◌∷◌, ◌++◌, map, Text, ◌==◌, length, replicate,
  if◌then◌else◌,
}
use cdk_system.Json.{Json, obj, end}

-- The parts of the runtime that the converter calls. `none`: `JSON.parse` and `atob` throw, or the
-- date is invalid; `epoch_seconds` gives the number as it is printed.
pub record Runtime : Type 0 where
  pub parse : Text → Option Json
  pub atob : Text → Option Text
  pub epoch_seconds : Text → Option Text

-- `split(".")`, with the part read so far.
unfoldable pub split_dots : Text → Text → List Text
split_dots cur [] = cur ∷ []
split_dots cur (c ∷ s) =
    let cut = cur ∷ split_dots [] s in
    let longer = split_dots (cur ++ (c ∷ [])) s in if c == b'.' then cut else longer

-- From the URL alphabet of base64 to the plain one, filled up to a multiple of four.
unfoldable pub plain_base64 : Text → Text
plain_base64 part =
    map (λ c. if c == b'-' then b'+' else if c == b'_' then b'/' else c)
      (part ++ replicate ((4 - length part % 4) % 4) b'=')

unfoldable pub payload_of : List Text → Option Text
payload_of (header ∷ payload ∷ signature ∷ []) = some payload
payload_of _ = none

module _ (R : Runtime) where
  abbrev parsed_or_empty : Option Json → Json
  parsed_or_empty none = obj end
  parsed_or_empty (some claims) = claims

  -- Whatever throws gives an empty object.
  unfoldable pub decode_jwt : Text → Json
  unfolding split_dots payload_of plain_base64
  decode_jwt token = elim (payload_of (split_dots [] token)) [
    | none ↦ obj end
    | some payload ↦ elim (R.atob (plain_base64 payload)) [
      | none ↦ obj end
      | some json ↦ parsed_or_empty (R.parse json)
    ]
  ]
