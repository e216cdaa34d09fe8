-- ===== src/Json.antt =====
-- JavaScript values as `JSON.parse` makes them, with the operations of the language that the source
-- uses on values of type `unknown`.
pub mod Laws
use cdk_system.Base.{
  ℕ, Bool, true, false, Option, none, some, List, [], ◌∷◌, ◌++◌, Text, text, text_eq, is_empty, not,
  if◌then◌else◌,
}

-- A number is the text by which `JSON.stringify` and `String` print it. An object keeps its own
-- properties in their order; `field` holds a name, its value and the properties behind it.
mutual
  pub data Json : Type 0 where
    null : Json
    bool : Bool → Json
    num : Text → Json
    str : Text → Json
    arr : Items → Json
    obj : Fields → Json

  pub data Items : Type 0 where
    nil : Items
    cons : Json → Items → Items

  pub data Fields : Type 0 where
    end : Fields
    field : Text → Json → Fields → Fields

unfoldable pub items_of : Items → List Json
items_of nil = []
items_of (cons v vs) = v ∷ items_of vs

unfoldable pub array_of : List Json → Items
array_of [] = nil
array_of (v ∷ vs) = cons v (array_of vs)

-- `fields[name]`, `none` for `undefined`.
unfoldable pub lookup : Text → Fields → Option Json
lookup name end = none
lookup name (field key v rest) = if text_eq key name then some v else lookup name rest

-- `fields[name] = value`: an old property keeps its place, a new one comes last.
unfoldable pub assign : Text → Json → Fields → Fields
assign name value end = field name value end
assign name value (field key v rest) =
    if text_eq key name then field key value rest else field key v (assign name value rest)

-- `value.name` of an object value; other values have no such property.
unfoldable pub get : Text → Json → Option Json
get name (obj fields) = lookup name fields
get name _ = none

-- `typeof value === "string"`, also of an absent value.
unfoldable pub is_string : Option Json → Bool
is_string (some (str s)) = true
is_string _ = false

-- `typeof value === "object" && value !== null`: arrays are objects too.
unfoldable pub is_object : Json → Bool
is_object (arr vs) = true
is_object (obj fields) = true
is_object _ = false

-- `isRecord` of web/src/pages/redeem.tsx: an object that is no array.
unfoldable pub is_record : Json → Bool
is_record (obj fields) = true
is_record _ = false

-- The truth value of an optional value: `undefined`, null, false, 0 and "" are falsy.
unfoldable pub truthy : Option Json → Bool
truthy none = false
truthy (some null) = false
truthy (some (bool b)) = b
truthy (some (num n)) = not (text_eq n (text "0"))
truthy (some (str s)) = not (is_empty s)
truthy (some _) = true

abbrev unless_null : Json → Text → Text
unless_null null s = []
unless_null _ s = s

-- `String(value)`. In an array, null elements print as nothing.
unfoldable mutual
  pub to_text : Json → Text
  to_text null = text "null"
  to_text (bool b) = if b then text "true" else text "false"
  to_text (num n) = n
  to_text (str s) = s
  to_text (arr vs) = items_text vs
  to_text (obj fields) = text "[object Object]"

  pub items_text : Items → Text
  items_text nil = []
  items_text (cons v nil) = unless_null v (to_text v)
  items_text (cons v (cons w vs)) =
      unless_null v (to_text v) ++ (text "," ++ items_text (cons w vs))

-- `String(value ?? "")`.
unfoldable pub text_or_empty : Option Json → Text
text_or_empty none = []
text_or_empty (some null) = []
text_or_empty (some v) = to_text v
