-- ===== src/Json/Laws.antt =====
-- Reading a property after a write.
use cdk_system.Base.{
  ◌≡◌, refl, some, Text, text_eq, text_eq_iff, if◌then◌else◌, arith, List, [], ◌∷◌,
}
use cdk_system.Json.{Json, Fields, end, field, lookup, assign, items_of, array_of}

pub lookup-assign :
    (name key : Text) (value : Json) (fields : Fields)
    → lookup key (assign name value fields)
      ≡ (if text_eq name key then some value else lookup key fields)
unfolding lookup assign
lookup-assign name key value end = refl
lookup-assign name key value (field k v rest) = ground (
  arith,
  lookup-assign name key value rest,
  text_eq_iff name key,
  text_eq_iff k name,
  text_eq_iff k key,
)

pub items_of-array_of : (vs : List Json) → items_of (array_of vs) ≡ vs
unfolding items_of array_of
items_of-array_of [] = refl
items_of-array_of (v ∷ vs) = rw (items_of-array_of vs)
