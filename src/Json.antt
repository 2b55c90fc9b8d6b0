-- ===== src/Json.antt =====
-- src/core/session.cpp, `Json`: the values of the session file.
--
-- `std::map` keeps its entries sorted by key, the keys compared byte by byte. A model object is the
-- list of its entries in that order.
pub mod Order
pub mod Sorted
pub mod Print
pub mod Parse
pub mod Samples
mod Tests
use pane_dock.Common.{
  ℕ, Bool, true, false, ◌&&◌, ◌||◌, List, [], ◌∷◌, Option, none, some, Text, text_eq, ltb, ◌==◌,
  if◌then◌else◌,
}
use pane_dock.Model.{Double}

-- The arms of the variant; the number is a `double`.
mutual
  pub data Json : Type 0 where
    null : Json
    boolean : Bool → Json
    number : Double → Json
    text : Text → Json
    array : Items → Json
    object : Fields → Json

  pub data Items : Type 0 where
    no_items : Items
    item : Json → Items → Items

  pub data Fields : Type 0 where
    no_fields : Fields
    field : Text → Json → Fields → Fields

-- `operator<` of the keys.
unfoldable pub text_ltb : Text → Text → Bool
text_ltb s [] = false
text_ltb [] (d ∷ t) = true
text_ltb (c ∷ s) (d ∷ t) = if ltb c d then true else if c == d then text_ltb s t else false

-- `emplace`: `none` where the key is there already.
unfoldable pub emplace : Text → Json → Fields → Option Fields
emplace key value no_fields = some (field key value no_fields)
emplace key value (field k v fields) =
    let rest = emplace key value fields in
    if text_eq key k
    then none
    else if text_ltb key k
    then some (field key value (field k v fields))
    else elim rest [ none ↦ none | some more ↦ some (field k v more) ]

-- `find`, of `field`.
unfoldable pub find_field : Text → Fields → Option Json
find_field key no_fields = none
find_field key (field k v fields) = if text_eq key k then some v else find_field key fields
