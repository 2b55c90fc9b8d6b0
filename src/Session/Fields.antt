-- ===== src/Session/Fields.antt =====
-- How the fields of an object are read and written.
use pane_dock.Common.{
  ℕ, zero, suc, ◌-◌, ◌*◌, ◌/◌, ◌%◌, ◌^◌, Bool, true, false, ◌&&◌, Option, none, some, Text, text_eq,
  leb, ◌==◌, if◌then◌else◌,
}
use pane_dock.Common.Int.{ℤ, pos, negsuc}
use pane_dock.Model.{one_units, Double, not_a_number, infinite, finite}
use pane_dock.Json.{
  Json, Items, Fields, boolean, number, text, array, object, no_items, no_fields, field, text_ltb,
  find_field,
}

infixl 5 ◌>>=◌
abbrev pub ◌>>=◌ : {A B : Type 0} → Option A → (A → Option B) → Option B
none >>= f = none
some a >>= f = f a

-- `value[key] = ...`.
unfoldable pub assign : Text → Json → Fields → Fields
assign key value no_fields = field key value no_fields
assign key value (field k v fields) =
    let rest = assign key value fields in
    if text_eq key k
    then field k value fields
    else if text_ltb key k
    then field key value (field k v fields)
    else field k v rest

-- `erase`, of every entry with the key.
unfoldable pub erase_field : Text → Fields → Fields
erase_field key no_fields = no_fields
erase_field key (field k v fields) =
    let rest = erase_field key fields in if text_eq key k then rest else field k v rest

-- `std::get_if`, by the arm.
abbrev pub get_bool : Json → Option Bool
get_bool (boolean b) = some b
get_bool _ = none

abbrev pub get_number : Json → Option Double
get_number (number d) = some d
get_number _ = none

abbrev pub get_text : Json → Option Text
get_text (text t) = some t
get_text _ = none

abbrev pub get_array : Json → Option Items
get_array (array items) = some items
get_array _ = none

abbrev pub get_object : Json → Option Fields
get_object (object fields) = some fields
get_object _ = none

-- `as<T>`.
unfoldable pub field_as : {A : Type 0} → (Json → Option A) → Text → Fields → Option A
field_as get name fields = find_field name fields >>= get

-- `static_cast<double>` of an `int`.
unfoldable pub of_int : ℤ → Double
of_int (pos n) = finite false (n * one_units)
of_int (negsuc n) = finite true (suc n * one_units)

abbrev pub negated : ℕ → ℤ
negated zero = pos 0
negated (suc n) = negsuc n

-- A `double` that is an integer in the range of `int`, as an `int`; `none` where it is not.
unfoldable pub int_of : Double → Option ℤ
int_of not_a_number = none
int_of (infinite negative) = none
int_of (finite true units) =
    if (units % one_units == 0) && leb (units / one_units) (2 ^ 31)
    then some (negated (units / one_units))
    else none
int_of (finite false units) =
    if (units % one_units == 0) && leb (units / one_units) (2 ^ 31 - 1)
    then some (pos (units / one_units))
    else none

unfoldable pub integer : Text → Fields → Option ℤ
unfolding field_as int_of
integer name fields = field_as get_number name fields >>= int_of

-- An object that is there, or an empty one.
abbrev pub object_or_empty : Option Json → Fields
object_or_empty none = no_fields
object_or_empty (some (object fields)) = fields
object_or_empty (some _) = no_fields

-- An array that is there, or an empty one.
abbrev pub items_or_none : Option Json → Items
items_or_none none = no_items
items_or_none (some (array items)) = items
items_or_none (some _) = no_items
