-- ===== src/Session/Writable.antt =====
-- What `encode` builds can be written, where what it writes over can.
use pane_dock.Common.{
  suc, ◌≡◌, refl, subst, Bool, true, Option, none, some, Text, Text-discrete, text_eq, arith,
  Bool-cases, inl, inr, holds-true,
}
use pane_dock.Common.Int.{ℤ, pos, negsuc}
use pane_dock.Json.{
  Json, Items, Fields, null, boolean, number, text, array, object, no_items, no_fields, field,
  text_ltb, find_field,
}
use pane_dock.Json.Order.{AllFields, IsSorted}
use pane_dock.Json.Sorted.{WhenSome, text_ltb-apart, IsSorted-front}
use pane_dock.Json.Parse.Kept.{IsWritableObject}
use pane_dock.Json.Parse.Steps.{IsFinite, IsWritable, AreWritable, AreWritableFields}
use pane_dock.Session.Fields.{assign, erase_field, of_int, object_or_empty, items_or_none}
use pane_dock.Session.Lookup.{IsInt}

of_int-IsFinite : (n : ℤ) → IsInt n → IsFinite (of_int n)
unfolding of_int
of_int-IsFinite (pos n) h = (n, 1074, refl, omega arith, omega arith)
of_int-IsFinite (negsuc n) h = (suc n, 1074, refl, omega arith, omega arith)

-- Keys behind a bound stay behind it.
AllFields-assign :
    (P : Text → Json → Type 0) (k : Text) (v : Json) (place : Fields)
    → P k v
    → AllFields P place
    → AllFields P (assign k v place)
unfolding assign
AllFields-assign P k v no_fields p h = (p, tt)
AllFields-assign P k v (field l w more) p h = elim (Bool-cases (text_eq k l)) [
  | inl e ↦ rw e (subst (λ m. P m v) (holds-true (Text-discrete k l) e) p, h.1)
  | inr e ↦ elim (Bool-cases (text_ltb k l)) [
    | inl b ↦ rw (e, b) (p, h)
    | inr b ↦ rw (e, b) (h.0, AllFields-assign P k v more p h.1)
  ]
]

AllFields-erase_field :
    (P : Text → Json → Type 0) (k : Text) (place : Fields)
    → AllFields P place
    → AllFields P (erase_field k place)
unfolding erase_field
AllFields-erase_field P k no_fields h = tt
AllFields-erase_field P k (field l w more) h = elim (Bool-cases (text_eq k l)) [
  | inl e ↦ rw e (AllFields-erase_field P k more h.1)
  | inr e ↦ rw e (h.0, AllFields-erase_field P k more h.1)
]

-- Where a key is, a write of its value keeps the keys.
IsSorted-assign :
    (k : Text) (v : Json) (place : Fields) → IsSorted place → IsSorted (assign k v place)
unfolding assign
IsSorted-assign k v no_fields s = (tt, tt)
IsSorted-assign k v (field l w more) s = elim (Bool-cases (text_eq k l)) [
  | inl e ↦ rw e s
  | inr e ↦ elim (Bool-cases (text_ltb k l)) [
    | inl b ↦ rw (e, b) (IsSorted-front k l w more b s, s)
    | inr b ↦
        rw (e, b)
          (
            AllFields-assign (λ n x. text_ltb l n ≡ true) k v more (text_ltb-apart k l e b) s.0,
            IsSorted-assign k v more s.1,
          )
  ]
]

IsSorted-erase_field : (k : Text) (place : Fields) → IsSorted place → IsSorted (erase_field k place)
unfolding erase_field
IsSorted-erase_field k no_fields s = tt
IsSorted-erase_field k (field l w more) s = elim (Bool-cases (text_eq k l)) [
  | inl e ↦ rw e (IsSorted-erase_field k more s.1)
  | inr e ↦ rw e (
    AllFields-erase_field (λ n x. text_ltb l n ≡ true) k more s.0,
    IsSorted-erase_field k more s.1,
  )
]

AreWritableFields-assign :
    (k : Text) (v : Json) (place : Fields)
    → IsWritable v
    → AreWritableFields place
    → AreWritableFields (assign k v place)
unfolding assign IsWritable
AreWritableFields-assign k v no_fields p h = (p, tt)
AreWritableFields-assign k v (field l w more) p h = elim (Bool-cases (text_eq k l)) [
  | inl e ↦ rw e (p, h.1)
  | inr e ↦ elim (Bool-cases (text_ltb k l)) [
    | inl b ↦ rw (e, b) (p, h)
    | inr b ↦ rw (e, b) (h.0, AreWritableFields-assign k v more p h.1)
  ]
]

AreWritableFields-erase_field :
    (k : Text) (place : Fields) → AreWritableFields place → AreWritableFields (erase_field k place)
unfolding erase_field IsWritable
AreWritableFields-erase_field k no_fields h = tt
AreWritableFields-erase_field k (field l w more) h = elim (Bool-cases (text_eq k l)) [
  | inl e ↦ rw e (AreWritableFields-erase_field k more h.1)
  | inr e ↦ rw e (h.0, AreWritableFields-erase_field k more h.1)
]

pub assign-IsWritable :
    (k : Text) (v : Json) (place : Fields)
    → IsWritable v
    → IsWritableObject place
    → IsWritableObject (assign k v place)
assign-IsWritable k v place w h =
    (IsSorted-assign k v place h.0, AreWritableFields-assign k v place w h.1)

pub erase_field-IsWritable :
    (k : Text) (place : Fields) → IsWritableObject place → IsWritableObject (erase_field k place)
erase_field-IsWritable k place h =
    (IsSorted-erase_field k place h.0, AreWritableFields-erase_field k place h.1)

-- The literals of `assign`.
pub text-IsWritable : (t : Text) → IsWritable (text t)
unfolding IsWritable
text-IsWritable t = tt

pub boolean-IsWritable : (b : Bool) → IsWritable (boolean b)
unfolding IsWritable
boolean-IsWritable b = tt

pub number-IsWritable : (n : ℤ) → IsInt n → IsWritable (number (of_int n))
unfolding IsWritable
number-IsWritable n h = of_int-IsFinite n h

pub object-IsWritable : (place : Fields) → IsWritableObject place → IsWritable (object place)
unfolding IsWritable
object-IsWritable place h = h

pub array-IsWritable : (items : Items) → AreWritable items → IsWritable (array items)
unfolding IsWritable
array-IsWritable items h = h

pub no_fields-IsWritable : IsWritableObject no_fields
unfolding IsWritable
no_fields-IsWritable = (tt, tt)

pub object_or_empty-IsWritable :
    (j : Json) → IsWritable j → IsWritableObject (object_or_empty (some j))
unfolding IsWritable
object_or_empty-IsWritable null w = (tt, tt)
object_or_empty-IsWritable (boolean b) w = (tt, tt)
object_or_empty-IsWritable (number d) w = (tt, tt)
object_or_empty-IsWritable (text t) w = (tt, tt)
object_or_empty-IsWritable (array items) w = (tt, tt)
object_or_empty-IsWritable (object place) w = w

items_or_none-IsWritable : (j : Json) → IsWritable j → AreWritable (items_or_none (some j))
unfolding IsWritable
items_or_none-IsWritable null w = tt
items_or_none-IsWritable (boolean b) w = tt
items_or_none-IsWritable (number d) w = tt
items_or_none-IsWritable (text t) w = tt
items_or_none-IsWritable (array items) w = w
items_or_none-IsWritable (object place) w = tt

pub no_items-IsWritable : AreWritable no_items
unfolding IsWritable
no_items-IsWritable = tt

found-IsWritable :
    (k : Text) (place : Fields) → AreWritableFields place → WhenSome IsWritable (find_field k place)
unfolding find_field IsWritable
found-IsWritable k no_fields h = tt
found-IsWritable k (field l w more) h = elim (Bool-cases (text_eq k l)) [
  | inl e ↦ rw e h.0
  | inr e ↦ rw e (found-IsWritable k more h.1)
]

-- What is found in an object that can be written.
pub found_object-IsWritable :
    (k : Text) (place : Fields)
    → IsWritableObject place
    → IsWritableObject (object_or_empty (find_field k place))
found_object-IsWritable k place h = go (find_field k place) (found-IsWritable k place h.1)
  where
    go : (o : Option Json) → WhenSome IsWritable o → IsWritableObject (object_or_empty o)
    go none w = no_fields-IsWritable
    go (some j) w = object_or_empty-IsWritable j w

pub found_items-IsWritable :
    (k : Text) (place : Fields)
    → IsWritableObject place
    → AreWritable (items_or_none (find_field k place))
found_items-IsWritable k place h = go (find_field k place) (found-IsWritable k place h.1)
  where
    go : (o : Option Json) → WhenSome IsWritable o → AreWritable (items_or_none o)
    go none w = no_items-IsWritable
    go (some j) w = items_or_none-IsWritable j w
