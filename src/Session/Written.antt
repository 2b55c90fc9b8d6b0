-- ===== src/Session/Written.antt =====
-- The locations that `encode` builds, and the values that it assigns, as values that can be written.
use pane_dock.Common.{
  ◌≡◌, ap, subst, Bool, Option, none, some, Text, text_eq, Bool-cases, Option-cases, inl, inr,
}
use pane_dock.Ids.{is_empty}
use pane_dock.Common.Int.{ℤ}
use pane_dock.Model.{ShellLocationParent, ShellLocation}
use pane_dock.Json.{
  Json, Items, Fields, null, boolean, number, text, array, object, no_items, item, find_field,
}
use pane_dock.Json.Parse.Kept.{IsWritableObject}
use pane_dock.Json.Parse.Steps.{IsWritable, AreWritable}
use pane_dock.Session.Words.{id_key, tabs_key, columns_key, navigation_parent_key}
use pane_dock.Session.Fields.{
  ◌>>=◌, assign, get_text, get_object, field_as, of_int, object_or_empty, items_or_none,
}
use pane_dock.Session.Encode.{
  preserved_object, no_entries, preserved_tab_object, identity, encode_location_identity,
  without_identity, encode_shell_location, encode_columns, old_tab,
}
use pane_dock.Session.Lookup.{IsInt}
use pane_dock.Session.Writable.{
  assign-IsWritable, erase_field-IsWritable, text-IsWritable, boolean-IsWritable, number-IsWritable,
  object-IsWritable, array-IsWritable, object_or_empty-IsWritable, found_object-IsWritable,
  found_items-IsWritable,
}

pub item-AreWritable :
    (j : Json) (items : Items) → IsWritable j → AreWritable items → AreWritable (item j items)
unfolding IsWritable
item-AreWritable j items w h = (w, h)

pub preserved_object-IsWritable :
    (key : Text) (items : Items) (id : Text)
    → AreWritable items
    → IsWritableObject (preserved_object key items id)
unfolding preserved_object IsWritable
preserved_object-IsWritable key no_items id h = (tt, tt)
preserved_object-IsWritable key (item (object place) items) id h =
    elim (Option-cases (field_as get_text key place)) [
      | inl e ↦ rw (preserved_object, e) (preserved_object-IsWritable key items id h.1)
      | inr (t, e) ↦
          rw (preserved_object, e)
            (elim (Bool-cases (text_eq t id)) [
              | inl same ↦ rw same h.0
              | inr other ↦ rw other (preserved_object-IsWritable key items id h.1)
            ])
    ]
preserved_object-IsWritable key (item null items) id h =
    preserved_object-IsWritable key items id h.1
preserved_object-IsWritable key (item (boolean b) items) id h =
    preserved_object-IsWritable key items id h.1
preserved_object-IsWritable key (item (number d) items) id h =
    preserved_object-IsWritable key items id h.1
preserved_object-IsWritable key (item (text t) items) id h =
    preserved_object-IsWritable key items id h.1
preserved_object-IsWritable key (item (array more) items) id h =
    preserved_object-IsWritable key items id h.1

preserved_tab_object-IsWritable :
    (panes : Items) (id : Text)
    → AreWritable panes
    → IsWritableObject (preserved_tab_object panes id)
unfolding preserved_tab_object IsWritable
preserved_tab_object-IsWritable no_items id h = (tt, tt)
preserved_tab_object-IsWritable (item j panes) id h =
    let tabs = items_or_none (find_field tabs_key (object_or_empty (some j))) in
    elim (Bool-cases (no_entries (preserved_object id_key tabs id))) [
      | inl e ↦ rw e (preserved_tab_object-IsWritable panes id h.1)
      | inr e ↦ rw e (
          preserved_object-IsWritable id_key tabs id (
            found_items-IsWritable tabs_key (object_or_empty (some j))
              (object_or_empty-IsWritable j h.0)))
    ]

pub old_tab-IsWritable :
    (panes tabs : Items) (id : Text)
    → AreWritable panes
    → AreWritable tabs
    → IsWritableObject (old_tab panes tabs id)
unfolding old_tab
old_tab-IsWritable panes tabs id p t =
    elim (Bool-cases (no_entries (preserved_object id_key tabs id))) [
      | inl e ↦ rw e (preserved_tab_object-IsWritable panes id p)
      | inr e ↦ rw e (preserved_object-IsWritable id_key tabs id t)
    ]

-- A write of a text and of a flag.
pub assign_text-IsWritable :
    (k t : Text) (place : Fields)
    → IsWritableObject place
    → IsWritableObject (assign k (text t) place)
assign_text-IsWritable k t place h = assign-IsWritable k (text t) place (text-IsWritable t) h

pub assign_flag-IsWritable :
    (k : Text) (b : Bool) (place : Fields)
    → IsWritableObject place
    → IsWritableObject (assign k (boolean b) place)
assign_flag-IsWritable k b place h = assign-IsWritable k (boolean b) place (boolean-IsWritable b) h

pub assign_object-IsWritable :
    (k : Text) (inner place : Fields)
    → IsWritableObject inner
    → IsWritableObject place
    → IsWritableObject (assign k (object inner) place)
assign_object-IsWritable k inner place w h =
    assign-IsWritable k (object inner) place (object-IsWritable inner w) h

pub assign_array-IsWritable :
    (k : Text) (items : Items) (place : Fields)
    → AreWritable items
    → IsWritableObject place
    → IsWritableObject (assign k (array items) place)
assign_array-IsWritable k items place w h =
    assign-IsWritable k (array items) place (array-IsWritable items w) h

pub assign_int-IsWritable :
    (k : Text) (n : ℤ) (place : Fields)
    → IsInt n
    → IsWritableObject place
    → IsWritableObject (assign k (number (of_int n)) place)
assign_int-IsWritable k n place i h =
    assign-IsWritable k (number (of_int n)) place (number-IsWritable n i) h

encode_location_identity-IsWritable :
    (old : Fields) (p : ShellLocationParent)
    → IsWritableObject old
    → IsWritableObject (encode_location_identity old p)
unfolding encode_location_identity
encode_location_identity-IsWritable old p h =
    search (assign_text-IsWritable, assign_flag-IsWritable)

without_identity-IsWritable :
    (old : Fields) → IsWritableObject old → IsWritableObject (without_identity old)
unfolding without_identity
without_identity-IsWritable old h = search (erase_field-IsWritable)

-- The object of a location's parent, from what is found of it.
parent-IsWritable :
    (j : Option Json) (parent : Fields)
    → (j >>= get_object) ≡ some parent
    → IsWritableObject (object_or_empty j)
    → IsWritableObject parent
parent-IsWritable none parent e h = absurd cc
parent-IsWritable (some null) parent e h = absurd cc
parent-IsWritable (some (boolean b)) parent e h = absurd cc
parent-IsWritable (some (number d)) parent e h = absurd cc
parent-IsWritable (some (text t)) parent e h = absurd cc
parent-IsWritable (some (array items)) parent e h = absurd cc
parent-IsWritable (some (object place)) parent e h =
    subst (λ o. IsWritableObject (object_or_empty o)) (ap (λ o. o >>= λ f. some (object f)) e) h

pub encode_shell_location-IsWritable :
    (old : Fields) (l : ShellLocation)
    → IsWritableObject old
    → IsWritableObject (encode_shell_location old l)
unfolding encode_shell_location
encode_shell_location-IsWritable old l h =
    let encoded = encode_location_identity old (identity l) in
    let w = encode_location_identity-IsWritable old (identity l) h in
    let found = found_object-IsWritable navigation_parent_key encoded w in
    elim (Option-cases l.navigation_parent) [
      | inr (p, e) ↦
          let inner = object_or_empty (find_field navigation_parent_key encoded) in
          rw (encode_shell_location, e)
            (assign_object-IsWritable navigation_parent_key (encode_location_identity inner p)
              encoded (encode_location_identity-IsWritable inner p found) w)
      | inl e ↦ elim (Option-cases (find_field navigation_parent_key encoded >>= get_object)) [
        | inl f ↦ rw (encode_shell_location, e) (rw f w)
        | inr (parent, f) ↦
            let kept =
              without_identity-IsWritable parent
                (parent-IsWritable (find_field navigation_parent_key encoded) parent f found) in
            rw (encode_shell_location, e)
              (rw f (elim (Bool-cases (no_entries (without_identity parent))) [
                | inl b ↦ rw b (erase_field-IsWritable navigation_parent_key encoded w)
                | inr b ↦ rw b (
                    assign_object-IsWritable navigation_parent_key (without_identity parent) encoded
                      kept w)
              ]))
      ]
    ]

pub encode_columns-IsWritable :
    (columns : Text) (place : Fields)
    → IsWritableObject place
    → IsWritableObject (encode_columns columns place)
unfolding encode_columns
encode_columns-IsWritable columns place h = elim (Bool-cases (is_empty columns)) [
  | inl e ↦ rw e (erase_field-IsWritable columns_key place h)
  | inr e ↦ rw e (assign_text-IsWritable columns_key columns place h)
]
