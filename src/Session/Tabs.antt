-- ===== src/Session/Tabs.antt =====
-- The fields of a tab in an object, and `decode_tab` on them.
use pane_dock.Common.{
  ◌≡◌, refl, sym, ap, subst, ◌∙◌, false, List, [], ◌∷◌, map, Option, none, some, Text,
  Text-discrete, text_eq, All, Bool-cases, Option-cases, inl, inr,
}
use pane_dock.Ids.{is_empty}
use pane_dock.Model.{TabState, PaneState}
use pane_dock.Json.{
  Json, Items, Fields, boolean, text, object, no_items, item, no_fields, find_field,
}
use pane_dock.Session.Words.{
  id_key, tabs_key, shell_location_key, view_mode_key, sort_column_key, sort_ascending_key,
  columns_key,
}
use pane_dock.Session.Fields.{
  assign, erase_field, get_bool, get_text, get_object, field_as, object_or_empty, items_or_none,
}
use pane_dock.Session.Encode.{
  no_entries, preserved_object, preserved_tab_object, old_tab, encode_shell_location,
  encode_columns, encode_tab, encode_tabs,
}
use pane_dock.Session.Decode.{or_nothing, decode_shell_location, decode_tab, decode_all}
use pane_dock.Session.Lookup.{text_eq-same, find_field-assign, find_field-erase_field}
use pane_dock.Session.Locations.{IsStorableLocation, IsLocationObject}
use pane_dock.Session.Parents.{decode_shell_location-encode}

pub field_as-found :
    {A : Type 0} (get : Json → Option A) (key : Text) (place : Fields) (j : Json)
    → find_field key place ≡ some j
    → field_as get key place ≡ get j
unfolding field_as
field_as-found get key place j e = rw (field_as, e) refl

pub field_as-missing :
    {A : Type 0} (get : Json → Option A) (key : Text) (place : Fields)
    → find_field key place ≡ none
    → field_as get key place ≡ none
unfolding field_as
field_as-missing get key place e = rw (field_as, e) refl

-- Every object of an array; what is no object counts as an empty one.
abbrev pub AllObjects : (Fields → Type 0) → Items → Type 0
AllObjects P no_items = Unit
AllObjects P (item j items) = P (object_or_empty (some j)) × AllObjects P items

-- Objects that a tab and a pane may be written over.
abbrev pub IsTabObject : Fields → Type 0
IsTabObject old = IsLocationObject (object_or_empty (find_field shell_location_key old))

abbrev pub IsPaneObject : Fields → Type 0
IsPaneObject old = AllObjects IsTabObject (items_or_none (find_field tabs_key old))

pub preserved_object-All :
    (P : Fields → Type 0) (key : Text) (items : Items) (id : Text)
    → P no_fields
    → AllObjects P items
    → P (preserved_object key items id)
unfolding preserved_object field_as
preserved_object-All P key no_items id z h = z
preserved_object-All P key (item (object place) items) id z h =
    elim (Option-cases (field_as get_text key place)) [
      | inl e ↦ rw (preserved_object, e) (preserved_object-All P key items id z h.1)
      | inr (t, e) ↦
          rw (preserved_object, e)
            (elim (Bool-cases (text_eq t id)) [
              | inl same ↦ rw same h.0
              | inr other ↦ rw other (preserved_object-All P key items id z h.1)
            ])
    ]
preserved_object-All P key (item _ items) id z h = preserved_object-All P key items id z h.1

preserved_tab_object-IsTabObject :
    (panes : Items) (id : Text)
    → AllObjects IsPaneObject panes
    → IsTabObject (preserved_tab_object panes id)
unfolding preserved_tab_object
preserved_tab_object-IsTabObject no_items id h = unfold find_field in inl refl
preserved_tab_object-IsTabObject (item j panes) id h =
    let tabs = items_or_none (find_field tabs_key (object_or_empty (some j))) in
    elim (Bool-cases (no_entries (preserved_object id_key tabs id))) [
      | inl e ↦ rw e (preserved_tab_object-IsTabObject panes id h.1)
      | inr e ↦
          rw e (preserved_object-All IsTabObject id_key tabs id (unfold find_field in inl refl) h.0)
    ]

old_tab-IsTabObject :
    (panes tabs : Items) (id : Text)
    → AllObjects IsPaneObject panes
    → AllObjects IsTabObject tabs
    → IsTabObject (old_tab panes tabs id)
unfolding old_tab
old_tab-IsTabObject panes tabs id p t =
    elim (Bool-cases (no_entries (preserved_object id_key tabs id))) [
      | inl e ↦ rw e (preserved_tab_object-IsTabObject panes id p)
      | inr e ↦
          rw e (preserved_object-All IsTabObject id_key tabs id (unfold find_field in inl refl) t)
    ]

-- A tab as it is read again: its history is not in the file.
abbrev pub without_history : TabState → TabState
without_history t = record t { history = []; history_index = 0 }

-- The fields of a tab, found in an object.
record HasTab (place : Fields) (t : TabState) (location : Fields) : Type 0 where
  id : find_field id_key place ≡ some (text t.id)
  location_object : find_field shell_location_key place ≡ some (object location)
  view_mode : find_field view_mode_key place ≡ some (text t.view_mode)
  sort_column : find_field sort_column_key place ≡ some (text t.sort_column)
  sort_ascending : find_field sort_ascending_key place ≡ some (boolean t.sort_ascending)
  columns : or_nothing (field_as get_text columns_key place) ≡ t.columns

decode_tab-HasTab :
    (place : Fields) (t : TabState) (location : Fields)
    → HasTab place t location
    → decode_shell_location location ≡ some t.location
    → decode_tab place ≡ some (without_history t)
unfolding decode_tab
decode_tab-HasTab place t location h e =
    rw
      (
        decode_tab,
        field_as-found get_text id_key place (text t.id) h.id,
        field_as-found get_object shell_location_key place (object location) h.location_object,
        field_as-found get_text view_mode_key place (text t.view_mode) h.view_mode,
        field_as-found get_text sort_column_key place (text t.sort_column) h.sort_column,
        field_as-found get_bool sort_ascending_key place (boolean t.sort_ascending)
            h.sort_ascending,
        e,
        h.columns,
      )
      refl

-- The columns' field does not stand in another's way.
find_field-encode_columns :
    (j : Text) (columns : Text) (place : Fields)
    → text_eq j columns_key ≡ false
    → find_field j (encode_columns columns place) ≡ find_field j place
unfolding encode_columns
find_field-encode_columns j columns place h = elim (Bool-cases (is_empty columns)) [
  | inl e ↦ rw e (find_field-erase_field j columns_key place ∙ rw h refl)
  | inr e ↦ rw e (find_field-assign j columns_key (text columns) place ∙ rw h refl)
]

encode_columns_lem :
    (columns : Text) (place : Fields)
    → or_nothing (field_as get_text columns_key (encode_columns columns place)) ≡ columns
unfolding encode_columns
encode_columns_lem [] place = ap or_nothing (
    field_as-missing get_text columns_key (erase_field columns_key place)
      (find_field-erase_field columns_key columns_key place ∙ rw (text_eq-same columns_key) refl))
encode_columns_lem (c ∷ columns) place =
    let written = text (c ∷ columns) in
    ap or_nothing (
      field_as-found get_text columns_key (assign columns_key written place) written (
        find_field-assign columns_key columns_key written place
        ∙ rw (text_eq-same columns_key) refl))

-- What a tab's fields are but for the columns.
abbrev tab_fields : Fields → TabState → Fields
tab_fields old t =
    let named = assign id_key (text t.id) old in
    let location =
      encode_shell_location (object_or_empty (find_field shell_location_key named)) t.location in
    assign sort_ascending_key (boolean t.sort_ascending) (
      assign sort_column_key (text t.sort_column) (
        assign view_mode_key (text t.view_mode)
          (assign shell_location_key (object location) named)))

encode_tab-fields :
    (old : Fields) (t : TabState) → encode_tab old t ≡ encode_columns t.columns (tab_fields old t)
unfolding encode_tab
encode_tab-fields old t = refl

encode_tab-HasTab :
    (old : Fields) (t : TabState)
    → HasTab (encode_tab old t) t (
        encode_shell_location
          (object_or_empty (find_field shell_location_key (assign id_key (text t.id) old)))
          t.location)
unfolding Text-discrete
encode_tab-HasTab old t = rw (encode_tab-fields old t) (record {
  id = find_field-encode_columns id_key t.columns (tab_fields old t) refl ∙ simp find_field-assign;
  location_object =
      find_field-encode_columns shell_location_key t.columns (tab_fields old t) refl
      ∙ simp find_field-assign;
  view_mode =
      find_field-encode_columns view_mode_key t.columns (tab_fields old t) refl
      ∙ simp find_field-assign;
  sort_column =
      find_field-encode_columns sort_column_key t.columns (tab_fields old t) refl
      ∙ simp find_field-assign;
  sort_ascending =
      find_field-encode_columns sort_ascending_key t.columns (tab_fields old t) refl
      ∙ simp find_field-assign;
  columns = encode_columns_lem t.columns (tab_fields old t);
})

other_location :
    (old : Fields) (id : Text)
    → find_field shell_location_key (assign id_key (text id) old)
      ≡ find_field shell_location_key old
unfolding Text-discrete
other_location old id = simp find_field-assign

decode_tab-encode :
    (old : Fields) (t : TabState)
    → IsStorableLocation t.location
    → IsTabObject old
    → decode_tab (encode_tab old t) ≡ some (without_history t)
decode_tab-encode old t s o =
    let before = object_or_empty (find_field shell_location_key (assign id_key (text t.id) old)) in
    decode_tab-HasTab (encode_tab old t) t (encode_shell_location before t.location)
      (encode_tab-HasTab old t)
      (decode_shell_location-encode before t.location s
        (subst (λ f. IsLocationObject (object_or_empty f)) (sym (other_location old t.id)) o))

pub decode_all-item :
    {A : Type 0} (decode_one : Fields → Option A) (place : Fields) (items : Items) (x : A)
    (xs : List A)
    → decode_one place ≡ some x
    → decode_all decode_one items ≡ some xs
    → decode_all decode_one (item (object place) items) ≡ some (x ∷ xs)
unfolding decode_all
decode_all-item decode_one place items x xs e f = rw (e, f) refl

pub decode_all-none :
    {A : Type 0} (decode_one : Fields → Option A) → decode_all decode_one no_items ≡ some []
unfolding decode_all
decode_all-none decode_one = refl

abbrev pub IsStorableTab : TabState → Type 0
IsStorableTab t = IsStorableLocation t.location

pub decode_all-encode_tabs :
    (panes tabs : Items) (ts : List TabState)
    → AllObjects IsPaneObject panes
    → AllObjects IsTabObject tabs
    → All IsStorableTab ts
    → decode_all decode_tab (encode_tabs panes tabs ts) ≡ some (map without_history ts)
unfolding encode_tabs
decode_all-encode_tabs panes tabs [] p o s = decode_all-none decode_tab
decode_all-encode_tabs panes tabs (t ∷ ts) p o s =
    let old = old_tab panes tabs t.id in
    decode_all-item decode_tab (encode_tab old t) (encode_tabs panes tabs ts) (without_history t)
      (map without_history ts)
      (decode_tab-encode old t s.0 (old_tab-IsTabObject panes tabs t.id p o))
      (decode_all-encode_tabs panes tabs ts p o s.1)

abbrev pub pane_without_history : PaneState → PaneState
pane_without_history p = record p { tabs = map without_history p.tabs }

abbrev pub IsStorablePane : PaneState → Type 0
IsStorablePane p = All IsStorableTab p.tabs
