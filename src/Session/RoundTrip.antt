-- ===== src/Session/RoundTrip.antt =====
-- `decode` behind `encode`: the application's state is read back from the values that it was written as.
use pane_dock.Common.{
  ◌≡◌, refl, sym, subst, Bool, true, List, [], map, some, Text-discrete, All, arith,
}
use pane_dock.Common.Int.{ℤ, pos, negsuc}
use pane_dock.Model.{ShellLocation, ApplicationState, is_valid}
use pane_dock.Json.{Json, Items, Fields, boolean, number, text, array, object, find_field}
use pane_dock.Session.Words.{
  schema_version_key, active_group_id_key, groups_key, pinned_locations_key, clean_shutdown_key,
  window_placement_key, sidebar_width_key, list_font_points_key,
}
use pane_dock.Session.Fields.{
  assign, get_bool, get_text, get_array, get_object, object_or_empty, items_or_none, of_int,
}
use pane_dock.Session.Encode.{encode_groups, encode_pinned, encode_placement, encode}
use pane_dock.Session.Decode.{
  decode_shell_location, decode_all, decode_group, decode_placement, decode_pinned,
  valid_list_font_points, decode_sidebar_width, decode_fields, decode, decode_clean_shutdown,
}
use pane_dock.Session.Lookup.{find_field-assign, IsInt}
use pane_dock.Session.Locations.{IsStorableLocation, IsLocationObject, has_field-found}
use pane_dock.Session.Tabs.{field_as-found, AllObjects}
use pane_dock.Session.Groups.{
  IsGroupObject, IsStorableGroup, decode_all-encode_groups, decode_all-encode_pinned,
}
use pane_dock.Session.Placements.{
  IsStorablePlacement, ArePinned, pin_all-ArePinned, integer-found, decode_placement-encode,
}
use pane_dock.Session.Forgotten.{
  group_without_history, state_without_history, state_without_history-valid,
}

-- A state that a file can hold: valid, with names of units, parents that are named, pinned locations that
-- were pinned, integers of the type `int`, and a size of the list's font that there is.
pub record IsStorable (a : ApplicationState) : Type 0 where
  pub valid : is_valid a ≡ true
  pub groups_stored : All IsStorableGroup a.groups
  pub locations_stored : All IsStorableLocation a.pinned_locations
  pub pinned : ArePinned [] a.pinned_locations
  pub placement : IsStorablePlacement a.window_placement
  pub sidebar : IsInt a.sidebar_width
  pub points : valid_list_font_points a.list_font_points ≡ true

-- An object that a state may be written over.
abbrev pub IsRootObject : Fields → Type 0
IsRootObject old =
    AllObjects IsGroupObject (items_or_none (find_field groups_key old))
    × AllObjects IsLocationObject (items_or_none (find_field pinned_locations_key old))

pub points-IsInt : (n : ℤ) → valid_list_font_points n ≡ true → IsInt n
unfolding valid_list_font_points
points-IsInt (pos n) h = ground arith
points-IsInt (negsuc n) h = cc

-- The fields of a state, found in an object.
record HasState (place : Fields) (a : ApplicationState) (groups pinned : Items) (window : Fields)
    (clean : Bool) : Type 0 where
  version : find_field schema_version_key place ≡ some (number (of_int (pos 1)))
  active : find_field active_group_id_key place ≡ some (text a.active_group_id)
  group_items : find_field groups_key place ≡ some (array groups)
  pinned_items : find_field pinned_locations_key place ≡ some (array pinned)
  window_object : find_field window_placement_key place ≡ some (object window)
  sidebar : find_field sidebar_width_key place ≡ some (number (of_int a.sidebar_width))
  points : find_field list_font_points_key place ≡ some (number (of_int a.list_font_points))
  clean_flag : find_field clean_shutdown_key place ≡ some (boolean clean)

decode_sidebar_width-found :
    (place : Fields) (n : ℤ)
    → find_field sidebar_width_key place ≡ some (number (of_int n))
    → IsInt n
    → decode_sidebar_width place ≡ some n
decode_sidebar_width-found place n e h =
    rw (has_field-found sidebar_width_key place (number (of_int n)) e)
      (integer-found sidebar_width_key place n e h)

decode_pinned-found :
    (place : Fields) (items : Items) (ls : List ShellLocation)
    → find_field pinned_locations_key place ≡ some (array items)
    → decode_all decode_shell_location items ≡ some ls
    → decode_pinned (find_field pinned_locations_key place) ≡ some ls
decode_pinned-found place items ls e f = rw e f

decode_fields-HasState :
    (place : Fields) (a : ApplicationState) (groups pinned : Items) (window : Fields) (clean : Bool)
    → HasState place a groups pinned window clean
    → IsStorable a
    → decode_all decode_group groups ≡ some (map group_without_history a.groups)
    → decode_all decode_shell_location pinned ≡ some a.pinned_locations
    → decode_placement window ≡ some a.window_placement
    → decode_fields place ≡ some (state_without_history a)
unfolding decode_fields
decode_fields-HasState place a groups pinned window clean h s g p w =
    rw
      (
        decode_fields,
        integer-found schema_version_key place (pos 1) h.version (omega arith),
        field_as-found get_text active_group_id_key place (text a.active_group_id) h.active,
        field_as-found get_array groups_key place (array groups) h.group_items,
        field_as-found get_object window_placement_key place (object window) h.window_object,
        decode_sidebar_width-found place a.sidebar_width h.sidebar s.sidebar,
        decode_pinned-found place pinned a.pinned_locations h.pinned_items p,
        w,
        g,
        integer-found list_font_points_key place a.list_font_points h.points
            (points-IsInt a.list_font_points s.points),
        s.points,
      )
      (pin_all-ArePinned (record (state_without_history a) { pinned_locations = [] })
        a.pinned_locations s.pinned)

-- The objects that `encode` passes through.
module _ (a : ApplicationState) (old : Fields) (clean : Bool) where
  abbrev named : Fields
  named =
      assign active_group_id_key (text a.active_group_id)
        (assign schema_version_key (number (of_int (pos 1))) old)

  abbrev encoded_groups : Items
  encoded_groups = encode_groups (items_or_none (find_field groups_key named)) a.groups

  abbrev with_groups : Fields
  with_groups = assign groups_key (array encoded_groups) named

  abbrev encoded_pinned : Items
  encoded_pinned =
      encode_pinned (items_or_none (find_field pinned_locations_key with_groups)) a.pinned_locations

  abbrev with_pinned : Fields
  with_pinned =
      assign clean_shutdown_key (boolean clean)
        (assign pinned_locations_key (array encoded_pinned) with_groups)

  abbrev encoded_window : Fields
  encoded_window =
      encode_placement (object_or_empty (find_field window_placement_key with_pinned))
        a.window_placement

  abbrev pub encoded_state : Fields
  encoded_state = assign list_font_points_key (number (of_int a.list_font_points)) (
      assign sidebar_width_key (number (of_int a.sidebar_width))
        (assign window_placement_key (object encoded_window) with_pinned))

  encoded_state-HasState :
      HasState encoded_state a encoded_groups encoded_pinned encoded_window clean
  unfolding Text-discrete
  encoded_state-HasState = record {
    version = simp find_field-assign;
    active = simp find_field-assign;
    group_items = simp find_field-assign;
    pinned_items = simp find_field-assign;
    window_object = simp find_field-assign;
    sidebar = simp find_field-assign;
    points = simp find_field-assign;
    clean_flag = simp find_field-assign;
  }

  old_groups : find_field groups_key named ≡ find_field groups_key old
  unfolding Text-discrete
  old_groups = simp find_field-assign

  old_pinned : find_field pinned_locations_key with_groups ≡ find_field pinned_locations_key old
  unfolding Text-discrete
  old_pinned = simp find_field-assign

  decode_fields-encoded :
      IsStorable a → IsRootObject old → decode_fields encoded_state ≡ some (state_without_history a)
  decode_fields-encoded s o =
      decode_fields-HasState encoded_state a encoded_groups encoded_pinned encoded_window clean
        encoded_state-HasState s
        (decode_all-encode_groups (items_or_none (find_field groups_key named)) a.groups
          (subst (λ f. AllObjects IsGroupObject (items_or_none f)) (sym old_groups) o.0)
          s.groups_stored)
        (decode_all-encode_pinned (items_or_none (find_field pinned_locations_key with_groups))
          a.pinned_locations
          (subst (λ f. AllObjects IsLocationObject (items_or_none f)) (sym old_pinned) o.1)
          s.locations_stored)
        (decode_placement-encode (object_or_empty (find_field window_placement_key with_pinned))
          a.window_placement s.placement)

pub encode-object :
    (a : ApplicationState) (root : Json) (clean : Bool)
    → encode a root clean ≡ object (encoded_state a (object_or_empty (some root)) clean)
unfolding encode
encode-object a root clean = refl

decode-object :
    (place : Fields) (a : ApplicationState)
    → decode_fields place ≡ some a
    → is_valid a ≡ true
    → decode (object place) ≡ some a
unfolding decode
decode-object place a e v = rw (decode, e) (rw v refl)

-- A state that a file can hold, encoded over any document that `decode` could have read, or over none, is
-- decoded as it was, without the histories of its tabs, and with the flag of a clean shutdown.
pub decode-encode :
    (a : ApplicationState) (root : Json) (clean : Bool)
    → IsStorable a
    → IsRootObject (object_or_empty (some root))
    → (decode (encode a root clean) ≡ some (state_without_history a))
      × (decode_clean_shutdown (encode a root clean) ≡ clean)
unfolding decode_clean_shutdown
decode-encode a root clean s o =
    let old = object_or_empty (some root) in
    let place = encoded_state a old clean in
    rw (encode-object a root clean) (
      decode-object place (state_without_history a) (decode_fields-encoded a old clean s o)
          (state_without_history-valid a s.valid),
      rw
          (
            decode_clean_shutdown,
            field_as-found get_bool clean_shutdown_key place (boolean clean)
                (encoded_state-HasState a old clean).clean_flag,
          )
          refl,
    )
