-- ===== src/Session/Decode.antt =====
-- `decode`: the application's state in the values of a session file, and `none` where they hold none.
use pane_dock.Common.{
  Bool, true, false, ◌||◌, List, [], ◌∷◌, Option, none, some, Text, text_eq, any, if◌then◌else◌,
  ◌==◌,
}
use pane_dock.Common.Int.{ℤ, pos, negsuc}
use pane_dock.Ids.{is_empty}
use pane_dock.Model.{
  ShellLocationParent, ShellLocation, LayoutTemplate, single, left_right, top_bottom, three_pane,
  four_pane_grid, two_over_one, one_over_two, two_beside_one, Double, TabState, PaneState,
  GroupState, WindowPlacement, ApplicationState, is_valid,
}
use pane_dock.Groups.{add_pinned_location}
use pane_dock.Unicode.{wide}
use pane_dock.Json.{Json, Items, Fields, no_items, item, find_field}
use pane_dock.Session.Words.{
  schema_version_key, active_group_id_key, groups_key, id_key, name_key, layout_template_key,
  divider_ratios_key, panes_key, active_tab_id_key, tabs_key, shell_location_key, view_mode_key,
  sort_column_key, sort_ascending_key, columns_key, active_pane_id_key, pinned_locations_key,
  clean_shutdown_key, window_placement_key, x_key, y_key, width_key, height_key, maximized_key,
  sidebar_width_key, list_font_points_key, parsing_name_key, known_folder_identity_key,
  fallback_path_key, namespace_location_key, navigation_parent_key, single_word, left_right_word,
  top_bottom_word, three_pane_word, two_over_one_word, one_over_two_word, two_beside_one_word,
  four_pane_grid_word,
}
use pane_dock.Session.Fields.{
  ◌>>=◌, get_bool, get_number, get_text, get_array, get_object, field_as, integer,
}

-- A text that is a name.
unfoldable pub field_name : Text → Fields → Option Text
unfolding field_as
field_name key fields = field_as get_text key fields >>= wide

-- A flag that may be missing, and must then be no other value.
unfoldable pub field_flag : Text → Fields → Option Bool
field_flag key fields = elim (find_field key fields) [ none ↦ some false | some j ↦ get_bool j ]

unfoldable pub has_field : Text → Fields → Bool
has_field key fields = elim (find_field key fields) [ none ↦ false | some j ↦ true ]

unfoldable pub decode_identity : Fields → Option ShellLocationParent
unfolding field_name field_flag
decode_identity fields = do
  parsing ← field_name parsing_name_key fields
  known ← field_name known_folder_identity_key fields
  fallback ← field_name fallback_path_key fields
  flag ← field_flag namespace_location_key fields
  some (record {
    parsing_name = parsing;
    known_folder_identity = known;
    fallback_path = fallback;
    namespace_location = flag;
  })

unfoldable pub has_identity : Fields → Bool
unfolding has_field
has_identity fields =
    has_field parsing_name_key fields
    || has_field known_folder_identity_key fields
    || has_field fallback_path_key fields

-- A parent whose fields are all of a later version's is none.
unfoldable pub decode_known_parent : Fields → Option (Option ShellLocationParent)
unfolding decode_identity
decode_known_parent parent = do
  p ← decode_identity parent
  if is_empty p.parsing_name then none else some (some p)

unfoldable pub decode_parent : Option Json → Option (Option ShellLocationParent)
unfolding field_flag has_identity decode_known_parent
decode_parent none = some none
decode_parent (some j) = do
  parent ← get_object j
  flag ← field_flag namespace_location_key parent
  if has_identity parent then decode_known_parent parent else some none

unfoldable pub decode_shell_location : Fields → Option ShellLocation
unfolding decode_identity decode_parent
decode_shell_location fields = do
  own ← decode_identity fields
  parent ← decode_parent (find_field navigation_parent_key fields)
  some (record {
    parsing_name = own.parsing_name;
    known_folder_identity = own.known_folder_identity;
    fallback_path = own.fallback_path;
    navigation_parent = parent;
    namespace_location = own.namespace_location;
  })

-- `layout`, of a word.
unfoldable pub layout_of : Text → Option LayoutTemplate
layout_of t =
    if text_eq t single_word
    then some single
    else if text_eq t left_right_word
    then some left_right
    else if text_eq t top_bottom_word
    then some top_bottom
    else if text_eq t three_pane_word
    then some three_pane
    else if text_eq t two_over_one_word
    then some two_over_one
    else if text_eq t one_over_two_word
    then some one_over_two
    else if text_eq t two_beside_one_word
    then some two_beside_one
    else if text_eq t four_pane_grid_word
    then some four_pane_grid
    else none

-- A field that may be missing, or hold something else, and is then empty.
abbrev pub or_nothing : Option Text → Text
or_nothing none = []
or_nothing (some t) = t

unfoldable pub decode_tab : Fields → Option TabState
unfolding field_as decode_shell_location
decode_tab fields = do
  id ← field_as get_text id_key fields
  place ← field_as get_object shell_location_key fields
  mode ← field_as get_text view_mode_key fields
  column ← field_as get_text sort_column_key fields
  ascending ← field_as get_bool sort_ascending_key fields
  location ← decode_shell_location place
  some (record {
    id = id;
    location = location;
    view_mode = mode;
    sort_column = column;
    sort_ascending = ascending;
    history = [];
    history_index = 0;
    columns = or_nothing (field_as get_text columns_key fields);
  })

-- The loops over an array of objects: all of them decoded, or none.
unfoldable pub decode_all : {A : Type 0} → (Fields → Option A) → Items → Option (List A)
decode_all decode_one no_items = some []
decode_all decode_one (item j items) = do
  fields ← get_object j
  one ← decode_one fields
  rest ← decode_all decode_one items
  some (one ∷ rest)

unfoldable pub decode_pane : Fields → Option PaneState
unfolding field_as decode_all decode_tab
decode_pane fields = do
  id ← field_as get_text id_key fields
  active ← field_as get_text active_tab_id_key fields
  items ← field_as get_array tabs_key fields
  tabs ← decode_all decode_tab items
  some (record { id = id; tabs = tabs; active_tab_id = active })

unfoldable pub decode_ratios : Items → Option (List Double)
decode_ratios no_items = some []
decode_ratios (item j items) = do r ← get_number j; rest ← decode_ratios items; some (r ∷ rest)

unfoldable pub decode_group : Fields → Option GroupState
unfolding field_as field_name layout_of decode_ratios decode_all decode_pane
decode_group fields = do
  id ← field_as get_text id_key fields
  name ← field_name name_key fields
  word ← field_as get_text layout_template_key fields
  template ← layout_of word
  ratio_items ← field_as get_array divider_ratios_key fields
  pane_items ← field_as get_array panes_key fields
  active ← field_as get_text active_pane_id_key fields
  ratios ← decode_ratios ratio_items
  panes ← decode_all decode_pane pane_items
  some (record {
    id = id;
    name = name;
    layout_template = template;
    divider_ratios = ratios;
    panes = panes;
    active_pane_id = active;
  })

-- The loop over the pinned locations, onto those so far.
unfoldable pub pin_all : ApplicationState → List ShellLocation → Option ApplicationState
unfolding add_pinned_location
pin_all a [] = some a
pin_all a (l ∷ ls) = do more ← add_pinned_location a l; pin_all more ls

abbrev pub decode_pinned : Option Json → Option (List ShellLocation)
decode_pinned none = some []
decode_pinned (some j) = get_array j >>= decode_all decode_shell_location

unfoldable pub valid_list_font_points : ℤ → Bool
valid_list_font_points (pos n) =
    any (λ size. n == size) (0 ∷ 9 ∷ 10 ∷ 11 ∷ 12 ∷ 14 ∷ 16 ∷ 18 ∷ 20 ∷ 24 ∷ [])
valid_list_font_points (negsuc n) = false

-- A bad size is the system's.
abbrev pub points_or_system : Option ℤ → ℤ
points_or_system none = pos 0
points_or_system (some n) = if valid_list_font_points n then n else pos 0

abbrev pub decode_sidebar_width : Fields → Option ℤ
decode_sidebar_width fields =
    if has_field sidebar_width_key fields then integer sidebar_width_key fields else some (pos 194)

unfoldable pub decode_placement : Fields → Option WindowPlacement
unfolding integer field_as
decode_placement fields = do
  x ← integer x_key fields
  y ← integer y_key fields
  width ← integer width_key fields
  height ← integer height_key fields
  maximized ← field_as get_bool maximized_key fields
  some (record { x = x; y = y; width = width; height = height; maximized = maximized })

-- `migrate`: this version only.
abbrev pub migrate : ℤ → Option (Unit {0})
migrate (pos n) = if n == 1 then some tt else none
migrate (negsuc n) = none

unfoldable pub decode_fields : Fields → Option ApplicationState
unfolding integer field_as has_field decode_placement decode_all decode_shell_location decode_group
    pin_all
decode_fields fields = do
  version ← integer schema_version_key fields
  migrated ← migrate version
  active ← field_as get_text active_group_id_key fields
  group_items ← field_as get_array groups_key fields
  place ← field_as get_object window_placement_key fields
  sidebar ← decode_sidebar_width fields
  pinned ← decode_pinned (find_field pinned_locations_key fields)
  placement ← decode_placement place
  groups ← decode_all decode_group group_items
  pin_all
      (record {
        schema_version = 1;
        groups = groups;
        active_group_id = active;
        window_placement = placement;
        sidebar_width = sidebar;
        pinned_locations = [];
        list_font_points = points_or_system (integer list_font_points_key fields);
      })
      pinned

unfoldable pub decode : Json → Option ApplicationState
unfolding decode_fields
decode root = do
  fields ← get_object root
  a ← decode_fields fields
  if is_valid a then some a else none

-- The flag of `deserialize_session`.
unfoldable pub decode_clean_shutdown : Json → Bool
unfolding field_as
decode_clean_shutdown root = elim (get_object root >>= field_as get_bool clean_shutdown_key) [
  | none ↦ true
  | some b ↦ b
]
