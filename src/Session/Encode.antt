-- ===== src/Session/Encode.antt =====
-- `encode`, and what it looks up in the document that was read.
use pane_dock.Common.{Bool, true, false, List, [], ◌∷◌, none, some, Text, text_eq, if◌then◌else◌}
use pane_dock.Common.Int.{pos}
use pane_dock.Ids.{is_empty}
use pane_dock.Model.{
  ShellLocationParent, ShellLocation, LayoutTemplate, single, left_right, top_bottom, three_pane,
  four_pane_grid, two_over_one, one_over_two, two_beside_one, Double, TabState, PaneState,
  GroupState, WindowPlacement, ApplicationState,
}
use pane_dock.Unicode.{utf8}
use pane_dock.Json.{
  Json, Items, Fields, boolean, number, text, array, object, no_items, item, no_fields, field,
  find_field,
}
use pane_dock.Session.Words.{
  schema_version_key, active_group_id_key, groups_key, id_key, name_key, layout_template_key,
  divider_ratios_key, panes_key, active_tab_id_key, tabs_key, shell_location_key, view_mode_key,
  sort_column_key, sort_ascending_key, columns_key, active_pane_id_key, pinned_locations_key,
  clean_shutdown_key, window_placement_key, x_key, y_key, width_key, height_key, maximized_key,
  sidebar_width_key, list_font_points_key, parsing_name_key, known_folder_identity_key,
  fallback_path_key, namespace_location_key, navigation_parent_key, single_word, left_right_word,
  top_bottom_word, three_pane_word, two_over_one_word, one_over_two_word, two_beside_one_word,
  four_pane_grid_word,
}
use pane_dock.Session.Fields.{
  ◌>>=◌, assign, erase_field, get_text, get_object, field_as, of_int, object_or_empty,
  items_or_none,
}

-- `preserved_object` and `preserved_location_object`: the first object of an array with a text in a field.
-- An array that is not there has no objects.
unfoldable pub preserved_object : Text → Items → Text → Fields
unfolding field_as
preserved_object key no_items id = no_fields
preserved_object key (item j items) id =
    let rest = preserved_object key items id in
    elim (get_object j) [
      | none ↦ rest
      | some fields ↦ elim (field_as get_text key fields) [
        | none ↦ rest
        | some t ↦ if text_eq t id then fields else rest
      ]
    ]

abbrev pub no_entries : Fields → Bool
no_entries no_fields = true
no_entries (field k v more) = false

-- The object of a tab in any of the panes.
unfoldable pub preserved_tab_object : Items → Text → Fields
unfolding preserved_object
preserved_tab_object no_items id = no_fields
preserved_tab_object (item j items) id =
    let rest = preserved_tab_object items id in
    let here =
      preserved_object id_key (items_or_none (find_field tabs_key (object_or_empty (some j)))) id in
    if no_entries here then rest else here

-- The fields that a location and its parent share.
abbrev pub identity : ShellLocation → ShellLocationParent
identity l = record {
  parsing_name = l.parsing_name;
  known_folder_identity = l.known_folder_identity;
  fallback_path = l.fallback_path;
  namespace_location = l.namespace_location;
}

unfoldable pub encode_location_identity : Fields → ShellLocationParent → Fields
unfolding assign
encode_location_identity encoded l = assign namespace_location_key (boolean l.namespace_location) (
    assign fallback_path_key (text (utf8 l.fallback_path)) (
      assign known_folder_identity_key (text (utf8 l.known_folder_identity))
        (assign parsing_name_key (text (utf8 l.parsing_name)) encoded)))

-- The known fields of a parent, dropped.
unfoldable pub without_identity : Fields → Fields
unfolding erase_field
without_identity parent = erase_field namespace_location_key (
    erase_field fallback_path_key
      (erase_field known_folder_identity_key (erase_field parsing_name_key parent)))

unfoldable pub encode_shell_location : Fields → ShellLocation → Fields
unfolding encode_location_identity without_identity assign erase_field
encode_shell_location old l =
    let encoded = encode_location_identity old (identity l) in
    let old_parent = find_field navigation_parent_key encoded in
    elim l.navigation_parent [
      | some p ↦
          assign navigation_parent_key
            (object (encode_location_identity (object_or_empty old_parent) p)) encoded
      | none ↦ elim (old_parent >>= get_object) [
        | none ↦ encoded
        | some parent ↦
            let kept = without_identity parent in
            if no_entries kept
            then erase_field navigation_parent_key encoded
            else assign navigation_parent_key (object kept) encoded
      ]
    ]

-- `layout`, of a template.
unfoldable pub layout_word : LayoutTemplate → Text
layout_word single = single_word
layout_word left_right = left_right_word
layout_word top_bottom = top_bottom_word
layout_word three_pane = three_pane_word
layout_word two_over_one = two_over_one_word
layout_word one_over_two = one_over_two_word
layout_word two_beside_one = two_beside_one_word
layout_word four_pane_grid = four_pane_grid_word

-- The columns are written only where there are some.
unfoldable pub encode_columns : Text → Fields → Fields
unfolding assign erase_field
encode_columns columns encoded =
    if is_empty columns
    then erase_field columns_key encoded
    else assign columns_key (text columns) encoded

-- The object that a tab is written over.
unfoldable pub old_tab : Items → Items → Text → Fields
unfolding preserved_object preserved_tab_object
old_tab old_panes old_tabs id =
    let here = preserved_object id_key old_tabs id in
    if no_entries here then preserved_tab_object old_panes id else here

unfoldable pub encode_tab : Fields → TabState → Fields
unfolding assign encode_shell_location encode_columns
encode_tab old t =
    let named = assign id_key (text t.id) old in
    let location =
      encode_shell_location (object_or_empty (find_field shell_location_key named)) t.location in
    encode_columns t.columns (
      assign sort_ascending_key (boolean t.sort_ascending) (
        assign sort_column_key (text t.sort_column) (
          assign view_mode_key (text t.view_mode)
            (assign shell_location_key (object location) named))))

unfoldable pub encode_tabs : Items → Items → List TabState → Items
unfolding old_tab encode_tab
encode_tabs old_panes old_tabs [] = no_items
encode_tabs old_panes old_tabs (t ∷ ts) =
    item (object (encode_tab (old_tab old_panes old_tabs t.id) t))
      (encode_tabs old_panes old_tabs ts)

unfoldable pub encode_pane : Items → Fields → PaneState → Fields
unfolding assign encode_tabs
encode_pane old_panes old p =
    let named = assign active_tab_id_key (text p.active_tab_id) (assign id_key (text p.id) old) in
    assign tabs_key
      (array (encode_tabs old_panes (items_or_none (find_field tabs_key named)) p.tabs)) named

unfoldable pub encode_panes : Items → List PaneState → Items
unfolding preserved_object encode_pane
encode_panes old_panes [] = no_items
encode_panes old_panes (p ∷ ps) =
    item (object (encode_pane old_panes (preserved_object id_key old_panes p.id) p))
      (encode_panes old_panes ps)

unfoldable pub encode_ratios : List Double → Items
encode_ratios [] = no_items
encode_ratios (r ∷ rs) = item (number r) (encode_ratios rs)

unfoldable pub encode_group : Fields → GroupState → Fields
unfolding assign layout_word encode_ratios encode_panes
encode_group old g =
    let named = assign divider_ratios_key (array (encode_ratios g.divider_ratios)) (
      assign layout_template_key (text (layout_word g.layout_template))
        (assign name_key (text (utf8 g.name)) (assign id_key (text g.id) old))) in
    assign active_pane_id_key (text g.active_pane_id) (
      assign panes_key (array (encode_panes (items_or_none (find_field panes_key named)) g.panes))
        named)

unfoldable pub encode_groups : Items → List GroupState → Items
unfolding preserved_object encode_group
encode_groups old [] = no_items
encode_groups old (g ∷ gs) =
    item (object (encode_group (preserved_object id_key old g.id) g)) (encode_groups old gs)

unfoldable pub encode_pinned : Items → List ShellLocation → Items
unfolding preserved_object encode_shell_location
encode_pinned old [] = no_items
encode_pinned old (l ∷ ls) =
    item
      (object
        (encode_shell_location (preserved_object parsing_name_key old (utf8 l.parsing_name)) l))
      (encode_pinned old ls)

unfoldable pub encode_placement : Fields → WindowPlacement → Fields
unfolding assign of_int
encode_placement old w = assign maximized_key (boolean w.maximized) (
    assign height_key (number (of_int w.height)) (
      assign width_key (number (of_int w.width))
        (assign y_key (number (of_int w.y)) (assign x_key (number (of_int w.x)) old))))

unfoldable pub encode : ApplicationState → Json → Bool → Json
unfolding assign encode_groups encode_pinned encode_placement of_int
encode a root clean =
    let named =
      assign active_group_id_key (text a.active_group_id)
        (assign schema_version_key (number (of_int (pos 1))) (object_or_empty (some root))) in
    let with_groups =
      assign groups_key
        (array (encode_groups (items_or_none (find_field groups_key named)) a.groups)) named in
    let with_pinned = assign clean_shutdown_key (boolean clean) (
      assign pinned_locations_key
        (array (
          encode_pinned (items_or_none (find_field pinned_locations_key with_groups))
            a.pinned_locations))
        with_groups) in
    object (
      assign list_font_points_key (number (of_int a.list_font_points)) (
        assign sidebar_width_key (number (of_int a.sidebar_width)) (
          assign window_placement_key
            (object (
              encode_placement (object_or_empty (find_field window_placement_key with_pinned))
                a.window_placement))
            with_pinned)))
