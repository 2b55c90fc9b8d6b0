-- ===== src/Session/Dumpable.antt =====
-- The tabs, panes, groups and the state that `encode` builds, as values that can be written.
use pane_dock.Common.{Bool, List, [], ◌∷◌, some, All, arith}
use pane_dock.Common.Int.{pos}
use pane_dock.Model.{
  ShellLocation, Double, TabState, PaneState, GroupState, WindowPlacement, ApplicationState,
}
use pane_dock.Unicode.{utf8}
use pane_dock.Json.{Json, Items, Fields, boolean, number, text, array, object, find_field}
use pane_dock.Json.Parse.Kept.{IsWritableObject}
use pane_dock.Json.Parse.Steps.{IsFinite, IsWritable, AreWritable}
use pane_dock.Session.Words.{
  schema_version_key, active_group_id_key, groups_key, id_key, name_key, layout_template_key,
  divider_ratios_key, panes_key, active_tab_id_key, tabs_key, shell_location_key,
  pinned_locations_key, clean_shutdown_key, window_placement_key, sidebar_width_key,
  list_font_points_key, parsing_name_key,
}
use pane_dock.Session.Fields.{assign, of_int, object_or_empty, items_or_none}
use pane_dock.Session.Encode.{
  preserved_object, encode_shell_location, layout_word, old_tab, encode_tab, encode_tabs,
  encode_pane, encode_panes, encode_ratios, encode_group, encode_groups, encode_pinned,
  encode_placement, encode,
}
use pane_dock.Session.Lookup.{IsInt}
use pane_dock.Session.Writable.{
  no_items-IsWritable, object-IsWritable, object_or_empty-IsWritable, found_object-IsWritable,
  found_items-IsWritable,
}
use pane_dock.Session.Written.{
  item-AreWritable, preserved_object-IsWritable, old_tab-IsWritable, assign_text-IsWritable,
  assign_flag-IsWritable, assign_object-IsWritable, assign_array-IsWritable, assign_int-IsWritable,
  encode_shell_location-IsWritable, encode_columns-IsWritable,
}

encode_tab-IsWritable :
    (old : Fields) (t : TabState) → IsWritableObject old → IsWritableObject (encode_tab old t)
unfolding encode_tab
encode_tab-IsWritable old t h =
    let named = assign_text-IsWritable id_key t.id old h in
    let before = object_or_empty (find_field shell_location_key (assign id_key (text t.id) old)) in
    let location =
      encode_shell_location-IsWritable before t.location
        (found_object-IsWritable shell_location_key (assign id_key (text t.id) old) named) in
    search (
      encode_columns-IsWritable, assign_text-IsWritable, assign_flag-IsWritable,
      assign_object-IsWritable,
    )

encode_tabs-IsWritable :
    (panes tabs : Items) (ts : List TabState)
    → AreWritable panes
    → AreWritable tabs
    → AreWritable (encode_tabs panes tabs ts)
unfolding encode_tabs
encode_tabs-IsWritable panes tabs [] p h = no_items-IsWritable
encode_tabs-IsWritable panes tabs (t ∷ ts) p h =
    let old = old_tab panes tabs t.id in
    item-AreWritable (object (encode_tab old t)) (encode_tabs panes tabs ts)
      (object-IsWritable (encode_tab old t)
        (encode_tab-IsWritable old t (old_tab-IsWritable panes tabs t.id p h)))
      (encode_tabs-IsWritable panes tabs ts p h)

encode_pane-IsWritable :
    (panes : Items) (old : Fields) (p : PaneState)
    → AreWritable panes
    → IsWritableObject old
    → IsWritableObject (encode_pane panes old p)
unfolding encode_pane
encode_pane-IsWritable panes old p a h =
    let named = assign active_tab_id_key (text p.active_tab_id) (assign id_key (text p.id) old) in
    let w =
      assign_text-IsWritable active_tab_id_key p.active_tab_id (assign id_key (text p.id) old)
        (assign_text-IsWritable id_key p.id old h) in
    let before = items_or_none (find_field tabs_key named) in
    assign_array-IsWritable tabs_key (encode_tabs panes before p.tabs) named
      (encode_tabs-IsWritable panes before p.tabs a (found_items-IsWritable tabs_key named w)) w

encode_panes-IsWritable :
    (panes : Items) (ps : List PaneState) → AreWritable panes → AreWritable (encode_panes panes ps)
unfolding encode_panes
encode_panes-IsWritable panes [] a = no_items-IsWritable
encode_panes-IsWritable panes (p ∷ ps) a =
    let old = preserved_object id_key panes p.id in
    item-AreWritable (object (encode_pane panes old p)) (encode_panes panes ps)
      (object-IsWritable (encode_pane panes old p)
        (encode_pane-IsWritable panes old p a (preserved_object-IsWritable id_key panes p.id a)))
      (encode_panes-IsWritable panes ps a)

encode_ratios-IsWritable : (rs : List Double) → All IsFinite rs → AreWritable (encode_ratios rs)
unfolding encode_ratios IsWritable
encode_ratios-IsWritable [] a = tt
encode_ratios-IsWritable (r ∷ rs) a = (a.0, encode_ratios-IsWritable rs a.1)

-- A group with ratios that the format has words for.
abbrev pub HasFiniteRatios : GroupState → Type 0
HasFiniteRatios g = All IsFinite g.divider_ratios

encode_group-IsWritable :
    (old : Fields) (g : GroupState)
    → HasFiniteRatios g
    → IsWritableObject old
    → IsWritableObject (encode_group old g)
unfolding encode_group
encode_group-IsWritable old g r h =
    let named = assign divider_ratios_key (array (encode_ratios g.divider_ratios)) (
      assign layout_template_key (text (layout_word g.layout_template))
        (assign name_key (text (utf8 g.name)) (assign id_key (text g.id) old))) in
    let ratios = encode_ratios-IsWritable g.divider_ratios r in
    let w : IsWritableObject named = search (assign_text-IsWritable, assign_array-IsWritable) in
    let panes =
      encode_panes-IsWritable (items_or_none (find_field panes_key named)) g.panes
        (found_items-IsWritable panes_key named w) in
    search (assign_text-IsWritable, assign_array-IsWritable)

encode_groups-IsWritable :
    (old : Items) (gs : List GroupState)
    → All HasFiniteRatios gs
    → AreWritable old
    → AreWritable (encode_groups old gs)
unfolding encode_groups
encode_groups-IsWritable old [] r a = no_items-IsWritable
encode_groups-IsWritable old (g ∷ gs) r a =
    let before = preserved_object id_key old g.id in
    item-AreWritable (object (encode_group before g)) (encode_groups old gs)
      (object-IsWritable (encode_group before g)
        (encode_group-IsWritable before g r.0 (preserved_object-IsWritable id_key old g.id a)))
      (encode_groups-IsWritable old gs r.1 a)

encode_pinned-IsWritable :
    (old : Items) (ls : List ShellLocation) → AreWritable old → AreWritable (encode_pinned old ls)
unfolding encode_pinned
encode_pinned-IsWritable old [] a = no_items-IsWritable
encode_pinned-IsWritable old (l ∷ ls) a =
    let before = preserved_object parsing_name_key old (utf8 l.parsing_name) in
    item-AreWritable (object (encode_shell_location before l)) (encode_pinned old ls)
      (object-IsWritable (encode_shell_location before l) (
        encode_shell_location-IsWritable before l
          (preserved_object-IsWritable parsing_name_key old (utf8 l.parsing_name) a)))
      (encode_pinned-IsWritable old ls a)

encode_placement-IsWritable :
    (old : Fields) (w : WindowPlacement)
    → IsInt w.x × IsInt w.y × IsInt w.width × IsInt w.height
    → IsWritableObject old
    → IsWritableObject (encode_placement old w)
unfolding encode_placement
encode_placement-IsWritable old w (i, j, k, l) h =
    search (assign_flag-IsWritable, assign_int-IsWritable)

-- The values that `encode` gives for a state of integers of `int` and finite ratios, over a document that
-- can be written.
pub encode-IsWritable :
    (a : ApplicationState) (root : Json) (clean : Bool)
    → IsInt a.window_placement.x
      × IsInt a.window_placement.y
      × IsInt a.window_placement.width
      × IsInt a.window_placement.height
    → IsInt a.sidebar_width
    → IsInt a.list_font_points
    → All HasFiniteRatios a.groups
    → IsWritable root
    → IsWritable (encode a root clean)
unfolding encode
encode-IsWritable a root clean i s p r w =
    let old = object_or_empty (some root) in
    let one : IsInt (pos 1) = omega arith in
    let named =
      assign active_group_id_key (text a.active_group_id)
        (assign schema_version_key (number (of_int (pos 1))) old) in
    let named_writable : IsWritableObject named =
      assign_text-IsWritable active_group_id_key a.active_group_id
        (assign schema_version_key (number (of_int (pos 1))) old)
        (assign_int-IsWritable schema_version_key (pos 1) old one
          (object_or_empty-IsWritable root w)) in
    let groups = encode_groups (items_or_none (find_field groups_key named)) a.groups in
    let groups_writable =
      encode_groups-IsWritable (items_or_none (find_field groups_key named)) a.groups r
        (found_items-IsWritable groups_key named named_writable) in
    let with_groups = assign groups_key (array groups) named in
    let with_groups_writable =
      assign_array-IsWritable groups_key groups named groups_writable named_writable in
    let pinned =
      encode_pinned (items_or_none (find_field pinned_locations_key with_groups))
        a.pinned_locations in
    let pinned_writable =
      encode_pinned-IsWritable (items_or_none (find_field pinned_locations_key with_groups))
        a.pinned_locations
        (found_items-IsWritable pinned_locations_key with_groups with_groups_writable) in
    let with_pinned =
      assign clean_shutdown_key (boolean clean)
        (assign pinned_locations_key (array pinned) with_groups) in
    let with_pinned_writable : IsWritableObject with_pinned =
      assign_flag-IsWritable clean_shutdown_key clean
        (assign pinned_locations_key (array pinned) with_groups)
        (assign_array-IsWritable pinned_locations_key pinned with_groups pinned_writable
          with_groups_writable) in
    let window =
      encode_placement (object_or_empty (find_field window_placement_key with_pinned))
        a.window_placement in
    let window_writable =
      encode_placement-IsWritable (object_or_empty (find_field window_placement_key with_pinned))
        a.window_placement i
        (found_object-IsWritable window_placement_key with_pinned with_pinned_writable) in
    object-IsWritable
      (assign list_font_points_key (number (of_int a.list_font_points)) (
        assign sidebar_width_key (number (of_int a.sidebar_width))
          (assign window_placement_key (object window) with_pinned)))
      (assign_int-IsWritable list_font_points_key a.list_font_points
        (assign sidebar_width_key (number (of_int a.sidebar_width))
          (assign window_placement_key (object window) with_pinned))
        p
        (assign_int-IsWritable sidebar_width_key a.sidebar_width
          (assign window_placement_key (object window) with_pinned) s
          (assign_object-IsWritable window_placement_key window with_pinned window_writable
            with_pinned_writable)))
