-- ===== src/Session/Ratios.antt =====
-- The ratios of a state that was read are finite, as the parser's numbers are.
use pane_dock.Common.{◌≡◌, sym, subst, List, some, Text, All}
use mathlib.Core.Option.{some_inj}
use pane_dock.Model.{Double, GroupState, ApplicationState, is_valid}
use pane_dock.Json.{
  Json, Items, Fields, null, boolean, number, text, array, object, no_items, item, find_field,
}
use pane_dock.Json.Parse.Steps.{IsFinite, IsWritable, AreWritable}
use pane_dock.Json.Parse.Kept.{IsWritableObject}
use pane_dock.Session.Words.{
  schema_version_key, active_group_id_key, groups_key, id_key, name_key, layout_template_key,
  divider_ratios_key, panes_key, active_pane_id_key, pinned_locations_key, window_placement_key,
}
use pane_dock.Session.Fields.{get_number, get_text, get_array, get_object, field_as, integer}
use pane_dock.Session.Decode.{
  layout_of, decode_all, decode_pane, decode_ratios, decode_group, field_name, decode_pinned,
  decode_sidebar_width, decode_placement, migrate, decode_fields, decode,
}
use pane_dock.Session.Writable.{found_items-IsWritable}
use pane_dock.Session.Dumpable.{HasFiniteRatios}
use pane_dock.Session.Read.{bind-some, get_object-some, field_array}
use pane_dock.Session.Pinned.{pin_all-some, guarded_some}

get_number-IsFinite : (j : Json) (d : Double) → get_number j ≡ some d → IsWritable j → IsFinite d
unfolding IsWritable
get_number-IsFinite (number r) d h w = subst IsFinite (some_inj.0 h) w
get_number-IsFinite null d h w = absurd cc
get_number-IsFinite (boolean b) d h w = absurd cc
get_number-IsFinite (text t) d h w = absurd cc
get_number-IsFinite (array items) d h w = absurd cc
get_number-IsFinite (object place) d h w = absurd cc

get_object-IsWritable :
    (j : Json) (place : Fields) → get_object j ≡ some place → IsWritable j → IsWritableObject place
unfolding IsWritable
get_object-IsWritable j place h w = subst IsWritable (get_object-some j place h) w

field_array-AreWritable :
    (key : Text) (place : Fields) (items : Items)
    → field_as get_array key place ≡ some items
    → IsWritableObject place
    → AreWritable items
field_array-AreWritable key place items h w =
    subst AreWritable (field_array key place items h) (found_items-IsWritable key place w)

decode_ratios-IsFinite :
    (items : Items) (rs : List Double)
    → decode_ratios items ≡ some rs
    → AreWritable items
    → All IsFinite rs
unfolding decode_ratios IsWritable
decode_ratios-IsFinite no_items rs h w = subst (All IsFinite) (some_inj.0 h) tt
decode_ratios-IsFinite (item j items) rs h w =
    let (r, e, h1) = bind-some (get_number j) _ rs h in
    let (rest, f, h2) = bind-some (decode_ratios items) _ rs h1 in
    subst (All IsFinite) (some_inj.0 h2)
      (get_number-IsFinite j r e w.0, decode_ratios-IsFinite items rest f w.1)

decode_group-HasFiniteRatios :
    (place : Fields) (x : GroupState)
    → decode_group place ≡ some x
    → IsWritableObject place
    → HasFiniteRatios x
unfolding decode_group
decode_group-HasFiniteRatios place x h w =
    let (id, e1, h1) = bind-some (field_as get_text id_key place) _ x h in
    let (name, e2, h2) = bind-some (field_name name_key place) _ x h1 in
    let (word, e3, h3) = bind-some (field_as get_text layout_template_key place) _ x h2 in
    let (template, e4, h4) = bind-some (layout_of word) _ x h3 in
    let (ratio_items, e5, h5) = bind-some (field_as get_array divider_ratios_key place) _ x h4 in
    let (pane_items, e6, h6) = bind-some (field_as get_array panes_key place) _ x h5 in
    let (active, e7, h7) = bind-some (field_as get_text active_pane_id_key place) _ x h6 in
    let (ratios, e8, h8) = bind-some (decode_ratios ratio_items) _ x h7 in
    let (panes, e9, h9) = bind-some (decode_all decode_pane pane_items) _ x h8 in
    subst HasFiniteRatios (some_inj.0 h9) (
      decode_ratios-IsFinite ratio_items ratios e8
        (field_array-AreWritable divider_ratios_key place ratio_items e5 w))

decode_groups-HasFiniteRatios :
    (items : Items) (gs : List GroupState)
    → decode_all decode_group items ≡ some gs
    → AreWritable items
    → All HasFiniteRatios gs
unfolding decode_all IsWritable
decode_groups-HasFiniteRatios no_items gs h w = subst (All HasFiniteRatios) (some_inj.0 h) tt
decode_groups-HasFiniteRatios (item j items) gs h w =
    let (place, e, h1) = bind-some (get_object j) _ gs h in
    let (x, g, h2) = bind-some (decode_group place) _ gs h1 in
    let (rest, k, h3) = bind-some (decode_all decode_group items) _ gs h2 in
    subst (All HasFiniteRatios) (some_inj.0 h3) (
      decode_group-HasFiniteRatios place x g (get_object-IsWritable j place e w.0),
      decode_groups-HasFiniteRatios items rest k w.1,
    )

decode_fields-HasFiniteRatios :
    (place : Fields) (a : ApplicationState)
    → decode_fields place ≡ some a
    → IsWritableObject place
    → All HasFiniteRatios a.groups
unfolding decode_fields
decode_fields-HasFiniteRatios place a f w =
    let (version, e1, h1) = bind-some (integer schema_version_key place) _ a f in
    let (migrated, e2, h2) = bind-some (migrate version) _ a h1 in
    let (active, e3, h3) = bind-some (field_as get_text active_group_id_key place) _ a h2 in
    let (group_items, e4, h4) = bind-some (field_as get_array groups_key place) _ a h3 in
    let (window, e5, h5) = bind-some (field_as get_object window_placement_key place) _ a h4 in
    let (sidebar, e6, h6) = bind-some (decode_sidebar_width place) _ a h5 in
    let (pinned, e7, h7) =
      bind-some (decode_pinned (find_field pinned_locations_key place)) _ a h6 in
    let (placement, e8, h8) = bind-some (decode_placement window) _ a h7 in
    let (groups, e9, h9) = bind-some (decode_all decode_group group_items) _ a h8 in
    let (kept, same) = pin_all-some _ a pinned h9 in
    subst (λ x. All HasFiniteRatios x.groups) (sym same)
      (decode_groups-HasFiniteRatios group_items groups e9
        (field_array-AreWritable groups_key place group_items e4 w))

pub decode-HasFiniteRatios :
    (root : Json) (a : ApplicationState)
    → decode root ≡ some a
    → IsWritable root
    → All HasFiniteRatios a.groups
unfolding decode
decode-HasFiniteRatios root a h w =
    let (place, e, h0) = bind-some (get_object root) _ a h in
    let (b, f, g) = bind-some (decode_fields place) _ a h0 in
    let (v, same) = guarded_some (is_valid b) b a g in
    subst (λ x. All HasFiniteRatios x.groups) same
      (decode_fields-HasFiniteRatios place b f (get_object-IsWritable root place e w))
