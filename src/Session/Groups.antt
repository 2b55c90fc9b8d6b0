-- ===== src/Session/Groups.antt =====
-- The fields of a group in an object, and `decode_group` on them.
use pane_dock.Common.{◌≡◌, refl, sym, subst, List, [], ◌∷◌, map, some, Text-discrete, All, inl}
use pane_dock.Model.{
  ShellLocation, LayoutTemplate, single, left_right, top_bottom, three_pane, four_pane_grid,
  two_over_one, one_over_two, two_beside_one, Double, PaneState, GroupState,
}
use pane_dock.Unicode.{utf8}
use pane_dock.Json.{Items, Fields, text, array, find_field}
use pane_dock.Session.Words.{
  id_key, name_key, layout_template_key, divider_ratios_key, panes_key, active_pane_id_key,
  parsing_name_key,
}
use pane_dock.Session.Fields.{assign, get_text, get_array, items_or_none}
use pane_dock.Session.Encode.{
  preserved_object, layout_word, encode_shell_location, encode_panes, encode_ratios, encode_group,
  encode_groups, encode_pinned,
}
use pane_dock.Session.Decode.{
  layout_of, decode_shell_location, decode_all, decode_pane, decode_ratios, decode_group,
}
use pane_dock.Session.Lookup.{find_field-assign}
use pane_dock.Session.Locations.{IsName, IsStorableLocation, IsLocationObject, field_name-utf8}
use pane_dock.Session.Parents.{decode_shell_location-encode}
use pane_dock.Session.Tabs.{
  field_as-found, AllObjects, IsPaneObject, preserved_object-All, decode_all-item, decode_all-none,
  IsStorablePane, pane_without_history,
}
use pane_dock.Session.Panes.{decode_all-encode_panes}
use pane_dock.Session.Forgotten.{group_without_history}

layout_of-layout_word : (l : LayoutTemplate) → layout_of (layout_word l) ≡ some l
unfolding layout_of layout_word Text-discrete
layout_of-layout_word single = refl
layout_of-layout_word left_right = refl
layout_of-layout_word top_bottom = refl
layout_of-layout_word three_pane = refl
layout_of-layout_word two_over_one = refl
layout_of-layout_word one_over_two = refl
layout_of-layout_word two_beside_one = refl
layout_of-layout_word four_pane_grid = refl

decode_ratios-encode_ratios : (rs : List Double) → decode_ratios (encode_ratios rs) ≡ some rs
unfolding decode_ratios encode_ratios
decode_ratios-encode_ratios [] = refl
decode_ratios-encode_ratios (r ∷ rs) = rw (decode_ratios-encode_ratios rs) refl

-- The fields of a group, found in an object.
record HasGroup (place : Fields) (g : GroupState) (panes : Items) : Type 0 where
  id : find_field id_key place ≡ some (text g.id)
  name : find_field name_key place ≡ some (text (utf8 g.name))
  layout : find_field layout_template_key place ≡ some (text (layout_word g.layout_template))
  ratios : find_field divider_ratios_key place ≡ some (array (encode_ratios g.divider_ratios))
  pane_items : find_field panes_key place ≡ some (array panes)
  active : find_field active_pane_id_key place ≡ some (text g.active_pane_id)

decode_group-HasGroup :
    (place : Fields) (g : GroupState) (panes : Items) (ps : List PaneState)
    → HasGroup place g panes
    → IsName g.name
    → decode_all decode_pane panes ≡ some ps
    → decode_group place ≡ some (record g { panes = ps })
unfolding decode_group
decode_group-HasGroup place g panes ps h n e =
    rw
      (
        decode_group,
        field_as-found get_text id_key place (text g.id) h.id,
        field_name-utf8 name_key place g.name h.name n,
        field_as-found get_text layout_template_key place (text (layout_word g.layout_template))
            h.layout,
        layout_of-layout_word g.layout_template,
        field_as-found get_array divider_ratios_key place (array (encode_ratios g.divider_ratios))
            h.ratios,
        field_as-found get_array panes_key place (array panes) h.pane_items,
        field_as-found get_text active_pane_id_key place (text g.active_pane_id) h.active,
        decode_ratios-encode_ratios g.divider_ratios,
        e,
      )
      refl

abbrev group_named : Fields → GroupState → Fields
group_named old g = assign divider_ratios_key (array (encode_ratios g.divider_ratios)) (
    assign layout_template_key (text (layout_word g.layout_template))
      (assign name_key (text (utf8 g.name)) (assign id_key (text g.id) old)))

encode_group-HasGroup :
    (old : Fields) (g : GroupState)
    → HasGroup
        (encode_group old g)
        g
        (encode_panes (items_or_none (find_field panes_key (group_named old g))) g.panes)
unfolding encode_group Text-discrete
encode_group-HasGroup old g = record {
  id = simp find_field-assign;
  name = simp find_field-assign;
  layout = simp find_field-assign;
  ratios = simp find_field-assign;
  pane_items = simp find_field-assign;
  active = simp find_field-assign;
}

other_panes :
    (old : Fields) (g : GroupState)
    → find_field panes_key (group_named old g) ≡ find_field panes_key old
unfolding Text-discrete
other_panes old g = simp find_field-assign

-- An object that a group may be written over, and a group that a file can hold.
abbrev pub IsGroupObject : Fields → Type 0
IsGroupObject old = AllObjects IsPaneObject (items_or_none (find_field panes_key old))

abbrev pub IsStorableGroup : GroupState → Type 0
IsStorableGroup g = IsName g.name × All IsStorablePane g.panes

decode_group-encode :
    (old : Fields) (g : GroupState)
    → IsStorableGroup g
    → IsGroupObject old
    → decode_group (encode_group old g) ≡ some (group_without_history g)
decode_group-encode old g s o =
    let before = items_or_none (find_field panes_key (group_named old g)) in
    decode_group-HasGroup (encode_group old g) g (encode_panes before g.panes)
      (map pane_without_history g.panes) (encode_group-HasGroup old g) s.0
      (decode_all-encode_panes before g.panes
        (subst (λ f. AllObjects IsPaneObject (items_or_none f)) (sym (other_panes old g)) o) s.1)

pub decode_all-encode_groups :
    (old : Items) (gs : List GroupState)
    → AllObjects IsGroupObject old
    → All IsStorableGroup gs
    → decode_all decode_group (encode_groups old gs) ≡ some (map group_without_history gs)
unfolding encode_groups
decode_all-encode_groups old [] a s = decode_all-none decode_group
decode_all-encode_groups old (g ∷ gs) a s =
    let before = preserved_object id_key old g.id in
    decode_all-item decode_group (encode_group before g) (encode_groups old gs)
      (group_without_history g) (map group_without_history gs)
      (decode_group-encode before g s.0
        (preserved_object-All IsGroupObject id_key old g.id (unfold find_field in tt) a))
      (decode_all-encode_groups old gs a s.1)

pub decode_all-encode_pinned :
    (old : Items) (ls : List ShellLocation)
    → AllObjects IsLocationObject old
    → All IsStorableLocation ls
    → decode_all decode_shell_location (encode_pinned old ls) ≡ some ls
unfolding encode_pinned
decode_all-encode_pinned old [] a s = decode_all-none decode_shell_location
decode_all-encode_pinned old (l ∷ ls) a s =
    let before = preserved_object parsing_name_key old (utf8 l.parsing_name) in
    decode_all-item decode_shell_location (encode_shell_location before l) (encode_pinned old ls) l
      ls
      (decode_shell_location-encode before l s.0 (
        preserved_object-All IsLocationObject parsing_name_key old (utf8 l.parsing_name)
          (unfold find_field in inl refl) a))
      (decode_all-encode_pinned old ls a s.1)
