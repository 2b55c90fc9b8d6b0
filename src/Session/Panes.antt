-- ===== src/Session/Panes.antt =====
-- The fields of a pane in an object, and `decode_pane` on them.
use pane_dock.Common.{◌≡◌, refl, sym, subst, List, [], ◌∷◌, map, some, Text-discrete, All}
use pane_dock.Model.{TabState, PaneState}
use pane_dock.Json.{Items, Fields, text, array, find_field}
use pane_dock.Session.Words.{id_key, active_tab_id_key, tabs_key}
use pane_dock.Session.Fields.{assign, get_text, get_array, items_or_none}
use pane_dock.Session.Encode.{preserved_object, encode_tabs, encode_pane, encode_panes}
use pane_dock.Session.Decode.{decode_tab, decode_all, decode_pane}
use pane_dock.Session.Lookup.{find_field-assign}
use pane_dock.Session.Tabs.{
  field_as-found, AllObjects, IsTabObject, IsPaneObject, preserved_object-All, without_history,
  decode_all-item, decode_all-none, decode_all-encode_tabs, pane_without_history, IsStorablePane,
}

-- The fields of a pane, found in an object.
record HasPane (place : Fields) (p : PaneState) (tabs : Items) : Type 0 where
  id : find_field id_key place ≡ some (text p.id)
  active_tab_id : find_field active_tab_id_key place ≡ some (text p.active_tab_id)
  tab_items : find_field tabs_key place ≡ some (array tabs)

decode_pane-HasPane :
    (place : Fields) (p : PaneState) (tabs : Items) (ts : List TabState)
    → HasPane place p tabs
    → decode_all decode_tab tabs ≡ some ts
    → decode_pane place ≡ some (record p { tabs = ts })
unfolding decode_pane
decode_pane-HasPane place p tabs ts h e =
    rw
      (
        decode_pane,
        field_as-found get_text id_key place (text p.id) h.id,
        field_as-found get_text active_tab_id_key place (text p.active_tab_id) h.active_tab_id,
        field_as-found get_array tabs_key place (array tabs) h.tab_items,
        e,
      )
      refl

abbrev pane_named : Fields → PaneState → Fields
pane_named old p = assign active_tab_id_key (text p.active_tab_id) (assign id_key (text p.id) old)

encode_pane-HasPane :
    (panes : Items) (old : Fields) (p : PaneState)
    → HasPane
        (encode_pane panes old p)
        p
        (encode_tabs panes (items_or_none (find_field tabs_key (pane_named old p))) p.tabs)
unfolding encode_pane Text-discrete
encode_pane-HasPane panes old p = record {
  id = simp find_field-assign;
  active_tab_id = simp find_field-assign;
  tab_items = simp find_field-assign;
}

other_tabs :
    (old : Fields) (p : PaneState)
    → find_field tabs_key (pane_named old p) ≡ find_field tabs_key old
unfolding Text-discrete
other_tabs old p = simp find_field-assign

decode_pane-encode :
    (panes : Items) (old : Fields) (p : PaneState)
    → IsStorablePane p
    → AllObjects IsPaneObject panes
    → IsPaneObject old
    → decode_pane (encode_pane panes old p) ≡ some (pane_without_history p)
decode_pane-encode panes old p s a o =
    let before = items_or_none (find_field tabs_key (pane_named old p)) in
    decode_pane-HasPane (encode_pane panes old p) p (encode_tabs panes before p.tabs)
      (map without_history p.tabs) (encode_pane-HasPane panes old p)
      (decode_all-encode_tabs panes before p.tabs a
        (subst (λ f. AllObjects IsTabObject (items_or_none f)) (sym (other_tabs old p)) o) s)

pub decode_all-encode_panes :
    (panes : Items) (ps : List PaneState)
    → AllObjects IsPaneObject panes
    → All IsStorablePane ps
    → decode_all decode_pane (encode_panes panes ps) ≡ some (map pane_without_history ps)
unfolding encode_panes
decode_all-encode_panes panes [] a s = decode_all-none decode_pane
decode_all-encode_panes panes (p ∷ ps) a s =
    let old = preserved_object id_key panes p.id in
    decode_all-item decode_pane (encode_pane panes old p) (encode_panes panes ps)
      (pane_without_history p) (map pane_without_history ps)
      (decode_pane-encode panes old p s.0 a
        (preserved_object-All IsPaneObject id_key panes p.id (unfold find_field in tt) a))
      (decode_all-encode_panes panes ps a s.1)
