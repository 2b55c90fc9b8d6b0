-- ===== src/Session/Fresh.antt =====
-- What `decode` reads of tabs, panes and groups.
use pane_dock.Common.{◌≡◌, refl, ap, subst, ◌∙◌, List, [], ◌∷◌, map, some, All}
use mathlib.Core.Option.{some_inj}
use pane_dock.Model.{TabState, PaneState, GroupState}
use pane_dock.Json.{Fields}
use pane_dock.Session.Words.{
  id_key, name_key, layout_template_key, divider_ratios_key, panes_key, active_tab_id_key, tabs_key,
  shell_location_key, view_mode_key, sort_column_key, sort_ascending_key, active_pane_id_key,
}
use pane_dock.Session.Fields.{get_bool, get_text, get_array, get_object, field_as}
use pane_dock.Session.Decode.{
  decode_shell_location, layout_of, decode_tab, decode_all, decode_pane, decode_ratios,
  decode_group, field_name,
}
use pane_dock.Session.Tabs.{without_history, pane_without_history, IsStorableTab, IsStorablePane}
use pane_dock.Session.Forgotten.{group_without_history}
use pane_dock.Session.Groups.{IsStorableGroup}
use pane_dock.Session.Read.{bind-some}
use pane_dock.Session.Storable.{
  decode_all-All, field_name-IsName, decode_shell_location-IsStorableLocation,
}

-- A map that keeps every element.
pub map-same : {A : Type 0} (f : A → A) (xs : List A) → All (λ x. f x ≡ x) xs → map f xs ≡ xs
map-same f [] h = refl
map-same f (x ∷ xs) h = ap (λ y. y ∷ map f xs) h.0 ∙ ap (◌∷◌ x) (map-same f xs h.1)

pub All-first : {A : Type 0} (P Q : A → Type 0) (xs : List A) → All (λ x. P x × Q x) xs → All P xs
All-first P Q [] h = tt
All-first P Q (x ∷ xs) h = (h.0.0, All-first P Q xs h.1)

pub All-second : {A : Type 0} (P Q : A → Type 0) (xs : List A) → All (λ x. P x × Q x) xs → All Q xs
All-second P Q [] h = tt
All-second P Q (x ∷ xs) h = (h.0.1, All-second P Q xs h.1)

-- Storable, and with no histories.
abbrev IsFreshTab : TabState → Type 0
IsFreshTab t = IsStorableTab t × (without_history t ≡ t)

abbrev IsFreshPane : PaneState → Type 0
IsFreshPane p = IsStorablePane p × (pane_without_history p ≡ p)

abbrev pub IsFreshGroup : GroupState → Type 0
IsFreshGroup g = IsStorableGroup g × (group_without_history g ≡ g)

decode_tab-IsFreshTab : (place : Fields) (t : TabState) → decode_tab place ≡ some t → IsFreshTab t
unfolding decode_tab
decode_tab-IsFreshTab place t h =
    let (id, e, h1) = bind-some (field_as get_text id_key place) _ t h in
    let (inner, f, h2) = bind-some (field_as get_object shell_location_key place) _ t h1 in
    let (mode, g, h3) = bind-some (field_as get_text view_mode_key place) _ t h2 in
    let (column, i, h4) = bind-some (field_as get_text sort_column_key place) _ t h3 in
    let (ascending, j, h5) = bind-some (field_as get_bool sort_ascending_key place) _ t h4 in
    let (l, k, h6) = bind-some (decode_shell_location inner) _ t h5 in
    subst IsFreshTab (some_inj.0 h6) (decode_shell_location-IsStorableLocation inner l k, refl)

decode_pane-IsFreshPane :
    (place : Fields) (p : PaneState) → decode_pane place ≡ some p → IsFreshPane p
unfolding decode_pane
decode_pane-IsFreshPane place p h =
    let (id, e, h1) = bind-some (field_as get_text id_key place) _ p h in
    let (active, f, h2) = bind-some (field_as get_text active_tab_id_key place) _ p h1 in
    let (items, g, h3) = bind-some (field_as get_array tabs_key place) _ p h2 in
    let (tabs, i, h4) = bind-some (decode_all decode_tab items) _ p h3 in
    let fresh = decode_all-All decode_tab IsFreshTab decode_tab-IsFreshTab items tabs i in
    subst IsFreshPane (some_inj.0 h4) (
      All-first IsStorableTab (λ t. without_history t ≡ t) tabs fresh,
      ap (λ ts. record { id = id; tabs = ts; active_tab_id = active })
          (map-same without_history tabs
            (All-second IsStorableTab (λ t. without_history t ≡ t) tabs fresh)),
    )

pub decode_group-IsFreshGroup :
    (place : Fields) (x : GroupState) → decode_group place ≡ some x → IsFreshGroup x
unfolding decode_group
decode_group-IsFreshGroup place x h =
    let (id, e1, h1) = bind-some (field_as get_text id_key place) _ x h in
    let (name, e2, h2) = bind-some (field_name name_key place) _ x h1 in
    let (word, e3, h3) = bind-some (field_as get_text layout_template_key place) _ x h2 in
    let (template, e4, h4) = bind-some (layout_of word) _ x h3 in
    let (ratio_items, e5, h5) = bind-some (field_as get_array divider_ratios_key place) _ x h4 in
    let (pane_items, e6, h6) = bind-some (field_as get_array panes_key place) _ x h5 in
    let (active, e7, h7) = bind-some (field_as get_text active_pane_id_key place) _ x h6 in
    let (ratios, e8, h8) = bind-some (decode_ratios ratio_items) _ x h7 in
    let (panes, e9, h9) = bind-some (decode_all decode_pane pane_items) _ x h8 in
    let fresh =
      decode_all-All decode_pane IsFreshPane decode_pane-IsFreshPane pane_items panes e9 in
    subst IsFreshGroup (some_inj.0 h9) (
      (
        field_name-IsName name_key place name e2,
        All-first IsStorablePane (λ p. pane_without_history p ≡ p) panes fresh,
      ),
      ap
          (λ ps. record {
            id = id;
            name = name;
            layout_template = template;
            divider_ratios = ratios;
            panes = ps;
            active_pane_id = active;
          })
          (map-same pane_without_history panes
            (All-second IsStorablePane (λ p. pane_without_history p ≡ p) panes fresh)),
    )
