-- ===== src/Session/Read.antt =====
-- What `decode` accepts is a document that a state may be written over.
use pane_dock.Common.{◌≡◌, refl, sym, ap, subst, ◌∙◌, List, Option, none, some, Text, inl, inr}
use pane_dock.Model.{
  ShellLocation, ShellLocationParent, TabState, PaneState, GroupState, ApplicationState,
}
use pane_dock.Json.{
  Json, Items, Fields, null, boolean, number, text, array, object, no_items, item, find_field,
}
use pane_dock.Session.Words.{
  schema_version_key, active_group_id_key, groups_key, id_key, name_key, layout_template_key,
  divider_ratios_key, panes_key, active_tab_id_key, tabs_key, shell_location_key, view_mode_key,
  sort_column_key, sort_ascending_key, active_pane_id_key, pinned_locations_key,
  window_placement_key, navigation_parent_key,
}
use pane_dock.Session.Fields.{
  ◌>>=◌, get_bool, get_text, get_array, get_object, field_as, object_or_empty, items_or_none,
  integer,
}
use pane_dock.Session.Decode.{
  decode_identity, decode_parent, decode_shell_location, layout_of, decode_tab, decode_all,
  decode_pane, decode_ratios, decode_group, field_name, decode_pinned, decode_sidebar_width,
  decode_placement, migrate, decode_fields, decode,
}
use pane_dock.Session.Locations.{IsLocationObject}
use pane_dock.Session.Tabs.{AllObjects, IsTabObject, IsPaneObject}
use pane_dock.Session.Groups.{IsGroupObject}
use pane_dock.Session.RoundTrip.{IsRootObject}

-- A chain with a result has one at each link.
pub bind-some :
    {A B : Type 0} (o : Option A) (f : A → Option B) (b : B)
    → (o >>= f) ≡ some b
    → (a : A) × (o ≡ some a) × (f a ≡ some b)
bind-some none f b h = absurd cc
bind-some (some a) f b h = (a, refl, h)

pub get_object-some : (j : Json) (place : Fields) → get_object j ≡ some place → j ≡ object place
get_object-some (object inner) place h = cc
get_object-some null place h = absurd cc
get_object-some (boolean b) place h = absurd cc
get_object-some (number d) place h = absurd cc
get_object-some (text t) place h = absurd cc
get_object-some (array items) place h = absurd cc

get_array-some : (j : Json) (items : Items) → get_array j ≡ some items → j ≡ array items
get_array-some (array more) items h = cc
get_array-some null items h = absurd cc
get_array-some (boolean b) items h = absurd cc
get_array-some (number d) items h = absurd cc
get_array-some (text t) items h = absurd cc
get_array-some (object place) items h = absurd cc

-- An array and an object, read from a field.
pub field_array :
    (key : Text) (place : Fields) (items : Items)
    → field_as get_array key place ≡ some items
    → items_or_none (find_field key place) ≡ items
unfolding field_as
field_array key place items h =
    let (j, e, f) = bind-some (find_field key place) get_array items h in
    rw (e, get_array-some j items f) refl

field_object :
    (key : Text) (place inner : Fields)
    → field_as get_object key place ≡ some inner
    → object_or_empty (find_field key place) ≡ inner
unfolding field_as
field_object key place inner h =
    let (j, e, f) = bind-some (find_field key place) get_object inner h in
    rw (e, get_object-some j inner f) refl

decode_parent-some :
    (place : Fields) (o : Option Json) (p : Option ShellLocationParent)
    → find_field navigation_parent_key place ≡ o
    → decode_parent o ≡ some p
    → IsLocationObject place
unfolding decode_parent
decode_parent-some place none p e h = inl e
decode_parent-some place (some j) p e h =
    let (q, f, rest) = bind-some (get_object j) _ p h in
    inr (q, e ∙ ap some (get_object-some j q f))

decode_shell_location-some :
    (place : Fields) (l : ShellLocation)
    → decode_shell_location place ≡ some l
    → IsLocationObject place
unfolding decode_shell_location
decode_shell_location-some place l h =
    let (own, e, h1) = bind-some (decode_identity place) _ l h in
    let (parent, f, h2) =
      bind-some (decode_parent (find_field navigation_parent_key place)) _ l h1 in
    decode_parent-some place (find_field navigation_parent_key place) parent refl f

decode_all-some :
    {A : Type 0} (decode_one : Fields → Option A) (Q : Fields → Type 0)
    → ((place : Fields) (x : A) → decode_one place ≡ some x → Q place)
    → (items : Items) (xs : List A) → decode_all decode_one items ≡ some xs
    → AllObjects Q items
unfolding decode_all
decode_all-some decode_one Q f no_items xs h = tt
decode_all-some decode_one Q f (item j items) xs h =
    let (place, e, h1) = bind-some (get_object j) _ xs h in
    let (x, g, h2) = bind-some (decode_one place) _ xs h1 in
    let (rest, k, h3) = bind-some (decode_all decode_one items) _ xs h2 in
    (
      subst (λ i. Q (object_or_empty (some i))) (sym (get_object-some j place e)) (f place x g),
      decode_all-some decode_one Q f items rest k,
    )

decode_tab-some : (place : Fields) (t : TabState) → decode_tab place ≡ some t → IsTabObject place
unfolding decode_tab
decode_tab-some place t h =
    let (id, e, h1) = bind-some (field_as get_text id_key place) _ t h in
    let (inner, f, h2) = bind-some (field_as get_object shell_location_key place) _ t h1 in
    let (mode, g, h3) = bind-some (field_as get_text view_mode_key place) _ t h2 in
    let (column, i, h4) = bind-some (field_as get_text sort_column_key place) _ t h3 in
    let (ascending, j, h5) = bind-some (field_as get_bool sort_ascending_key place) _ t h4 in
    let (l, k, h6) = bind-some (decode_shell_location inner) _ t h5 in
    subst IsLocationObject (sym (field_object shell_location_key place inner f))
      (decode_shell_location-some inner l k)

decode_pane-some :
    (place : Fields) (p : PaneState) → decode_pane place ≡ some p → IsPaneObject place
unfolding decode_pane
decode_pane-some place p h =
    let (id, e, h1) = bind-some (field_as get_text id_key place) _ p h in
    let (active, f, h2) = bind-some (field_as get_text active_tab_id_key place) _ p h1 in
    let (items, g, h3) = bind-some (field_as get_array tabs_key place) _ p h2 in
    let (tabs, i, h4) = bind-some (decode_all decode_tab items) _ p h3 in
    subst (AllObjects IsTabObject) (sym (field_array tabs_key place items g))
      (decode_all-some decode_tab IsTabObject decode_tab-some items tabs i)

decode_group-some :
    (place : Fields) (x : GroupState) → decode_group place ≡ some x → IsGroupObject place
unfolding decode_group
decode_group-some place x h =
    let (id, e1, h1) = bind-some (field_as get_text id_key place) _ x h in
    let (name, e2, h2) = bind-some (field_name name_key place) _ x h1 in
    let (word, e3, h3) = bind-some (field_as get_text layout_template_key place) _ x h2 in
    let (template, e4, h4) = bind-some (layout_of word) _ x h3 in
    let (ratio_items, e5, h5) = bind-some (field_as get_array divider_ratios_key place) _ x h4 in
    let (pane_items, e6, h6) = bind-some (field_as get_array panes_key place) _ x h5 in
    let (active, e7, h7) = bind-some (field_as get_text active_pane_id_key place) _ x h6 in
    let (ratios, e8, h8) = bind-some (decode_ratios ratio_items) _ x h7 in
    let (panes, e9, h9) = bind-some (decode_all decode_pane pane_items) _ x h8 in
    subst (AllObjects IsPaneObject) (sym (field_array panes_key place pane_items e6))
      (decode_all-some decode_pane IsPaneObject decode_pane-some pane_items panes e9)

decode_pinned-some :
    (o : Option Json) (ls : List ShellLocation)
    → decode_pinned o ≡ some ls
    → AllObjects IsLocationObject (items_or_none o)
decode_pinned-some none ls h = tt
decode_pinned-some (some j) ls h =
    let (items, e, f) = bind-some (get_array j) (decode_all decode_shell_location) ls h in
    subst (λ i. AllObjects IsLocationObject (items_or_none (some i)))
      (sym (get_array-some j items e))
      (decode_all-some decode_shell_location IsLocationObject decode_shell_location-some items ls f)

decode_fields-some :
    (place : Fields) (a : ApplicationState) → decode_fields place ≡ some a → IsRootObject place
unfolding decode_fields
decode_fields-some place a h =
    let (version, e1, h1) = bind-some (integer schema_version_key place) _ a h in
    let (migrated, e2, h2) = bind-some (migrate version) _ a h1 in
    let (active, e3, h3) = bind-some (field_as get_text active_group_id_key place) _ a h2 in
    let (group_items, e4, h4) = bind-some (field_as get_array groups_key place) _ a h3 in
    let (window, e5, h5) = bind-some (field_as get_object window_placement_key place) _ a h4 in
    let (sidebar, e6, h6) = bind-some (decode_sidebar_width place) _ a h5 in
    let (pinned, e7, h7) =
      bind-some (decode_pinned (find_field pinned_locations_key place)) _ a h6 in
    let (placement, e8, h8) = bind-some (decode_placement window) _ a h7 in
    let (groups, e9, h9) = bind-some (decode_all decode_group group_items) _ a h8 in
    (
      subst (AllObjects IsGroupObject) (sym (field_array groups_key place group_items e4))
          (decode_all-some decode_group IsGroupObject decode_group-some group_items groups e9),
      decode_pinned-some (find_field pinned_locations_key place) pinned e7,
    )

pub decode-IsRootObject :
    (root : Json) (a : ApplicationState)
    → decode root ≡ some a
    → IsRootObject (object_or_empty (some root))
unfolding decode
decode-IsRootObject root a h =
    let (place, e, h1) = bind-some (get_object root) _ a h in
    let (b, f, h2) = bind-some (decode_fields place) _ a h1 in
    subst (λ j. IsRootObject (object_or_empty (some j))) (sym (get_object-some root place e))
      (decode_fields-some place b f)
