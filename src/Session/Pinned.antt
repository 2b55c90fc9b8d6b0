-- ===== src/Session/Pinned.antt =====
-- What `decode` pins, its integers, and the state that it ends with.
use pane_dock.Common.{
  ℕ, zero, suc, ◌/◌, ◌%◌, ◌-◌, ◌^◌, ◌≤◌, ◌<◌, ◌≡◌, ◌==◌, leb, refl, sym, ap, subst, ◌∙◌, Bool, true,
  false, ◌&&◌, List, [], ◌∷◌, ◌++◌, Option, none, some, Text, All, if◌then◌else◌, arith, Bool-cases,
  inl, inr,
}
use mathlib.Core.Option.{some_inj}
use mathlib.Core.List.{append_assoc, append-nil}
use pane_dock.Common.Int.{ℤ, pos}
use pane_dock.Model.{
  ShellLocation, Double, not_a_number, infinite, finite, one_units, GroupState, WindowPlacement,
  ApplicationState, is_valid,
}
use pane_dock.Groups.{can_pin_location, add_pinned_location}
use pane_dock.Json.{Json, Fields, find_field}
use pane_dock.Session.Words.{
  schema_version_key, active_group_id_key, groups_key, pinned_locations_key, window_placement_key,
  x_key, y_key, width_key, height_key, maximized_key, sidebar_width_key, list_font_points_key,
}
use pane_dock.Session.Fields.{
  get_bool, get_number, get_text, get_array, get_object, field_as, negated, int_of, integer,
}
use pane_dock.Session.Decode.{
  decode_shell_location, decode_all, decode_group, pin_all, decode_pinned, valid_list_font_points,
  points_or_system, decode_sidebar_width, has_field, decode_placement, migrate, decode_fields,
  decode,
}
use pane_dock.Session.Lookup.{IsInt}
use pane_dock.Session.Locations.{IsStorableLocation}
use pane_dock.Session.Forgotten.{group_without_history, state_without_history}
use pane_dock.Session.Groups.{IsStorableGroup}
use pane_dock.Session.Placements.{IsStorablePlacement, ArePinned}
use pane_dock.Session.RoundTrip.{IsStorable}
use pane_dock.Session.Read.{bind-some}
use pane_dock.Session.Storable.{decode_all-All, decode_shell_location-IsStorableLocation}
use pane_dock.Session.Fresh.{
  map-same, All-first, All-second, IsFreshGroup, decode_group-IsFreshGroup,
}

-- The result of a guard.
pub guarded_some :
    {A : Type 0} (b : Bool) (x y : A) → (if b then some x else none) ≡ some y → (b ≡ true) × (x ≡ y)
guarded_some true x y h = (refl, some_inj.0 h)
guarded_some false x y h = absurd cc

add_pinned_location-some :
    (a c : ApplicationState) (l : ShellLocation)
    → add_pinned_location a l ≡ some c
    → (can_pin_location a.pinned_locations l ≡ true)
      × (c ≡ record a { pinned_locations = a.pinned_locations ++ l ∷ [] })
unfolding add_pinned_location
add_pinned_location-some a c l h =
    let next = record a { pinned_locations = a.pinned_locations ++ l ∷ [] } in
    let (can, e) = guarded_some (can_pin_location a.pinned_locations l) next c h in (can, sym e)

-- The locations that were pinned, and what else stays.
pub pin_all-some :
    (a b : ApplicationState) (ls : List ShellLocation)
    → pin_all a ls ≡ some b
    → ArePinned a.pinned_locations ls
      × (b ≡ record a { pinned_locations = a.pinned_locations ++ ls })
unfolding pin_all add_pinned_location
pin_all-some a b [] h =
    let e : a ≡ b = some_inj.0 h in
    (
      tt,
      sym e ∙ ap (λ ps. record a { pinned_locations = ps }) (sym (append-nil a.pinned_locations)),
    )
pin_all-some a b (l ∷ ls) h =
    let (c, e, f) = bind-some (add_pinned_location a l) (λ more. pin_all more ls) b h in
    let next = record a { pinned_locations = a.pinned_locations ++ l ∷ [] } in
    let (can, same) = add_pinned_location-some a c l e in
    let (pinned, g) = pin_all-some next b ls (subst (λ x. pin_all x ls ≡ some b) same f) in
    (
      (can, pinned),
      g
          ∙ ap (λ ps. record a { pinned_locations = ps })
              (append_assoc a.pinned_locations (l ∷ []) ls),
    )

negated-IsInt : (q : ℕ) → q ≤ 2 ^ 31 → IsInt (negated q)
negated-IsInt zero h = omega arith
negated-IsInt (suc q) h = omega arith

second_true : (a b : Bool) → (a && b) ≡ true → b ≡ true
second_true a b h = ground arith

leb-le : (m n : ℕ) → leb m n ≡ true → m ≤ n
leb-le m n h = ground arith

int_of-IsInt : (d : Double) (n : ℤ) → int_of d ≡ some n → IsInt n
unfolding int_of
int_of-IsInt not_a_number n h = absurd cc
int_of-IsInt (infinite negative) n h = absurd cc
int_of-IsInt (finite true units) n h =
    let q = units / one_units in
    let (fits, e) = guarded_some ((units % one_units == 0) && leb q (2 ^ 31)) (negated q) n h in
    subst IsInt e (
      negated-IsInt q
        (leb-le q (2 ^ 31) (second_true (units % one_units == 0) (leb q (2 ^ 31)) fits)))
int_of-IsInt (finite false units) n h =
    let q = units / one_units in
    let (fits, e) = guarded_some ((units % one_units == 0) && leb q (2 ^ 31 - 1)) (pos q) n h in
    let small =
      leb-le q (2 ^ 31 - 1) (second_true (units % one_units == 0) (leb q (2 ^ 31 - 1)) fits) in
    subst IsInt e (below q small)
  where
    below : (q : ℕ) → q ≤ 2 ^ 31 - 1 → q < 2 ^ 31
    below q h = omega arith

integer-IsInt : (key : Text) (place : Fields) (n : ℤ) → integer key place ≡ some n → IsInt n
unfolding integer
integer-IsInt key place n h =
    let (d, e, f) = bind-some (field_as get_number key place) int_of n h in int_of-IsInt d n f

decode_sidebar_width-IsInt :
    (place : Fields) (n : ℤ) → decode_sidebar_width place ≡ some n → IsInt n
decode_sidebar_width-IsInt place n = elim (Bool-cases (has_field sidebar_width_key place)) [
  | inl e ↦ rw e λ h. integer-IsInt sidebar_width_key place n h
  | inr e ↦ rw e λ h. subst IsInt (some_inj.0 h) (omega arith)
]

decode_placement-IsStorable :
    (place : Fields) (w : WindowPlacement) → decode_placement place ≡ some w → IsStorablePlacement w
unfolding decode_placement
decode_placement-IsStorable place w h =
    let (x, e1, h1) = bind-some (integer x_key place) _ w h in
    let (y, e2, h2) = bind-some (integer y_key place) _ w h1 in
    let (width, e3, h3) = bind-some (integer width_key place) _ w h2 in
    let (height, e4, h4) = bind-some (integer height_key place) _ w h3 in
    let (maximized, e5, h5) = bind-some (field_as get_bool maximized_key place) _ w h4 in
    subst IsStorablePlacement (some_inj.0 h5) (
      integer-IsInt x_key place x e1,
      integer-IsInt y_key place y e2,
      integer-IsInt width_key place width e3,
      integer-IsInt height_key place height e4,
    )

decode_pinned-All :
    (o : Option Json) (ls : List ShellLocation)
    → decode_pinned o ≡ some ls
    → All IsStorableLocation ls
decode_pinned-All none ls h = subst (All IsStorableLocation) (some_inj.0 h) tt
decode_pinned-All (some j) ls h =
    let (items, e, f) = bind-some (get_array j) (decode_all decode_shell_location) ls h in
    decode_all-All decode_shell_location IsStorableLocation decode_shell_location-IsStorableLocation
      items ls f

points_or_system-valid : (o : Option ℤ) → valid_list_font_points (points_or_system o) ≡ true
points_or_system-valid none = unfold valid_list_font_points in refl
points_or_system-valid (some n) = elim (Bool-cases (valid_list_font_points n)) [
  | inl e ↦ rw e e
  | inr e ↦ rw e (unfold valid_list_font_points in refl)
]

-- The state that the loop over the pinned locations starts from.
abbrev unpinned : List GroupState → Text → WindowPlacement → ℤ → ℤ → ApplicationState
unpinned groups active placement sidebar points = record {
  schema_version = 1;
  groups = groups;
  active_group_id = active;
  window_placement = placement;
  sidebar_width = sidebar;
  pinned_locations = [];
  list_font_points = points;
}

unpinned-IsStorable :
    (groups : List GroupState) (active : Text) (placement : WindowPlacement) (sidebar points : ℤ)
    (pinned : List ShellLocation) (a : ApplicationState)
    → pin_all (unpinned groups active placement sidebar points) pinned ≡ some a
    → All IsFreshGroup groups
    → IsStorablePlacement placement
    → IsInt sidebar
    → valid_list_font_points points ≡ true
    → All IsStorableLocation pinned
    → is_valid a ≡ true
    → IsStorable a × (state_without_history a ≡ a)
unpinned-IsStorable groups active placement sidebar points pinned a h g w s p l =
    let base = unpinned groups active placement sidebar points in
    let (kept, same) = pin_all-some base a pinned h in
    let full = record base { pinned_locations = pinned } in
    subst (λ x. is_valid x ≡ true → IsStorable x × (state_without_history x ≡ x)) (sym same)
      λ v. (
        record {
          valid = v;
          groups_stored = All-first IsStorableGroup (λ x. group_without_history x ≡ x) groups g;
          locations_stored = l;
          pinned = kept;
          placement = w;
          sidebar = s;
          points = p;
        },
        ap (λ gs. record full { groups = gs })
            (map-same group_without_history groups
              (All-second IsStorableGroup (λ x. group_without_history x ≡ x) groups g)),
      )

decode_fields-IsStorable :
    (place : Fields) (a : ApplicationState)
    → decode_fields place ≡ some a
    → is_valid a ≡ true
    → IsStorable a × (state_without_history a ≡ a)
unfolding decode_fields
decode_fields-IsStorable place a f v =
    let (version, e1, h1) = bind-some (integer schema_version_key place) _ a f in
    let (migrated, e2, h2) = bind-some (migrate version) _ a h1 in
    let (active, e3, h3) = bind-some (field_as get_text active_group_id_key place) _ a h2 in
    let (group_items, e4, h4) = bind-some (field_as get_array groups_key place) _ a h3 in
    let (window, e5, h5) = bind-some (field_as get_object window_placement_key place) _ a h4 in
    let (sidebar, e6, h6) = bind-some (decode_sidebar_width place) _ a h5 in
    let (pinned, e7, h7) =
      bind-some (decode_pinned (find_field pinned_locations_key place)) _ a h6 in
    let (placement, e8, h8) = bind-some (decode_placement window) _ a h7 in
    let (groups, e9, h9) = bind-some (decode_all decode_group group_items) _ a h8 in
    unpinned-IsStorable groups active placement sidebar
      (points_or_system (integer list_font_points_key place)) pinned a h9
      (decode_all-All decode_group IsFreshGroup decode_group-IsFreshGroup group_items groups e9)
      (decode_placement-IsStorable window placement e8)
      (decode_sidebar_width-IsInt place sidebar e6)
      (points_or_system-valid (integer list_font_points_key place))
      (decode_pinned-All (find_field pinned_locations_key place) pinned e7) v

-- Every state that is decoded is valid and one that a file can hold, and its tabs have no histories.
pub decode-IsStorable :
    (root : Json) (a : ApplicationState)
    → decode root ≡ some a
    → IsStorable a × (state_without_history a ≡ a)
unfolding decode
decode-IsStorable root a h =
    let (place, e, h0) = bind-some (get_object root) _ a h in
    let (b, f, g) = bind-some (decode_fields place) _ a h0 in
    let (v, same) = guarded_some (is_valid b) b a g in
    subst (λ x. IsStorable x × (state_without_history x ≡ x)) same
      (decode_fields-IsStorable place b f v)
