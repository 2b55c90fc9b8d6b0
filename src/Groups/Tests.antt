-- ===== src/Groups/Tests.antt =====
-- Runs on an application of two groups.
use pane_dock.Common.{true, Text-discrete, ℕ, false, List, [], ◌∷◌, none, some, ◌≡◌, refl, ◌⊎◌}
use pane_dock.Ids.{has_id, erase_id}
use pane_dock.Model.{ApplicationState, GroupState, group_id}
use pane_dock.Model.Valid.{IsValid}
use pane_dock.Model.Samples.{place, first_group, second_group, application, application-IsValid}
use pane_dock.Groups.{
  rename_group, add_pinned_location, can_pin_location, duplicate_group, delete_group, reorder_group,
}
use pane_dock.Groups.Valid.{delete_group-IsValid}

abbrev third_group : GroupState
third_group = record second_group { id = 203 ∷ [] }

abbrev copied : ApplicationState
copied = record application {
  groups = first_group ∷ second_group ∷ record first_group { id = 204 ∷ []; name = 82 ∷ [] } ∷ [];
}

abbrev turned : ApplicationState
turned = record application { groups = second_group ∷ first_group ∷ [] }

copies : duplicate_group application (201 ∷ []) (204 ∷ []) (82 ∷ []) ≡ some copied
unfolding duplicate_group Text-discrete
copies = refl

turns : reorder_group application (201 ∷ []) 1 ≡ some turned
unfolding reorder_group Text-discrete
turns = refl

delete_group-IsValid_example :
    ((has_id group_id (201 ∷ []) application.groups ≡ false)
      × (delete_group application (201 ∷ []) ≡ none))
    ⊎ ((b : ApplicationState) × (has_id group_id (201 ∷ []) application.groups ≡ true)
        × (delete_group application (201 ∷ []) ≡ some b)
        × IsValid b
        × (b.groups ≡ erase_id group_id (201 ∷ []) application.groups)
        × (has_id group_id (201 ∷ []) b.groups ≡ false)
        × ((application.active_group_id ≡ 201 ∷ [])
            ⊎ (b.active_group_id ≡ application.active_group_id)))
delete_group-IsValid_example = delete_group-IsValid application (201 ∷ []) application-IsValid

abbrev shown : List ℕ
shown = 5 ∷ 6 ∷ 7 ∷ 8 ∷ []

-- Only the name changes.
renames :
    rename_group application (202 ∷ []) (90 ∷ [])
    ≡ some
        (record application { groups = first_group ∷ record second_group { name = 90 ∷ [] } ∷ [] })
unfolding rename_group Text-discrete
renames = refl

-- A location is pinned once.
pins :
    add_pinned_location application (place 7)
    ≡ some (record application { pinned_locations = place 7 ∷ [] })
unfolding add_pinned_location can_pin_location
pins = refl
