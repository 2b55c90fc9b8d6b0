-- ===== src/Groups.antt =====
-- src/core/model.cpp, the groups of the application: `add_group` to `reorder_source_index`, the pinned
-- locations, and `reserve_panes`, which changes no value.
--
-- An operation that the source refuses with `false` does so before any change, and is `none`.
pub mod Valid
pub mod Order
mod Tests
use pane_dock.Common.{
  ℕ, ◌+◌, ◌-◌, Bool, true, false, ◌&&◌, ◌||◌, List, [], ◌∷◌, ◌++◌, Option, none, some, Text,
  text_eq, not, ltb, leb, ◌==◌, if◌then◌else◌, length, insert_at, any,
}
use pane_dock.Ids.{is_empty, has_id, find_id, erase_id, update_id, next_id}
use pane_dock.Model.{ShellLocation, GroupState, ApplicationState, group_id, is_valid_group}

pub add_group : ApplicationState → GroupState → Option ApplicationState
add_group a g =
    if not (is_valid_group g) || has_id group_id g.id a.groups
    then none
    else some (record a {
      groups = a.groups ++ g ∷ [];
      active_group_id = if is_empty a.active_group_id then g.id else a.active_group_id;
    })

pub rename_group : ApplicationState → Text → Text → Option ApplicationState
rename_group a g name =
    if has_id group_id g a.groups
    then some (record a { groups = update_id group_id g (λ x. record x { name = name }) a.groups })
    else none

pub duplicate_group : ApplicationState → Text → Text → Text → Option ApplicationState
duplicate_group a source new_id new_name = elim (find_id group_id source a.groups) [
  | none ↦ none
  | some g ↦
      if is_empty new_id || has_id group_id new_id a.groups
      then none
      else some (record a { groups = a.groups ++ record g { id = new_id; name = new_name } ∷ [] })
]

pub delete_group : ApplicationState → Text → Option ApplicationState
delete_group a g =
    let rest = erase_id group_id g a.groups in
    if not (has_id group_id g a.groups)
    then none
    else some (record a {
      groups = rest;
      active_group_id =
          if length rest == 0
          then []
          else if text_eq a.active_group_id g
          then next_id group_id g a.groups
          else a.active_group_id;
    })

pub reorder_group : ApplicationState → Text → ℕ → Option ApplicationState
reorder_group a g index = elim (find_id group_id g a.groups) [
  | none ↦ none
  | some moved ↦
      if ltb index (length a.groups)
      then some (record a { groups = insert_at index moved (erase_id group_id g a.groups) })
      else none
]

pub reorder_source_index : ℕ → ℕ → ℕ → ℕ → Option ℕ
reorder_source_index count source target destination =
    let remaining = if ltb destination target then destination else destination - 1 in
    if leb count source || leb count target || leb count destination
    then none
    else if destination == target
    then some source
    else some (if ltb remaining source then remaining else remaining + 1)

unfoldable pub can_pin_location : List ShellLocation → ShellLocation → Bool
can_pin_location pinned l =
    not (is_empty l.parsing_name) && not (any (λ v. text_eq v.parsing_name l.parsing_name) pinned)

unfoldable pub add_pinned_location : ApplicationState → ShellLocation → Option ApplicationState
unfolding can_pin_location
add_pinned_location a l =
    if can_pin_location a.pinned_locations l
    then some (record a { pinned_locations = a.pinned_locations ++ l ∷ [] })
    else none
