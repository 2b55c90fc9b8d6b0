-- ===== src/Panes.antt =====
-- src/core/model.cpp, the tabs of one pane: `add_tab` to `set_active_pane`, and moves between panes.
--
-- An operation that the source refuses with `false` does so before any change, and is `none`.
pub mod Valid
pub mod Move
mod Tests
use pane_dock.Common.{
  ℕ, zero, suc, ◌-◌, Bool, true, false, ◌&&◌, ◌||◌, List, [], ◌∷◌, ◌++◌, Option, none, some, Text,
  text_eq, not, ltb, ◌==◌, if◌then◌else◌, length, insert_at, min,
}
use pane_dock.Ids.{is_empty, has_id, find_id, index_of, erase_id, update_id, next_id}
use pane_dock.Model.{ShellLocation, TabState, PaneState, GroupState, tab_id, pane_id}

pub add_tab : PaneState → TabState → Option PaneState
add_tab p t =
    if is_empty t.id || has_id tab_id t.id p.tabs
    then none
    else some (record p { tabs = p.tabs ++ t ∷ [] })

pub reorder_tab : PaneState → Text → ℕ → Option PaneState
reorder_tab p t target = elim (find_id tab_id t p.tabs) [
  | none ↦ none
  | some moved ↦
      if ltb target (length p.tabs)
      then some (record p { tabs = insert_at target moved (erase_id tab_id t p.tabs) })
      else none
]

-- What a tab that must stay is reset to.
pub reset_tab : ShellLocation → TabState → TabState
reset_tab home t = record t { location = home; history = []; history_index = 0 }

-- The pane after `erase(tab)`, with the next tab selected if it was active.
pub without_tab : PaneState → Text → PaneState
without_tab p t = record p {
  tabs = erase_id tab_id t p.tabs;
  active_tab_id = if text_eq p.active_tab_id t then next_id tab_id t p.tabs else p.active_tab_id;
}

pub close_tab : PaneState → Text → ShellLocation → Option PaneState
unfolding reset_tab without_tab
close_tab p t home =
    if not (has_id tab_id t p.tabs)
    then none
    else if length p.tabs == 1
    then some (record p { tabs = update_id tab_id t (reset_tab home) p.tabs })
    else some (without_tab p t)

pub set_active_tab : PaneState → Text → Option PaneState
set_active_tab p t = if has_id tab_id t p.tabs then some (record p { active_tab_id = t }) else none

-- The source pane after a move: its only tab becomes the placeholder, any other is erased.
pub source_after : PaneState → Text → ShellLocation → Text → PaneState
unfolding reset_tab without_tab
source_after p t home retained =
    if length p.tabs == 1
    then record p {
      tabs = update_id tab_id t (λ x. record (reset_tab home x) { id = retained }) p.tabs;
      active_tab_id = retained;
    }
    else without_tab p t

-- The target pane after a move; an index past the end appends.
pub target_after : PaneState → TabState → Text → ℕ → PaneState
target_after p moved t target = record p {
  tabs = insert_at (min target (length p.tabs)) moved p.tabs;
  active_tab_id = t;
}

-- Whether the placeholder cannot take its id.
pub refuses_retained : PaneState → PaneState → Text → Text → Bool
refuses_retained source target t retained =
    (length source.tabs == 1)
    && (is_empty retained || text_eq retained t || has_id tab_id retained target.tabs)

-- `&source == &target` is the flag `same`.
pub move_tab :
    Bool → PaneState → PaneState → Text → ℕ → ShellLocation → Text → Option (PaneState × PaneState)
unfolding source_after target_after refuses_retained
move_tab same source target t index home retained = elim (find_id tab_id t source.tabs) [
  | none ↦ none
  | some moved ↦
      if same || has_id tab_id t target.tabs || refuses_retained source target t retained
      then none
      else some (source_after source t home retained, target_after target moved t index)
]

pub set_active_pane : GroupState → Text → Option GroupState
set_active_pane g p =
    if has_id pane_id p g.panes then some (record g { active_pane_id = p }) else none
