-- ===== src/Layouts.antt =====
-- src/core/model.cpp, `switch_layout`: a group changes its template, and gains panes where it needs more.
pub mod NewPanes
pub mod Laws
mod Tests
use pane_dock.Common.{
  ℕ, zero, suc, ◌+◌, ◌-◌, Bool, true, false, ◌&&◌, ◌||◌, List, [], ◌∷◌, ◌++◌, Option, none, some,
  Text, not, ltb, leb, ◌==◌, if◌then◌else◌, length, holds,
}
use pane_dock.Ids.{index_of}
use pane_dock.Model.{
  ShellLocation, LayoutTemplate, LayoutTemplate-discrete, TabState, PaneState, GroupState, pane_id,
  pane_count, default_divider_ratios, is_valid_group,
}

-- `TabState{id, location, {}, {}, true}` in a pane of its own.
abbrev pub new_pane : ShellLocation → Text → Text → PaneState
new_pane home pane tab = record {
  id = pane;
  tabs =
      record {
        id = tab;
        location = home;
        view_mode = [];
        sort_column = [];
        sort_ascending = true;
        history = [];
        history_index = 0;
        columns = [];
      }
      ∷ [];
  active_tab_id = tab;
}

-- The loop over `added`, with the two lists of the same length.
pub new_panes : ShellLocation → List Text → List Text → List PaneState
new_panes home (p ∷ ps) (t ∷ ts) = new_pane home p t ∷ new_panes home ps ts
new_panes home _ _ = []

front_id : Text → List PaneState → Text
front_id none_id [] = none_id
front_id none_id (p ∷ ps) = p.id

-- The active pane stays if it is among the visible ones, and is the first one otherwise.
visible_active : Text → List PaneState → ℕ → Text
unfolding front_id
visible_active active panes visible = elim (index_of pane_id active panes) [
  | none ↦ front_id active panes
  | some i ↦ if leb visible i then front_id active panes else active
]

-- The candidate that the source builds before it checks it.
pub switched : GroupState → LayoutTemplate → ShellLocation → List Text → List Text → GroupState
unfolding new_panes visible_active
switched g template home pane_ids tab_ids =
    let panes = g.panes ++ new_panes home pane_ids tab_ids in
    record g {
      panes = panes;
      divider_ratios =
          if holds (LayoutTemplate-discrete g.layout_template template)
          then g.divider_ratios
          else default_divider_ratios template;
      layout_template = template;
      active_pane_id = visible_active g.active_pane_id panes (pane_count template);
    }

-- How many panes a template lacks.
abbrev pub lacking : GroupState → LayoutTemplate → ℕ
lacking g template = pane_count template - length g.panes

pub switch_layout :
    GroupState → LayoutTemplate → ShellLocation → List Text → List Text → Option GroupState
unfolding switched
switch_layout g template home pane_ids tab_ids =
    let candidate = switched g template home pane_ids tab_ids in
    if not (is_valid_group g)
    then none
    else if not (length pane_ids == lacking g template)
        || not (length tab_ids == lacking g template)
    then none
    else if not (is_valid_group candidate)
    then none
    else some candidate
