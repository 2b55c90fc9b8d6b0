-- ===== src/Panes/Tests.antt =====
-- Runs on small panes.
use pane_dock.Common.{Text-discrete, false, [], ◌∷◌, none, some, ◌≡◌, refl, get_elem?, length, min}
use pane_dock.Ids.{has_id, find_id}
use pane_dock.Model.{PaneState, tab_id}
use pane_dock.Model.Valid.{IsValidPane}
use pane_dock.Model.Samples.{
  place, tab_at, pane_of, first_tab, second_tab, third_tab, first_pane, second_pane,
  first_pane-IsValidPane, second_pane-IsValidPane,
}
use pane_dock.Panes.{set_active_tab, add_tab, reorder_tab, close_tab, move_tab}
use pane_dock.Panes.Move.{move_tab-IsValidPane}

abbrev grown_pane : PaneState
grown_pane = pane_of 101 (first_tab ∷ second_tab ∷ third_tab ∷ []) 1

abbrev turned_pane : PaneState
turned_pane = pane_of 101 (second_tab ∷ first_tab ∷ []) 1

-- The source and the target after the first tab is moved to index 0 of the second pane.
abbrev left_pane : PaneState
left_pane = pane_of 101 (second_tab ∷ []) 2

abbrev gained_pane : PaneState
gained_pane = pane_of 102 (first_tab ∷ third_tab ∷ []) 1

adds : add_tab first_pane third_tab ≡ some grown_pane
unfolding add_tab Text-discrete
adds = refl

turns : reorder_tab first_pane (1 ∷ []) 1 ≡ some turned_pane
unfolding reorder_tab Text-discrete
turns = refl

moves :
    move_tab false first_pane second_pane (1 ∷ []) 0 (place 9) [] ≡ some (left_pane, gained_pane)
unfolding move_tab Text-discrete
moves = refl

-- A pane never loses its last tab: closing it leaves a placeholder under its id.
closes_last : close_tab second_pane (3 ∷ []) (place 9) ≡ some (pane_of 102 (tab_at 3 [] 0 9 ∷ []) 3)
unfolding close_tab Text-discrete
closes_last = refl

move_tab-IsValidPane_example :
    IsValidPane left_pane
    × IsValidPane gained_pane
    × (get_elem? gained_pane.tabs (min 0 (length second_pane.tabs))
        ≡ find_id tab_id (1 ∷ []) first_pane.tabs)
    × (gained_pane.active_tab_id ≡ 1 ∷ [])
    × (has_id tab_id (1 ∷ []) left_pane.tabs ≡ false)
move_tab-IsValidPane_example =
    move_tab-IsValidPane false first_pane second_pane (1 ∷ []) 0 (place 9) [] left_pane gained_pane
      first_pane-IsValidPane second_pane-IsValidPane moves

selects : set_active_tab first_pane (2 ∷ []) ≡ some (record first_pane { active_tab_id = 2 ∷ [] })
unfolding set_active_tab Text-discrete
selects = refl

selects_no_other : set_active_tab first_pane (3 ∷ []) ≡ none
unfolding set_active_tab Text-discrete
selects_no_other = refl
