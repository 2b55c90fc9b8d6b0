-- ===== src/History/Tests.antt =====
-- Runs on a tab with three entries, at the middle one.
use pane_dock.Common.{suc, ◌<◌, true, false, none, some, ◌≡◌, ◌≢◌, ◌↔◌, refl, length, arith}
use pane_dock.Model.{TabState}
use pane_dock.Model.Valid.{IsValidTab}
use pane_dock.Model.Samples.{place, first_tab, first_tab-IsValidTab}
use pane_dock.History.{
  record_navigation, can_navigate_tab_back, can_navigate_tab_forward, navigate_tab_back,
  navigate_tab_forward, restore_tab_history_index, history_step_target,
}
use pane_dock.History.Laws.{
  record_navigation-visits, navigate_tab_back-forward, history_step_target-pending,
  history_step_target-navigate,
}

elsewhere : place 40 ≢ first_tab.location
elsewhere e = ground (arith, e)

can_go_back : can_navigate_tab_back first_tab ≡ true
unfolding can_navigate_tab_back
can_go_back = refl

record_navigation-visits_example :
    let u = record_navigation first_tab (place 40) in
    IsValidTab u
    × (u.location ≡ place 40)
    × (can_navigate_tab_forward u ≡ false)
    × ((b : TabState) × (navigate_tab_back u ≡ some b)
        × (b.location ≡ first_tab.location)
        × IsValidTab b)
record_navigation-visits_example =
    record_navigation-visits first_tab (place 40) first_tab-IsValidTab elsewhere

navigate_tab_back-forward_example :
    (b : TabState) × (navigate_tab_back first_tab ≡ some b)
    × IsValidTab b
    × (suc b.history_index ≡ first_tab.history_index)
    × (navigate_tab_forward b ≡ some first_tab)
    × (restore_tab_history_index b first_tab.history_index ≡ some first_tab)
navigate_tab_back-forward_example =
    navigate_tab_back-forward first_tab first_tab-IsValidTab can_go_back

steps_from_pending :
    ((history_step_target first_tab (some 2) true ≡ some 1) ↔ (2 ≡ suc 1))
    × ((history_step_target first_tab (some 2) false ≡ some 1)
        ↔ ((1 ≡ suc 2) × (1 < length first_tab.history)))
steps_from_pending = history_step_target-pending first_tab 2 1 (omega arith)

history_step_target-navigate_example :
    ((history_step_target first_tab none true ≡ some 0)
      ↔ ((u : TabState) × (navigate_tab_back first_tab ≡ some u) × (u.history_index ≡ 0)))
    × ((history_step_target first_tab none false ≡ some 0)
        ↔ ((u : TabState) × (navigate_tab_forward first_tab ≡ some u) × (u.history_index ≡ 0)))
history_step_target-navigate_example = history_step_target-navigate first_tab 0 first_tab-IsValidTab
