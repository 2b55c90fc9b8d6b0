-- ===== src/Layouts/Tests.antt =====
-- A switch of two panes to three.
use pane_dock.Common.{◌⊎◌, ◌≢◌, ℕ, ◌<◌, [], ◌∷◌, ◌++◌, some, ◌≡◌, refl, arith}
use pane_dock.Model.{GroupState, three_pane, pane_count, find_active_pane_index}
use pane_dock.Model.Valid.{IsValidGroup}
use pane_dock.Model.Samples.{place, first_group, first_group-IsValidGroup}
use pane_dock.Layouts.{new_panes, switch_layout}
use pane_dock.Layouts.Laws.{IsOutOfSight, AreNew, switch_layout_total, switch_layout-keeps}

ids-AreNew : AreNew first_group ((103 ∷ []) ∷ []) ((4 ∷ []) ∷ [])
ids-AreNew = record {
  panes_unique = ground arith;
  panes_fresh = ground arith;
  tabs_named = ground arith;
}

switches :
    (h : GroupState) × (switch_layout first_group three_pane
        (place 9)
        ((103 ∷ []) ∷ [])
        ((4 ∷ []) ∷ [])
      ≡ some h)
unfolding pane_count
switches =
    switch_layout_total first_group three_pane (place 9) ((103 ∷ []) ∷ []) ((4 ∷ []) ∷ [])
      first_group-IsValidGroup refl refl ids-AreNew

abbrev outcome : GroupState
outcome = switches.0

switch_layout-keeps_example :
    IsValidGroup outcome
    × (outcome.layout_template ≡ three_pane)
    × (outcome.panes ≡ first_group.panes ++ new_panes (place 9) ((103 ∷ []) ∷ []) ((4 ∷ []) ∷ []))
    × ((i : ℕ) × (find_active_pane_index outcome ≡ some i) × (i < pane_count three_pane))
    × ((outcome.active_pane_id ≡ first_group.active_pane_id)
        ⊎ IsOutOfSight first_group.active_pane_id outcome.panes (pane_count three_pane))
    × ((first_group.layout_template ≢ three_pane)
        ⊎ (outcome.divider_ratios ≡ first_group.divider_ratios))
switch_layout-keeps_example =
    switch_layout-keeps first_group three_pane (place 9) ((103 ∷ []) ∷ []) ((4 ∷ []) ∷ []) outcome
      switches.1
