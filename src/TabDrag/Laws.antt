-- ===== src/TabDrag/Laws.antt =====
-- What a tab drag reports: a drop within the group's panes, and a change only where a target moved.
use pane_dock.Common.{ℕ, ◌<◌, ◌≡◌, ◌≢◌, false, some, arith}
use pane_dock.TabDrag.{
  TabDragState, TabStripHit, TabDragEffect, TabDragDrop, nothing, reorder, move, no_drop, same_slot,
  update_tab_drag, resolve_tab_drop,
}

-- What a drop may say, by its effect.
abbrev pub IsSound : TabDragState → ℕ → TabDragEffect → TabDragDrop → Type 0
IsSound state pane_count nothing drop = drop ≡ no_drop
IsSound state pane_count reorder drop =
    (drop.source_pane ≡ state.source_pane)
    × (drop.target_pane ≡ state.source_pane)
    × (state.source_pane < pane_count)
    × (drop.target_index ≢ state.source_index)
    × (state.target_index ≡ some drop.target_index)
IsSound state pane_count move drop =
    (drop.source_pane ≡ state.source_pane)
    × (state.target_pane ≡ some drop.target_pane)
    × (drop.target_pane ≢ state.source_pane)
    × (state.source_pane < pane_count)
    × (drop.target_pane < pane_count)
    × (state.target_index ≡ some drop.target_index)

-- Whatever the state, the drop that the release of the button resolves to names only panes that the
-- group still has: a reorder stays in the source pane and moves the tab to another slot, a move
-- goes to another pane, and everything else is the empty drop.
pub resolve_tab_drop-IsSound :
    (state : TabDragState) (pane_count : ℕ)
    → let drop = resolve_tab_drop state pane_count in IsSound state pane_count drop.effect drop
unfolding resolve_tab_drop
resolve_tab_drop-IsSound state pane_count = ground arith

-- The same hit twice reports no second change and leaves the state of the first.
pub update_tab_drag-twice :
    (state : TabDragState) (hit : TabStripHit)
    → let after = (update_tab_drag state hit).0 in update_tab_drag after hit ≡ (after, false)
unfolding update_tab_drag same_slot
update_tab_drag-twice state hit = ground arith
