-- ===== src/TabDrag/Tests.antt =====
-- A drag from the first pane to the end of the second one.
use pane_dock.Common.{true, false, none, some, ◌≡◌, refl}
use pane_dock.Common.Int.{pos, ◌-ℤ◌}
use pane_dock.TabDrag.{begin_tab_drag, TabDragState, TabStripHit, update_tab_drag, same_slot}
use pane_dock.TabDrag.Laws.{update_tab_drag-twice}

abbrev held : TabDragState
held = record {
  source_pane = 0;
  source_index = 1;
  start_x = pos 10;
  start_y = pos 10;
  dragging = true;
  target_pane = none;
  target_index = none;
}

abbrev past_the_tabs : TabStripHit
past_the_tabs = record { pane = some 1; slot = none; in_viewport = true; tab_count = 3 }

abbrev over : TabDragState
over = record held { target_pane = some 1; target_index = some 3 }

appends : update_tab_drag held past_the_tabs ≡ (over, true)
unfolding update_tab_drag same_slot
appends = refl

hits_twice :
    let after = (update_tab_drag held past_the_tabs).0 in
    update_tab_drag after past_the_tabs ≡ (after, false)
hits_twice = update_tab_drag-twice held past_the_tabs

-- A press becomes a drag once the pointer has left the threshold.
begins : begin_tab_drag (record held { dragging = false }) (pos 15) (pos 10) (pos 4) ≡ (held, true)
unfolding begin_tab_drag ◌-ℤ◌
begins = refl

still_a_click :
    begin_tab_drag (record held { dragging = false }) (pos 14) (pos 6) (pos 4)
    ≡ (record held { dragging = false }, false)
unfolding begin_tab_drag ◌-ℤ◌
still_a_click = refl
