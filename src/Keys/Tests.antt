-- ===== src/Keys/Tests.antt =====
-- Runs of the routing.
use pane_dock.Common.{◌⊎◌, true, false, ◌≡◌, arith}
use pane_dock.Keys.{KeyInput, key_down, virtual_key_delete, resolve_key, step_pane}
use pane_dock.Keys.Laws.{NamesPane, is_delete, IsPlainDelete, resolve_key-guards, step_pane-home}

abbrev delete_key : KeyInput
delete_key = record {
  message = key_down;
  virtual_key = virtual_key_delete;
  control = false;
  alt = false;
  shift = false;
  address_bar_focused = false;
  list_focused = true;
  sidebar_focused = false;
  active_pane = 2;
  pane_count = 3;
}

resolve_key-guards_example :
    NamesPane delete_key.pane_count (resolve_key delete_key)
    × ((is_delete (resolve_key delete_key).action ≡ false)
        ⊎ ((delete_key.list_focused ≡ true) × IsPlainDelete delete_key))
resolve_key-guards_example = resolve_key-guards delete_key

comes_home :
    let next = (step_pane delete_key false).target_pane in
    let previous = (step_pane delete_key true).target_pane in
    ((step_pane (record delete_key { active_pane = next }) true).target_pane ≡ 2)
    × ((step_pane (record delete_key { active_pane = previous }) false).target_pane ≡ 2)
comes_home = step_pane-home delete_key (omega arith)
