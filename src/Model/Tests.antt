-- ===== src/Model/Tests.antt =====
-- Runs on small values.
use pane_dock.Common.{true, ◌≡◌, ◌↔◌}
use pane_dock.Model.{is_valid}
use pane_dock.Model.Sound.{IsSound, is_valid-IsSound}
use pane_dock.Model.Samples.{application}

is_valid-IsSound_example : (is_valid application ≡ true) ↔ IsSound application
is_valid-IsSound_example = is_valid-IsSound application
