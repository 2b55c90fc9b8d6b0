-- ===== src/Realization/Tests.antt =====
-- A group of two panes, one of which has a view.
use pane_dock.Common.{true, ◌&&◌, ◌||◌, [], ◌∷◌, ◌≡◌, not, ltb, ◌==◌, arith}
use pane_dock.Model.{left_right}
use pane_dock.Model.Samples.{first_group}
use pane_dock.Realization.{
  startup_deferred, allow_realize, defer_non_active, is_realized, visible_count, active_pane,
  plan_realization,
}
use pane_dock.Realization.Outcome.{realized_after, plan_realization-outcome}

plan_realization-outcome_example :
    realized_after
      (true ∷ [])
      (plan_realization first_group left_right (true ∷ []) startup_deferred)
      1
    ≡ (ltb 1 (visible_count first_group left_right)
        && (is_realized (true ∷ []) 1
            || (allow_realize startup_deferred
                && (not (defer_non_active startup_deferred) || (1 == active_pane first_group)))))
plan_realization-outcome_example =
    plan_realization-outcome first_group left_right (true ∷ []) startup_deferred 1 (omega arith)
