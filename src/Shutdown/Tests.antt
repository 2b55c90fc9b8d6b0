-- ===== src/Shutdown/Tests.antt =====
-- Runs of the reducer.
use pane_dock.Common.{any, ◌<◌, ◌≡◌, ◌&&◌, ◌↔◌, refl, true, false, List, [], ◌∷◌, arith}
use pane_dock.Shutdown.{
  ShutdownEvent, State, initial, step, run, shutdown_ready_to_resume, close_requested, end_session,
  end_session_cancelled, drag_started, drag_finished, deferred_shutdown_ready, teardown_started,
  views_destroyed, shell_call_left, nothing, defer, save_session, destroy_views,
}
use pane_dock.Shutdown.Invariant.{IsConsistent, run-initial-IsConsistent}
use pane_dock.Shutdown.Gates.{MaySave, step-save_session_iff, step-defers}
use pane_dock.Shutdown.Phases.{
  run-teardown_once, is_destroy_window, is_views_destroyed, is_teardown,
}
use pane_dock.Shutdown.Session.{IsIdle, end_session-cancelled}

abbrev close_events : List ShutdownEvent
close_events = drag_started ∷ close_requested ∷ drag_finished ∷ []

-- A close that was deferred inside a Shell call.
abbrev held_back : State
held_back = record initial { shutdown_deferred = true; shell_call_depth = 1 }

abbrev deferred : State
deferred = record initial { shutdown_deferred = true }

run-initial-IsConsistent_example :
    IsConsistent (run initial close_events)
    × (((run initial close_events).drag_in_progress ≡ true)
        ↔ (0 < (run initial close_events).drag_target_count))
run-initial-IsConsistent_example = run-initial-IsConsistent close_events (omega arith)

step-save_session_iff_example :
    ((step deferred deferred_shutdown_ready).1 ≡ save_session)
    ↔ ((deferred_shutdown_ready ≡ deferred_shutdown_ready) × MaySave deferred)
step-save_session_iff_example = step-save_session_iff deferred deferred_shutdown_ready

held_back-IsConsistent : IsConsistent held_back
held_back-IsConsistent = record {
  queued_deferred = λ e. refl;
  closing_quits = λ e. ground (arith, e);
  closing_settled = λ e. ground (arith, e);
  destroyed_quits = λ e. ground (arith, e);
  counted_drags = λ h. ground (arith, h);
  owner_pending = λ e c. ground (arith, e);
}

step-defers_example : (step held_back shell_call_left).1 ≡ defer
unfolding step shutdown_ready_to_resume
step-defers_example =
    step-defers held_back shell_call_left held_back-IsConsistent (λ e. ground (arith, e))
      (omega arith) (omega arith) refl refl

abbrev torn_down : List ShutdownEvent
torn_down = drag_started ∷ teardown_started ∷ drag_finished ∷ []

run-teardown_once_example :
    let t = run (step initial teardown_started).0 torn_down in
    ((step initial teardown_started).1 ≡ destroy_views)
    × (step t teardown_started ≡ (t, nothing))
    × (is_destroy_window (step (run initial torn_down) views_destroyed).1
        ≡ (is_views_destroyed views_destroyed && any is_teardown torn_down))
run-teardown_once_example = run-teardown_once initial torn_down views_destroyed refl

initial-IsIdle : IsIdle initial
initial-IsIdle = record {
  not_closing = refl;
  not_deferred = refl;
  not_queued = refl;
  no_prompt = refl;
  not_attempted = refl;
  no_close_after = refl;
  no_session_end = refl;
  no_owner = refl;
}

end_session-cancelled_example :
    (step (step initial end_session).0 end_session_cancelled).0
    ≡ record initial { cancel_file_operation_before_end_session = false }
end_session-cancelled_example = end_session-cancelled initial initial-IsIdle
