-- ===== src/Shutdown/Gates.antt =====
-- The gates that hold a close back: when the save may start, and that no close is stranded.
use pane_dock.Common.{◌+◌, ◌^◌, ◌<◌, ◌≡◌, ◌↔◌, refl, true, false, arith, ◌-◌, ◌⊎◌}
use pane_dock.Shutdown.{
  ShutdownEvent, deferred_shutdown_ready, save_session, shell_call_left, nothing, defer, State,
  step, shutdown_ready_to_resume,
}
use pane_dock.Shutdown.Invariant.{IsConsistent}

-- What lets the posted continuation start the save.
pub record MaySave (s : State) : Type 0 where
  pub not_closing : s.closing ≡ false
  pub deferred : s.shutdown_deferred ≡ true
  pub no_shell_call : s.shell_call_depth ≡ 0
  pub no_drag : s.drag_in_progress ≡ false
  pub no_prompt : s.shutdown_prompt_active ≡ false
  pub not_attempted : s.shutdown_save_attempted ≡ false

-- The session is saved by the posted continuation alone, and exactly when no teardown has begun,
-- a shutdown is deferred, no Shell call and no drag is active, no save prompt is up and no save has
-- been attempted.
pub step-save_session_iff :
    (s : State) (e : ShutdownEvent)
    → ((step s e).1 ≡ save_session) ↔ ((e ≡ deferred_shutdown_ready) × MaySave s)
unfolding step
step-save_session_iff s deferred_shutdown_ready = (λ h. (refl, ground arith), λ h. ground arith)
step-save_session_iff s _ = (λ h. absurd (ground arith), λ h. absurd (ground arith))

-- No deferred shutdown is stranded: an event after which one is due (deferred, not queued, every
-- gate clear), where none was due before, answers `defer`, so that its continuation is posted. The
-- state is consistent, its drag flag is exact and its two counters are below their last value.
pub step-defers :
    (s : State) (e : ShutdownEvent)
    → IsConsistent s
    → (s.drag_in_progress ≡ true → 0 < s.drag_target_count)
    → s.drag_target_count + 1 < 2 ^ 32
    → s.shell_call_depth + 1 < 2 ^ 32
    → shutdown_ready_to_resume s ≡ false
    → shutdown_ready_to_resume (step s e).0 ≡ true
    → (step s e).1 ≡ defer
unfolding step shutdown_ready_to_resume
step-defers s deferred_shutdown_ready c d drags calls before after = ground arith
step-defers s _ c d drags calls before after = ground arith

-- Leaving a Shell call lowers the depth, and changes nothing else. It asks to resume a close only where
-- one was deferred and the call was the outermost one.
pub step-shell_call_left :
    (s : State)
    → 0 < s.shell_call_depth
    → ((step s shell_call_left).0 ≡ record s { shell_call_depth = s.shell_call_depth - 1 })
      × ((s.shell_call_depth ≡ 1) ⊎ ((step s shell_call_left).1 ≡ nothing))
      × (s.shutdown_deferred ≡ false → (step s shell_call_left).1 ≡ nothing)
unfolding step shutdown_ready_to_resume
step-shell_call_left s h = ground arith
