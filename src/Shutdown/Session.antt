-- ===== src/Shutdown/Session.antt =====
-- A session end that the system takes back.
use pane_dock.Common.{◌≡◌, true, false, arith, ◌⊎◌}
use pane_dock.Shutdown.{end_session, end_session_cancelled, State, step}

-- Nothing of a close is under way.
pub record IsIdle (s : State) : Type 0 where
  pub not_closing : s.closing ≡ false
  pub not_deferred : s.shutdown_deferred ≡ false
  pub not_queued : s.shutdown_message_queued ≡ false
  pub no_prompt : s.shutdown_prompt_active ≡ false
  pub not_attempted : s.shutdown_save_attempted ≡ false
  pub no_close_after : s.close_after_file_operation ≡ false
  pub no_session_end : s.end_session_pending ≡ false
  pub no_owner : s.end_session_owns_close ≡ false

-- From an idle state a session end followed by its cancellation restores the whole state, but for
-- the remembered cancel flag, file operations included.
pub end_session-cancelled :
    (s : State)
    → IsIdle s
    → (step (step s end_session).0 end_session_cancelled).0
      ≡ record s { cancel_file_operation_before_end_session = s.cancel_file_operation }
unfolding step
end_session-cancelled s idle = ground arith

-- A cancelled session end never takes back a close that the user had started: what was deferred,
-- queued or attempted before the session end still is afterwards, and the cancel flag is back.
pub end_session_cancelled-keeps_close :
    (s : State)
    → s.end_session_pending ≡ false
    → s.closing ≡ false
    → (s.shutdown_deferred ≡ true) ⊎ (s.shutdown_save_attempted ≡ true)
    → let t = (step (step s end_session).0 end_session_cancelled).0 in
      ((s.shutdown_deferred ≡ false) ⊎ (t.shutdown_deferred ≡ true))
      × (t.shutdown_message_queued ≡ s.shutdown_message_queued)
      × (t.shutdown_save_attempted ≡ s.shutdown_save_attempted)
      × (t.cancel_file_operation ≡ s.cancel_file_operation)
      × (t.end_session_pending ≡ false)
unfolding step
end_session_cancelled-keeps_close s pending closing user = ground arith
