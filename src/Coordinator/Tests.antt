-- ===== src/Coordinator/Tests.antt =====
-- Runs against two worlds: one that answers yes, and one where no post lands.
use pane_dock.Common.{◌≡◌, refl, Bool, true, false, List, [], ◌∷◌, none, arith}
use pane_dock.Shutdown.{initial}
use pane_dock.Shutdown.Gates.{MaySave}
use pane_dock.Shutdown.Session.{IsIdle}
use pane_dock.Coordinator.{
  Effect, World, Coordinator, start, ask_keep_open_after_save_failure, write_end_session_checkpoint,
  request_close, end_session_confirmed, calls, call, asks_close, readies,
}
use pane_dock.Coordinator.Rule.{Ensures}
use pane_dock.Coordinator.Order.{IsOrdered, calls-IsOrdered}
use pane_dock.Coordinator.Total.{Returns, call_total}
use pane_dock.Coordinator.Outcome.{
  IsJammed, request_close_jammed, Follows, end_session_confirmed-checkpoint,
}

abbrev agreeing : World
agreeing = record {
  has_window = λ h. true;
  window_alive = λ h. true;
  answer = λ h. true;
  during = λ h. [];
}

-- Nothing succeeds but the question, which is answered with yes.
abbrev keeping_answer : List Effect → Bool
keeping_answer (ask_keep_open_after_save_failure ∷ h) = true
keeping_answer _ = false

abbrev keeping : World
keeping = record agreeing { answer = keeping_answer }

abbrev refusing : World
refusing = record agreeing { answer = λ h. false }

abbrev deferred : Coordinator
deferred = record start {
  sequence = record initial { shutdown_deferred = true; shutdown_message_queued = true };
}

deferred-MaySave : MaySave deferred.sequence
deferred-MaySave = record {
  not_closing = refl;
  deferred = refl;
  no_shell_call = refl;
  no_drag = refl;
  no_prompt = refl;
  not_attempted = refl;
}

calls-IsOrdered_example :
    Ensures IsOrdered (calls agreeing 5 (asks_close ∷ readies ∷ readies ∷ []) start)
calls-IsOrdered_example = calls-IsOrdered agreeing 5 (asks_close ∷ readies ∷ readies ∷ [])

call_total_example : Returns (call agreeing 4 asks_close start)
call_total_example = call_total agreeing 0 (λ h k. refl) 0 asks_close start (omega arith)

refusing-IsJammed : IsJammed refusing
refusing-IsJammed = record {
  window = λ h. refl;
  alive = λ h. refl;
  full = λ h. refl;
  quiet = λ h. refl;
}

initial-IsIdle : IsIdle initial
initial-IsIdle = record {
  not_closing = refl;
  not_deferred = refl;
  not_queued = refl;
  no_prompt = refl;
  not_attempted = refl;
  no_close_after = refl;
  no_session_end = refl;
  no_owner = refl;
}

request_close_jammed_example : request_close refusing 100 start ≡ none
request_close_jammed_example =
    request_close_jammed refusing refusing-IsJammed 100 start initial-IsIdle refl refl refl

end_session_confirmed-checkpoint_example :
    Ensures
      (λ d. Follows (write_end_session_checkpoint ∷ []) d.trace)
      (end_session_confirmed agreeing 3 start)
end_session_confirmed-checkpoint_example = end_session_confirmed-checkpoint agreeing 3 start
