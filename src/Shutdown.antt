-- ===== src/Shutdown.antt =====
-- src/core/shutdown.h and src/core/shutdown.cpp: the reducer of the close sequence.
--
-- `State` is `ShutdownSequence::State`, `step` is `ShutdownSequence::step`; the member that the
-- source mutates is threaded, so a step returns the new state beside its action. The two counters
-- are `unsigned` (32 bits): an increment wraps, and the decrements stand behind a test for zero.
pub mod Invariant
pub mod Gates
pub mod Phases
pub mod Session
mod Tests
use pane_dock.Common.{
  ℕ, ◌+◌, ◌-◌, ◌%◌, ◌^◌, Bool, true, false, ◌&&◌, ◌||◌, List, [], ◌∷◌, ◌==◌, not, if◌then◌else◌,
}

pub data ShutdownEvent : Type 0 where
  close_requested end_session end_session_cancelled : ShutdownEvent
  drag_started drag_finished shell_call_entered shell_call_left : ShutdownEvent
  deferred_shutdown_queued deferred_shutdown_ready deferred_shutdown_queue_failed : ShutdownEvent
  file_operation_call_started file_operation_call_finished : ShutdownEvent
  file_operation_started file_operation_finished : ShutdownEvent
  transfer_keep_open transfer_close_after_transfer transfer_cancel_and_close : ShutdownEvent
  save_started save_succeeded save_failed : ShutdownEvent
  save_prompt_started save_prompt_finished save_keep_open save_discarded : ShutdownEvent
  teardown_started views_destroyed window_destroyed : ShutdownEvent

pub data ShutdownAction : Type 0 where
  nothing defer prompt_transfer prompt_save_failure save_session : ShutdownAction
  destroy_views destroy_window write_clean_marker request_quit : ShutdownAction

pub record State : Type 0 where
  pub quit_requested : Bool
  pub closing : Bool
  pub shutdown_prompt_active : Bool
  pub shutdown_save_attempted : Bool
  pub shutdown_clean_marker_armed : Bool
  pub main_window_destroyed : Bool
  pub end_session_pending : Bool
  pub end_session_owns_close : Bool
  pub cancel_file_operation_before_end_session : Bool
  pub shell_call_depth : ℕ
  pub shutdown_deferred : Bool
  pub shutdown_message_queued : Bool
  pub drag_target_count : ℕ
  pub drag_in_progress : Bool
  pub file_operation_call_active : Bool
  pub file_operation_in_progress : Bool
  pub close_after_file_operation : Bool
  pub cancel_file_operation : Bool

abbrev pub initial : State
initial = record {
  quit_requested = false;
  closing = false;
  shutdown_prompt_active = false;
  shutdown_save_attempted = false;
  shutdown_clean_marker_armed = false;
  main_window_destroyed = false;
  end_session_pending = false;
  end_session_owns_close = false;
  cancel_file_operation_before_end_session = false;
  shell_call_depth = 0;
  shutdown_deferred = false;
  shutdown_message_queued = false;
  drag_target_count = 0;
  drag_in_progress = false;
  file_operation_call_active = false;
  file_operation_in_progress = false;
  close_after_file_operation = false;
  cancel_file_operation = false;
}

-- `unsigned` arithmetic.
abbrev pub u32 : ℕ → ℕ
u32 n = n % 2 ^ 32

unfoldable pub is_shutting_down : State → Bool
is_shutting_down s = s.closing || s.shutdown_deferred

pub shutdown_ready_to_resume : State → Bool
shutdown_ready_to_resume s =
    s.shutdown_deferred
    && not s.shutdown_message_queued
    && not s.closing
    && (s.shell_call_depth == 0)
    && (s.drag_target_count == 0)

abbrev resume : State → State × ShutdownAction
resume s = (s, if shutdown_ready_to_resume s then defer else nothing)

request_close : State → State × ShutdownAction
request_close s =
    if s.closing || s.quit_requested || s.shutdown_deferred || s.shutdown_message_queued
      || s.shutdown_prompt_active || s.shutdown_save_attempted
    then (s, nothing)
    else if s.file_operation_in_progress
    then (record s { close_after_file_operation = true }, prompt_transfer)
    else (record s { shutdown_deferred = true }, defer)

-- What the first `end_session` notes before it acts.
note_end_session : State → State
note_end_session s = if s.end_session_pending then s else record s {
  end_session_owns_close =
      not s.closing
      && not s.shutdown_deferred
      && not s.shutdown_message_queued
      && not s.shutdown_prompt_active
      && not s.shutdown_save_attempted
      && not s.close_after_file_operation;
  cancel_file_operation_before_end_session = s.cancel_file_operation;
}

enter_end_session : State → State × ShutdownAction
enter_end_session s =
    if s.closing || s.quit_requested
    then (s, nothing)
    else if s.file_operation_call_active || s.file_operation_in_progress
    then (record s { close_after_file_operation = true; cancel_file_operation = true }, nothing)
    else if s.drag_in_progress
    then (record s { shutdown_deferred = true }, defer)
    else if s.shutdown_prompt_active || s.shutdown_save_attempted
    then (s, nothing)
    else if s.shutdown_deferred || s.shutdown_message_queued
    then (s, nothing)
    else (record s { shutdown_deferred = true }, defer)

-- What a cancelled session end takes back of a close that it started itself.
release_close : State → State
release_close s =
    if s.end_session_owns_close
    then record s {
      shutdown_deferred = false;
      shutdown_message_queued = false;
      shutdown_save_attempted = false;
      close_after_file_operation = false;
    }
    else s

cancel_end_session : State → State
unfolding release_close
cancel_end_session s =
    if not s.end_session_pending || s.closing then s else record (release_close s) {
      end_session_pending = false;
      cancel_file_operation = s.cancel_file_operation_before_end_session;
      end_session_owns_close = false;
    }

finish_drag : State → State × ShutdownAction
unfolding shutdown_ready_to_resume
finish_drag s =
    if s.drag_target_count == 0
    then (s, nothing)
    else resume (record s {
      drag_target_count = s.drag_target_count - 1;
      drag_in_progress = not ((s.drag_target_count - 1) == 0);
    })

leave_shell_call : State → State × ShutdownAction
unfolding shutdown_ready_to_resume
leave_shell_call s =
    if s.shell_call_depth == 0
    then (s, nothing)
    else resume (record s { shell_call_depth = s.shell_call_depth - 1 })

take_deferred_shutdown : State → State × ShutdownAction
take_deferred_shutdown s =
    if s.closing || not s.shutdown_deferred
    then (s, nothing)
    else if not (s.shell_call_depth == 0) || s.drag_in_progress
    then (record s { shutdown_message_queued = false }, nothing)
    else if s.shutdown_prompt_active || s.shutdown_save_attempted
    then (record s { shutdown_deferred = false; shutdown_message_queued = false }, nothing)
    else (
      record s {
        shutdown_deferred = false;
        shutdown_message_queued = false;
        shutdown_save_attempted = true;
      },
      save_session,
    )

start_teardown : State → State × ShutdownAction
start_teardown s = if s.closing then (s, nothing) else (
  record s {
    closing = true;
    quit_requested = true;
    end_session_pending = false;
    shutdown_deferred = false;
    shutdown_message_queued = false;
  },
  destroy_views,
)

unfoldable pub step : State → ShutdownEvent → State × ShutdownAction
unfolding request_close note_end_session enter_end_session cancel_end_session finish_drag
    leave_shell_call take_deferred_shutdown start_teardown
step s close_requested = request_close s
step s end_session = enter_end_session (record (note_end_session s) { end_session_pending = true })
step s end_session_cancelled = (cancel_end_session s, nothing)
step s drag_started = (
  record s { drag_target_count = u32 (s.drag_target_count + 1); drag_in_progress = true },
  nothing,
)
step s drag_finished = finish_drag s
step s shell_call_entered = (record s { shell_call_depth = u32 (s.shell_call_depth + 1) }, nothing)
step s shell_call_left = leave_shell_call s
step s deferred_shutdown_queued =
    (if s.shutdown_deferred then record s { shutdown_message_queued = true } else s, nothing)
step s deferred_shutdown_ready = take_deferred_shutdown s
step s deferred_shutdown_queue_failed =
    (record s { shutdown_deferred = false; shutdown_message_queued = false }, nothing)
step s file_operation_call_started = (
  record s {
    file_operation_call_active = true;
    file_operation_in_progress = false;
    close_after_file_operation = false;
    cancel_file_operation = false;
  },
  nothing,
)
step s file_operation_call_finished = (record s { file_operation_call_active = false }, nothing)
step s file_operation_started = (record s { file_operation_in_progress = true }, nothing)
step s file_operation_finished = (record s { file_operation_in_progress = false }, nothing)
step s transfer_keep_open =
    (record s { close_after_file_operation = false; cancel_file_operation = false }, nothing)
step s transfer_close_after_transfer =
    (record s { close_after_file_operation = true; cancel_file_operation = false }, nothing)
step s transfer_cancel_and_close =
    (record s { close_after_file_operation = true; cancel_file_operation = true }, nothing)
step s save_started = (record s { shutdown_save_attempted = true }, nothing)
step s save_succeeded = (record s { shutdown_clean_marker_armed = true }, destroy_views)
step s save_failed = (
  record s { shutdown_clean_marker_armed = false },
  if s.end_session_pending then destroy_views else prompt_save_failure,
)
step s save_prompt_started = (record s { shutdown_prompt_active = true }, nothing)
step s save_prompt_finished = (
  record s { shutdown_prompt_active = false },
  if s.end_session_pending then destroy_views else nothing,
)
step s save_keep_open = (
  record s {
    shutdown_prompt_active = false;
    shutdown_save_attempted = false;
    shutdown_clean_marker_armed = false;
  },
  nothing,
)
step s save_discarded = (record s { shutdown_prompt_active = false }, destroy_views)
step s teardown_started = start_teardown s
step s views_destroyed = (s, if s.closing then destroy_window else nothing)
step s window_destroyed = (
  record s { main_window_destroyed = true; quit_requested = true },
  if s.shutdown_clean_marker_armed then write_clean_marker else request_quit,
)

-- A history of events from a state.
unfoldable pub run : State → List ShutdownEvent → State
run s [] = s
run s (e ∷ es) = run (step s e).0 es
