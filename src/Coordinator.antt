-- ===== src/Coordinator.antt =====
-- src/core/shutdown_coordinator.h and src/core/shutdown_coordinator.cpp: the order of the shutdown effects.
--
-- `ShutdownEffects` is an interface that the app implements, so it is the parameter `World`: what an
-- effect answers may depend on every effect before it, and while an effect runs (a modal prompt, a
-- Shell teardown that pumps messages) outside events may reach the reducer. `run` calls itself
-- through `request_close` when a post fails, so it recurs on fuel; `none` means that it ran out.
pub mod Rule
pub mod Order
pub mod Total
pub mod Outcome
mod Tests
use pane_dock.Common.{
  ℕ, zero, suc, Bool, true, false, ◌&&◌, ◌||◌, List, [], ◌∷◌, Option, none, some, ◌==◌, not,
  if◌then◌else◌,
}
use pane_dock.Shutdown.{ShutdownEvent, ShutdownAction, State, initial, step, is_shutting_down}
use pane_dock.Shutdown

-- The calls of `ShutdownEffects` that do something, and the modal question.
pub data Effect : Type 0 where
  show_closing_caption : Bool → Effect
  post_deferred_shutdown : Effect
  show_transfer_prompt dismiss_transfer_prompt : Effect
  save_session write_end_session_checkpoint : Effect
  ask_keep_open_after_save_failure : Effect
  destroy_views : Bool → Effect
  destroy_window : Effect

-- What others than the coordinator tell the reducer.
pub data Outside : Type 0 where
  closes ends_session cancels_session_end : Outside
  drags leaves_drag enters_shell_call leaves_shell_call : Outside
  queues_shutdown fails_to_queue : Outside
  calls_operation leaves_operation starts_operation finishes_operation : Outside
  keeps_open closes_after cancels_and_closes : Outside
  starts_save destroys_window : Outside

abbrev pub event : Outside → ShutdownEvent
event closes = Shutdown.close_requested
event ends_session = Shutdown.end_session
event cancels_session_end = Shutdown.end_session_cancelled
event drags = Shutdown.drag_started
event leaves_drag = Shutdown.drag_finished
event enters_shell_call = Shutdown.shell_call_entered
event leaves_shell_call = Shutdown.shell_call_left
event queues_shutdown = Shutdown.deferred_shutdown_queued
event fails_to_queue = Shutdown.deferred_shutdown_queue_failed
event calls_operation = Shutdown.file_operation_call_started
event leaves_operation = Shutdown.file_operation_call_finished
event starts_operation = Shutdown.file_operation_started
event finishes_operation = Shutdown.file_operation_finished
event keeps_open = Shutdown.transfer_keep_open
event closes_after = Shutdown.transfer_close_after_transfer
event cancels_and_closes = Shutdown.transfer_cancel_and_close
event starts_save = Shutdown.save_started
event destroys_window = Shutdown.window_destroyed

-- The app behind the interface. A list of effects is the history, newest first.
pub record World : Type 0 where
  pub has_window : List Effect → Bool
  pub window_alive : List Effect → Bool
  pub answer : List Effect → Bool
  pub during : List Effect → List Outside

pub record Coordinator : Type 0 where
  pub sequence : State
  pub trace : List Effect

abbrev pub start : Coordinator
start = record { sequence = initial; trace = [] }

pub data TransferChoice : Type 0 where
  keep_open close_after_transfer cancel_and_close : TransferChoice

-- `sequence_.step(event)` with the action dropped.
abbrev pub tell : Coordinator → ShutdownEvent → Coordinator
tell c e = record c { sequence = (step c.sequence e).0 }

-- `sequence_.step(event)` with its action.
abbrev pub ask : Coordinator → ShutdownEvent → ShutdownAction
ask c e = (step c.sequence e).1

abbrev pub is_defer : ShutdownAction → Bool
is_defer ShutdownAction.defer = true
is_defer _ = false

-- `begin(!end_session_pending)`: the event that a close is fed to the reducer as.
abbrev pub close_event : Bool → ShutdownEvent
close_event true = Shutdown.end_session
close_event false = Shutdown.close_requested

-- The event that reports a write.
abbrev pub save_event : Bool → ShutdownEvent
save_event true = Shutdown.save_succeeded
save_event false = Shutdown.save_failed

abbrev pub drag_event : Bool → ShutdownEvent
drag_event true = Shutdown.drag_started
drag_event false = Shutdown.drag_finished

pub hear : State → List Outside → State
hear s [] = s
hear s (o ∷ os) = hear (step s (event o)).0 os

module _ (w : World) where
  -- One effect, with what happens while it runs.
  pub perform : Effect → Coordinator → Coordinator
  perform e c = record { sequence = hear c.sequence (w.during (e ∷ c.trace)); trace = e ∷ c.trace }

  -- The answer to the effect performed last.
  abbrev pub answered : Coordinator → Bool
  answered c = w.answer c.trace

  pub finish : Coordinator → Coordinator
  unfolding perform
  finish c =
      let ending = c.sequence.end_session_pending in
      let begun = tell c Shutdown.teardown_started in
      let gone = perform (destroy_views ending) begun in
      elim (ask c Shutdown.teardown_started) [
        | ShutdownAction.destroy_views ↦ elim (ask gone Shutdown.views_destroyed) [
          | ShutdownAction.destroy_window ↦
              perform destroy_window (tell gone Shutdown.views_destroyed)
          | _ ↦ tell gone Shutdown.views_destroyed
        ]
        | _ ↦ begun
      ]

  -- `request_close`, and `begin` in it, with what runs the action.
  abbrev pub request_close_by :
      (ShutdownAction → Coordinator → Option Coordinator) → Coordinator → Option Coordinator
  request_close_by go c =
      let e = close_event c.sequence.end_session_pending in go (ask c e) (tell c e)

  -- The case `defer` of `run`, from its last test up.
  pub retry_close :
      (ShutdownAction → Coordinator → Option Coordinator) → Bool → Coordinator → Option Coordinator
  retry_close go true c = request_close_by go c
  retry_close go false c = some c

  pub after_post :
      (ShutdownAction → Coordinator → Option Coordinator) → Bool → Coordinator → Option Coordinator
  unfolding retry_close
  after_post go true c = some c
  after_post go false c =
      let failed = tell c Shutdown.deferred_shutdown_queue_failed in
      retry_close go (w.window_alive failed.trace) failed

  pub post_close :
      (ShutdownAction → Coordinator → Option Coordinator) → Bool → Coordinator → Option Coordinator
  unfolding after_post perform
  post_close go true c = some c
  post_close go false c =
      let posted = perform post_deferred_shutdown (tell c Shutdown.deferred_shutdown_queued) in
      after_post go (answered posted) posted

  abbrev pub cannot_post : Coordinator → Bool
  cannot_post c =
      not (c.sequence.shell_call_depth == 0)
      || c.sequence.shutdown_message_queued
      || not (w.has_window c.trace)

  pub run_defer :
      (ShutdownAction → Coordinator → Option Coordinator) → Coordinator → Option Coordinator
  unfolding post_close perform
  run_defer go c =
      let shown = perform (show_closing_caption true) c in post_close go (cannot_post shown) shown

  -- The case `save_session` of `run`.
  pub run_save_session :
      (ShutdownAction → Coordinator → Option Coordinator) → Coordinator → Option Coordinator
  unfolding perform
  run_save_session go c =
      let saved = perform save_session c in
      let e = save_event (answered saved) in go (ask saved e) (tell saved e)

  -- The case `prompt_save_failure` of `run`.
  pub settle_prompt :
      (ShutdownAction → Coordinator → Option Coordinator)
      → ShutdownAction
      → Bool
      → Coordinator
      → Option Coordinator
  unfolding perform finish
  settle_prompt go ShutdownAction.destroy_views keep c = some (finish c)
  settle_prompt go _ true c =
      some (perform (show_closing_caption false) (tell c Shutdown.save_keep_open))
  settle_prompt go _ false c = go (ask c Shutdown.save_discarded) (tell c Shutdown.save_discarded)

  pub run_prompt_save_failure :
      (ShutdownAction → Coordinator → Option Coordinator) → Coordinator → Option Coordinator
  unfolding settle_prompt perform
  run_prompt_save_failure go c =
      let asked = perform ask_keep_open_after_save_failure (tell c Shutdown.save_prompt_started) in
      settle_prompt go (ask asked Shutdown.save_prompt_finished) (answered asked)
        (tell asked Shutdown.save_prompt_finished)

  pub run : ℕ → ShutdownAction → Coordinator → Option Coordinator
  unfolding perform finish run_defer run_save_session run_prompt_save_failure
  run zero a c = none
  run (suc n) ShutdownAction.defer c = run_defer (run n) c
  run (suc n) ShutdownAction.prompt_transfer c = some (perform show_transfer_prompt c)
  run (suc n) ShutdownAction.save_session c = run_save_session (run n) c
  run (suc n) ShutdownAction.prompt_save_failure c = run_prompt_save_failure (run n) c
  run (suc n) ShutdownAction.destroy_views c = some (finish c)
  run (suc n) _ c = some c

  module _ (n : ℕ) where
    pub request_close : Coordinator → Option Coordinator
    request_close c = request_close_by (run n) c

    pub deferred_shutdown_ready : Coordinator → Option Coordinator
    deferred_shutdown_ready c =
        run n (ask c Shutdown.deferred_shutdown_ready) (tell c Shutdown.deferred_shutdown_ready)

    pub drag_changed : Bool → Coordinator → Option Coordinator
    drag_changed entering c =
        let e = drag_event entering in
        if is_defer (ask c e) then run n ShutdownAction.defer (tell c e) else some (tell c e)

    pub complete_deferred_close : Coordinator → Option Coordinator
    unfolding perform request_close
    complete_deferred_close c =
        let s = c.sequence in
        if not s.close_after_file_operation
          || s.file_operation_call_active
          || s.file_operation_in_progress
          || s.closing
          || not (w.has_window c.trace)
        then some c
        else request_close (perform dismiss_transfer_prompt c)

    pub transfer_chosen : TransferChoice → Coordinator → Option Coordinator
    unfolding complete_deferred_close
    transfer_chosen keep_open c = some (tell c Shutdown.transfer_keep_open)
    transfer_chosen close_after_transfer c =
        complete_deferred_close (tell c Shutdown.transfer_close_after_transfer)
    transfer_chosen cancel_and_close c = some (tell c Shutdown.transfer_cancel_and_close)

    pub end_session_confirmed : Coordinator → Option Coordinator
    unfolding perform
    end_session_confirmed c =
        let action = ask c Shutdown.end_session in
        let written = perform write_end_session_checkpoint (tell c Shutdown.end_session) in
        let s = written.sequence in
        let attempted = tell written Shutdown.save_started in
        let outcome = save_event (answered written) in
        if s.closing || not (is_defer action) || not (s.shell_call_depth == 0) || s.drag_in_progress
        then some written
        else run n (ask attempted outcome) (tell attempted outcome)

  pub end_session_cancelled : Coordinator → Coordinator
  unfolding perform is_shutting_down
  end_session_cancelled c =
      let cancelled = tell c Shutdown.end_session_cancelled in
      if c.sequence.end_session_pending && not (is_shutting_down cancelled.sequence)
      then perform (show_closing_caption false) cancelled
      else cancelled

-- What reaches the coordinator: its own calls, and the events that others tell the reducer.
pub data Call : Type 0 where
  asks_close readies confirms_session_end cancels_end : Call
  changes_drag : Bool → Call
  completes : Call
  chooses : TransferChoice → Call
  tells : Outside → Call

module _ (w : World) (n : ℕ) where
  pub call : Call → Coordinator → Option Coordinator
  call asks_close c = request_close w n c
  call readies c = deferred_shutdown_ready w n c
  call confirms_session_end c = end_session_confirmed w n c
  call cancels_end c = some (end_session_cancelled w c)
  call (changes_drag entering) c = drag_changed w n entering c
  call completes c = complete_deferred_close w n c
  call (chooses choice) c = transfer_chosen w n choice c
  call (tells o) c = some (tell c (event o))

  abbrev pub and_then : Option Coordinator → (Coordinator → Option Coordinator) → Option Coordinator
  and_then none k = none
  and_then (some c) k = k c

  pub calls : List Call → Coordinator → Option Coordinator
  calls [] c = some c
  calls (x ∷ xs) c = and_then (call x c) (calls xs)
