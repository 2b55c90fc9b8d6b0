-- ===== src/Reentry.antt =====
-- src/app_shell/deferred_messages.h and src/app_shell/shell_reentry_guard.h: what arrives during a Shell call.
--
-- Handles and messages are numbers. `held` and `posted` are the queue of the guard and the messages
-- that it posted, each oldest first. What Windows answers is a parameter that may
-- depend on what was posted before. `hold` catches an allocation failure in the source; the model's
-- lists have none.
pub mod Held
pub mod Replay
mod Tests
use pane_dock.Common.{
  ℕ, Bool, true, false, ◌&&◌, ◌||◌, List, [], ◌∷◌, ◌++◌, Option, none, some, not, ◌==◌,
  if◌then◌else◌, any, ℕ_discrete,
}
use pane_dock.Shutdown.{
  State, ShutdownAction, ShutdownEvent, step, is_shutting_down, shell_call_entered, shell_call_left,
  deferred_shutdown_queued, deferred_shutdown_queue_failed, defer,
}

pub record DeferredMessage : Type 0 where
  pub target : ℕ
  pub message : ℕ
  pub wparam : ℕ
  pub lparam : ℕ

-- The defaulted `operator==`.
abbrev pub same_message : DeferredMessage → DeferredMessage → Bool
same_message a b =
    (a.target == b.target)
    && (a.message == b.message)
    && (a.wparam == b.wparam)
    && (a.lparam == b.lparam)

-- The same target and message.
abbrev pub same_key : DeferredMessage → DeferredMessage → Bool
same_key a b = (a.target == b.target) && (a.message == b.message)

-- The loop over the entries: the first one with the key gets the payload.
pub overwrite : DeferredMessage → List DeferredMessage → List DeferredMessage
overwrite message [] = []
overwrite message (entry ∷ held) =
    let rest = overwrite message held in
    if same_key entry message
    then record entry { wparam = message.wparam; lparam = message.lparam } ∷ held
    else entry ∷ rest

pub hold_deferred_message :
    List DeferredMessage → DeferredMessage → Bool → List DeferredMessage × Bool
unfolding overwrite
hold_deferred_message held message replaces =
    if replaces
    then if any (λ entry. same_key entry message) held
      then (overwrite message held, false)
      else (held ++ message ∷ [], true)
    else if any (λ entry. same_message entry message) held
    then (held, false)
    else (held ++ message ∷ [], true)

-- The queue left, and what it held.
abbrev pub take_deferred_messages :
    List DeferredMessage → List DeferredMessage × List DeferredMessage
take_deferred_messages held = ([], held)

pub record ShellReentryEffects : Type 0 where
  pub window_alive : List DeferredMessage → ℕ → Bool
  pub post : List DeferredMessage → DeferredMessage → Bool
  pub shutdown_window : Option ℕ

-- `begun` is set where `begin_shutdown_now` is called.
pub record ShellReentryGuard : Type 0 where
  pub shutdown : State
  pub held : List DeferredMessage
  pub posted : List DeferredMessage
  pub begun : Bool

abbrev pub in_shell_call : ShellReentryGuard → Bool
in_shell_call guard = not (guard.shutdown.shell_call_depth == 0)

abbrev pub step_guard : ShutdownEvent → ShellReentryGuard → ShellReentryGuard
step_guard event guard = record guard { shutdown = (step guard.shutdown event).0 }

pub enter : ShellReentryGuard → ShellReentryGuard
enter guard = step_guard shell_call_entered guard

pub hold : ShellReentryGuard → DeferredMessage → Bool → ShellReentryGuard
unfolding hold_deferred_message
hold guard message replaces = record guard {
  held = (hold_deferred_message guard.held message replaces).0;
}

module _ (effects : ShellReentryEffects) where
  -- The loop over the batch; a message whose window is gone, or that Windows refuses, is dropped.
  pub replay : List DeferredMessage → List DeferredMessage → List DeferredMessage
  replay [] posted = posted
  replay (message ∷ pending) posted =
      let dropped = replay pending posted in
      let sent = replay pending (posted ++ message ∷ []) in
      if not (effects.window_alive posted message.target)
      then dropped
      else if effects.post posted message
      then sent
      else dropped

  pub replay_held : ShellReentryGuard → ShellReentryGuard
  unfolding replay
  replay_held guard =
      let (left, pending) = take_deferred_messages guard.held in
      if is_shutting_down guard.shutdown
      then record guard { held = left }
      else record guard { held = left; posted = replay pending guard.posted }

  -- `{window, deferred_shutdown_message, 0, 0}`.
  abbrev pub shutdown_post : ℕ → ℕ → DeferredMessage
  shutdown_post window message = record {
    target = window;
    message = message;
    wparam = 0;
    lparam = 0;
  }

  -- The end of `leave`, where the reducer defers and no message is queued.
  pub queue_shutdown : ℕ → ℕ → ShellReentryGuard → ShellReentryGuard
  queue_shutdown message window guard =
      let queued = step_guard deferred_shutdown_queued guard in
      if effects.post guard.posted (shutdown_post window message)
      then record queued { posted = guard.posted ++ shutdown_post window message ∷ [] }
      else record (step_guard deferred_shutdown_queue_failed queued) { begun = true }

  abbrev pub is_defer : ShutdownAction → Bool
  is_defer defer = true
  is_defer _ = false

  pub leave : ℕ → ShellReentryGuard → ShellReentryGuard
  unfolding replay_held queue_shutdown
  leave message guard =
      let left = step_guard shell_call_left guard in
      let replayed = if in_shell_call left then left else replay_held left in
      if not (is_defer (step guard.shutdown shell_call_left).1)
        || replayed.shutdown.shutdown_message_queued
      then replayed
      else elim effects.shutdown_window [
        | none ↦ replayed
        | some window ↦ queue_shutdown message window replayed
      ]
