-- ===== src/Reentry/Replay.antt =====
-- What the end of a Shell call posts.
use pane_dock.Common.{
  ℕ, ◌-◌, ◌<◌, ◌≡◌, sym, ◌∙◌, true, false, List, [], ◌∷◌, ◌++◌, Option, none, some, arith,
  Option-cases, ◌⊎◌, inl, inr,
}
use mathlib.Core.List.{append_assoc, append-nil}
use pane_dock.Shutdown.{is_shutting_down}
use pane_dock.Shutdown.Gates.{step-shell_call_left}
use pane_dock.Reentry.{
  DeferredMessage, ShellReentryEffects, ShellReentryGuard, in_shell_call, replay, replay_held,
  leave, queue_shutdown, shutdown_post,
}

-- Windows delivers whatever is posted: every window is alive and no queue is full.
pub record Delivers (effects : ShellReentryEffects) : Type 0 where
  pub alive :
      (posted : List DeferredMessage) (target : ℕ) → effects.window_alive posted target ≡ true
  pub accepted :
      (posted : List DeferredMessage) (message : DeferredMessage)
      → effects.post posted message ≡ true

replay-all :
    (effects : ShellReentryEffects)
    → Delivers effects
    → (pending posted : List DeferredMessage) → replay effects pending posted ≡ posted ++ pending
unfolding replay
replay-all effects d [] posted = sym (append-nil posted)
replay-all effects d (m ∷ pending) posted =
    rw (d.alive posted m.target, d.accepted posted m)
      (replay-all effects d pending (posted ++ m ∷ []) ∙ append_assoc posted (m ∷ []) pending)

-- Leaving an inner Shell call only lowers the depth: nothing held is released and nothing is posted.
pub leave-inner :
    (effects : ShellReentryEffects) (message : ℕ) (guard : ShellReentryGuard)
    → 1 < guard.shutdown.shell_call_depth
    → leave effects message guard ≡ record guard {
      shutdown = record guard.shutdown { shell_call_depth = guard.shutdown.shell_call_depth - 1 };
    }
unfolding leave
leave-inner effects message guard h =
    let (after, outer, quiet) = step-shell_call_left guard.shutdown (omega arith) in
    ground (arith, after, outer)

-- Leaving the outermost Shell call with no shutdown under way posts everything that was held, in
-- order and once, when Windows delivers it, and leaves the queue empty.
pub leave-outermost :
    (effects : ShellReentryEffects) (message : ℕ) (guard : ShellReentryGuard)
    → Delivers effects
    → guard.shutdown.shell_call_depth ≡ 1
    → is_shutting_down guard.shutdown ≡ false
    → let after = leave effects message guard in
      (after.posted ≡ guard.posted ++ guard.held)
      × (after.held ≡ [])
      × (after.begun ≡ guard.begun)
      × (in_shell_call after ≡ false)
unfolding leave replay_held is_shutting_down
leave-outermost effects message guard d h live =
    let (after, outer, quiet) = step-shell_call_left guard.shutdown (omega arith) in
    ground (arith, after, outer, quiet, replay-all effects d guard.held guard.posted)

-- The message that resumes a shutdown, if there is a window for it.
abbrev pub resuming : ShellReentryEffects → ℕ → Option ℕ → List DeferredMessage
resuming effects message none = []
resuming effects message (some window) = shutdown_post effects window message ∷ []

-- Leaving the outermost Shell call with a shutdown under way drops everything that was held: at most
-- the message that resumes the shutdown is posted.
pub leave-shutting_down :
    (effects : ShellReentryEffects) (message : ℕ) (guard : ShellReentryGuard)
    → guard.shutdown.shell_call_depth ≡ 1
    → is_shutting_down guard.shutdown ≡ true
    → let after = leave effects message guard in
      (after.held ≡ [])
      × ((after.posted ≡ guard.posted)
          ⊎ (after.posted ≡ guard.posted ++ resuming effects message effects.shutdown_window))
unfolding leave replay_held is_shutting_down queue_shutdown
leave-shutting_down effects message guard h closing =
    let (after, outer, quiet) = step-shell_call_left guard.shutdown (omega arith) in
    elim (Option-cases effects.shutdown_window) [
      | inl absent ↦ ground (arith, after, outer, quiet)
      | inr (window, at) ↦ ground (arith, after, outer, quiet)
    ]
