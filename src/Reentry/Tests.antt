-- ===== src/Reentry/Tests.antt =====
-- A click held in a Shell call.
use pane_dock.Common.{
  ℕ, ◌-◌, Bool, true, false, List, [], ◌∷◌, ◌++◌, some, ◌≡◌, refl, any, ◌==◌, arith,
}
use pane_dock.Shutdown.{initial, is_shutting_down}
use pane_dock.Reentry.{
  DeferredMessage, ShellReentryEffects, ShellReentryGuard, same_message, hold_deferred_message,
  in_shell_call, leave,
}
use pane_dock.Reentry.Held.{IsQueue, hold_deferred_message-IsQueue}
use pane_dock.Reentry.Replay.{Delivers, leave-inner, leave-outermost}

abbrev message_at : ℕ → ℕ → ℕ → DeferredMessage
message_at target message lparam = record {
  target = target;
  message = message;
  wparam = 0;
  lparam = lparam;
}

abbrev is_click : ℕ → Bool
is_click message = message == 513

abbrev clicks : List DeferredMessage
clicks = message_at 1 513 7 ∷ message_at 1 273 0 ∷ []

clicks-IsQueue : IsQueue is_click clicks
clicks-IsQueue = ((refl, tt), (tt, tt))

hold_deferred_message-IsQueue_example :
    let (after, is_new) = hold_deferred_message clicks (message_at 1 513 9) true in
    IsQueue is_click after × (any (λ entry. same_message entry (message_at 1 513 9)) after ≡ true)
hold_deferred_message-IsQueue_example =
    hold_deferred_message-IsQueue is_click clicks (message_at 1 513 9) clicks-IsQueue

abbrev delivering : ShellReentryEffects
delivering = record {
  window_alive = λ posted target. true;
  post = λ posted message. true;
  shutdown_window = some 1;
}

delivering-Delivers : Delivers delivering
delivering-Delivers = record { alive = λ posted target. refl; accepted = λ posted message. refl }

abbrev inner : ShellReentryGuard
inner = record {
  shutdown = record initial { shell_call_depth = 2 };
  held = clicks;
  posted = [];
  begun = false;
}

abbrev outermost : ShellReentryGuard
outermost = record inner { shutdown = record initial { shell_call_depth = 1 } }

abbrev closing : ShellReentryGuard
closing = record inner {
  shutdown = record initial { shell_call_depth = 1; shutdown_deferred = true };
}

leaves_inner :
    leave delivering 32768 inner
    ≡ record inner { shutdown = record inner.shutdown { shell_call_depth = 2 - 1 } }
leaves_inner = leave-inner delivering 32768 inner (omega arith)

leave-outermost_example :
    let after = leave delivering 32768 outermost in
    (after.posted ≡ [] ++ clicks)
    × (after.held ≡ [])
    × (after.begun ≡ false)
    × (in_shell_call after ≡ false)
unfolding is_shutting_down
leave-outermost_example = leave-outermost delivering 32768 outermost delivering-Delivers refl refl
