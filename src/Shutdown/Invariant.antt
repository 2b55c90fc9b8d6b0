-- ===== src/Shutdown/Invariant.antt =====
-- What holds of the reducer's state after any history of events.
use pane_dock.Common.{
  ℕ, suc, ◌+◌, ◌^◌, ◌≤◌, ◌<◌, ◌≡◌, refl, true, false, List, [], ◌∷◌, arith, if◌then◌else◌, Bool,
  ◌↔◌,
}
use pane_dock.Shutdown.{ShutdownEvent, drag_started, State, initial, step, run}

pub record IsConsistent (s : State) : Type 0 where
  pub queued_deferred : s.shutdown_message_queued ≡ true → s.shutdown_deferred ≡ true
  pub closing_quits : s.closing ≡ true → s.quit_requested ≡ true
  pub closing_settled : s.closing ≡ true → s.shutdown_deferred ≡ false
  pub destroyed_quits : s.main_window_destroyed ≡ true → s.quit_requested ≡ true
  pub counted_drags : 0 < s.drag_target_count → s.drag_in_progress ≡ true
  pub owner_pending :
      s.end_session_owns_close ≡ true → s.closing ≡ false → s.end_session_pending ≡ true

-- Every event keeps the invariant, in every state.
pub step-IsConsistent : (s : State) (e : ShutdownEvent) → IsConsistent s → IsConsistent (step s e).0
unfolding step
step-IsConsistent s drag_started c = ground arith
step-IsConsistent s _ c = ground arith

pub run-IsConsistent :
    (s : State) (es : List ShutdownEvent) → IsConsistent s → IsConsistent (run s es)
unfolding run
run-IsConsistent s [] c = c
run-IsConsistent s (e ∷ es) c = run-IsConsistent (step s e).0 es (step-IsConsistent s e c)

pub initial-IsConsistent : IsConsistent initial
initial-IsConsistent = ground arith

-- The drag flag and the drag counter agree, and the counter has not wrapped after `n` entries.
pub record HasExactDrags (n : ℕ) (s : State) : Type 0 where
  pub exact : s.drag_in_progress ≡ true → 0 < s.drag_target_count
  pub entered : s.drag_target_count ≤ n

abbrev pub is_drag_start : ShutdownEvent → Bool
is_drag_start drag_started = true
is_drag_start _ = false

abbrev pub drag_starts : List ShutdownEvent → ℕ
drag_starts [] = 0
drag_starts (e ∷ es) = if is_drag_start e then suc (drag_starts es) else drag_starts es

step-HasExactDrags :
    (n m : ℕ) (s : State) (e : ShutdownEvent)
    → HasExactDrags n s
    → n + 1 < 2 ^ 32
    → (if is_drag_start e then suc n else n) ≡ m
    → HasExactDrags m (step s e).0
unfolding step
step-HasExactDrags n m s drag_started d small here = ground arith
step-HasExactDrags n m s _ d small here = ground arith

-- A history of fewer than 2 ^ 32 drag entries keeps the flag and the counter in step.
pub run-HasExactDrags :
    (n m : ℕ) (s : State) (es : List ShutdownEvent)
    → HasExactDrags n s
    → n + drag_starts es ≡ m
    → m + 1 < 2 ^ 32
    → HasExactDrags m (run s es)
unfolding run
run-HasExactDrags n m s [] d total small = record { exact = d.exact; entered = omega arith }
run-HasExactDrags n m s (e ∷ es) d total small =
    run-HasExactDrags (if is_drag_start e then suc n else n) m (step s e).0 es
      (step-HasExactDrags n _ s e d (ground arith) refl) (ground arith) small

-- After any history from the start the reducer is consistent, and with fewer than 2 ^ 32 - 1 drag
-- entries its drag flag is set exactly while a drag target is counted.
pub run-initial-IsConsistent :
    (es : List ShutdownEvent)
    → drag_starts es + 1 < 2 ^ 32
    → IsConsistent (run initial es)
      × (((run initial es).drag_in_progress ≡ true) ↔ (0 < (run initial es).drag_target_count))
run-initial-IsConsistent es small =
    let c = run-IsConsistent initial es initial-IsConsistent in
    let d = run-HasExactDrags 0 (drag_starts es) initial es (ground arith) (omega arith) small in
    (c, (d.exact, c.counted_drags))
