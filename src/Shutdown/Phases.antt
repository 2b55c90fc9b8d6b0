-- ===== src/Shutdown/Phases.antt =====
-- The order of the phases: teardown is final, and a save is attempted once for each refusal.
use pane_dock.Common.{
  any, ℕ, suc, ◌+◌, ◌≤◌, ◌≡◌, refl, ap, sym, subst, ◌∙◌, ◌&&◌, inl, inr, Bool-cases, true, false,
  List, [], ◌∷◌, arith, if◌then◌else◌, Bool,
}
use pane_dock.Shutdown.{
  ShutdownEvent, end_session_cancelled, save_keep_open, teardown_started, views_destroyed,
  ShutdownAction, nothing, destroy_views, destroy_window, save_session, State, step, run,
}

step-closing : (s : State) (e : ShutdownEvent) → s.closing ≡ true → (step s e).0.closing ≡ true
unfolding step
step-closing s teardown_started h = ground arith
step-closing s _ h = ground arith

-- Once teardown has begun no later history leaves it.
pub run-closing :
    (s : State) (es : List ShutdownEvent) → s.closing ≡ true → (run s es).closing ≡ true
unfolding run
run-closing s [] h = h
run-closing s (e ∷ es) h = run-closing (step s e).0 es (step-closing s e h)

abbrev is_save : ShutdownAction → Bool
is_save save_session = true
is_save _ = false

-- How often a history asks for the session to be saved.
unfoldable pub saves : State → List ShutdownEvent → ℕ
saves s [] = 0
saves s (e ∷ es) =
    let rest = saves (step s e).0 es in if is_save (step s e).1 then suc rest else rest

abbrev lets_retry : ShutdownEvent → Bool
lets_retry save_keep_open = true
lets_retry end_session_cancelled = true
lets_retry _ = false

-- How often a history hands the attempt back.
abbrev pub retries : List ShutdownEvent → ℕ
retries [] = 0
retries (e ∷ es) = if lets_retry e then suc (retries es) else retries es

abbrev pub left : State → ℕ
left s = if s.shutdown_save_attempted then 0 else 1

step-left :
    (s : State) (e : ShutdownEvent)
    → (if is_save (step s e).1 then 1 else 0) + left (step s e).0
      ≤ left s + (if lets_retry e then 1 else 0)
unfolding step
step-left s save_keep_open = ground arith
step-left s _ = ground arith

-- Over any history the session is saved at most once for the start, if no attempt is pending, and
-- once more for each time the user kept the window open or the session end was cancelled.
pub saves-le : (s : State) (es : List ShutdownEvent) → saves s es ≤ left s + retries es
unfolding saves
saves-le s [] = omega arith
saves-le s (e ∷ es) = ground (arith, step-left s e, saves-le (step s e).0 es)

abbrev pub is_teardown : ShutdownEvent → Bool
is_teardown teardown_started = true
is_teardown _ = false

-- No other event begins or ends the teardown.
pub step-closing_same :
    (s : State) (e : ShutdownEvent) → is_teardown e ≡ false → (step s e).0.closing ≡ s.closing
unfolding step
step-closing_same s teardown_started h = cc
step-closing_same s end_session_cancelled h = ground arith
step-closing_same s _ h = ground arith

pub step-teardown_started :
    (s : State)
    → s.closing ≡ false
    → ((step s teardown_started).1 ≡ destroy_views) × ((step s teardown_started).0.closing ≡ true)
unfolding step
step-teardown_started s h = ground arith

pub step-teardown_again : (s : State) → s.closing ≡ true → step s teardown_started ≡ (s, nothing)
unfolding step
step-teardown_again s h = ground arith

pub step-views_destroyed :
    (s : State) → s.closing ≡ true → step s views_destroyed ≡ (s, destroy_window)
unfolding step
step-views_destroyed s h = ground arith

teardown_of : (e : ShutdownEvent) → is_teardown e ≡ true → e ≡ teardown_started
teardown_of teardown_started h = refl
teardown_of _ h = absurd cc

-- A teardown has been asked for in a history exactly where one is under way behind it.
run-closing_any :
    (s : State) (es : List ShutdownEvent)
    → s.closing ≡ false
    → (run s es).closing ≡ any is_teardown es
unfolding run
run-closing_any s [] h = h
run-closing_any s (e ∷ es) h = elim (Bool-cases (is_teardown e)) [
  | inl t ↦ simp t (
      run-closing (step s e).0 es (
        subst (λ x. (step s x).0.closing ≡ true) (sym (teardown_of e t))
          (step-teardown_started s h).1))
  | inr n ↦ simp n (run-closing_any (step s e).0 es (step-closing_same s e n ∙ h))
]

abbrev pub is_views_destroyed : ShutdownEvent → Bool
is_views_destroyed views_destroyed = true
is_views_destroyed _ = false

abbrev pub is_destroy_window : ShutdownAction → Bool
is_destroy_window destroy_window = true
is_destroy_window _ = false

-- The window goes only when the views are gone, in a teardown.
step-destroy_window :
    (s : State) (e : ShutdownEvent)
    → is_destroy_window (step s e).1 ≡ (is_views_destroyed e && s.closing)
unfolding step
step-destroy_window s _ = ground arith

-- From a state where no teardown has begun, starting one destroys the views, and starting it again after any
-- further events does nothing. After any history `es`, the next event is answered by destroying the window
-- exactly where it says that the views are destroyed and a teardown was started in `es`.
pub run-teardown_once :
    (s : State) (es : List ShutdownEvent) (e : ShutdownEvent)
    → s.closing ≡ false
    → let t = run (step s teardown_started).0 es in
      ((step s teardown_started).1 ≡ destroy_views)
      × (step t teardown_started ≡ (t, nothing))
      × (is_destroy_window (step (run s es) e).1 ≡ (is_views_destroyed e && any is_teardown es))
run-teardown_once s es e h =
    let (answer, began) = step-teardown_started s h in
    let t = run (step s teardown_started).0 es in
    (
      answer,
      step-teardown_again t (run-closing (step s teardown_started).0 es began),
      step-destroy_window (run s es) e
          ∙ ap (λ c. is_views_destroyed e && c) (run-closing_any s es h),
    )
