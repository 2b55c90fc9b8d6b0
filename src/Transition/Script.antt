-- ===== src/Transition/Script.antt =====
-- What a run of the script performs.
use pane_dock.Common.{
  ◌≡◌, Bool, true, ◌&&◌, List, [], ◌∷◌, Text, text_eq, not, Bool-cases, inl, inr,
}
use pane_dock.Transition.{
  GroupTransition, GroupTransitionStep, rebind_panes, refresh_tab_strips, navigate_realized_panes,
  apply_layout, focus_active_pane, refresh_sidebar, save_session, plan_group_transition,
  GroupTransitionEffects, Run, needs_group, perform, run_steps, run_group_transition,
}

-- Every effect returned true.
abbrev pub Succeeded : List (GroupTransitionStep × Bool) → Type 0
Succeeded [] = Unit {0}
Succeeded (p ∷ ps) = (p.1 ≡ true) × Succeeded ps

-- What the performed effects, newest first, may be when `planned` were the steps so far, newest first
-- too: each one a planned step, in the order of the script, and none after one that failed.
pub data Follows : List GroupTransitionStep → List (GroupTransitionStep × Bool) → Type 0 where
  nothing_yet : Follows [] []
  left_out :
      {step : GroupTransitionStep} {steps : List GroupTransitionStep}
      {performed : List (GroupTransitionStep × Bool)}
      → Follows steps performed
      → Follows (step ∷ steps) performed
  done_after :
      {step : GroupTransitionStep} {steps : List GroupTransitionStep}
      {performed : List (GroupTransitionStep × Bool)} {result : Bool}
      → Follows steps performed
      → Succeeded performed
      → Follows (step ∷ steps) ((step, result) ∷ performed)

abbrev pub reverse_onto :
    List GroupTransitionStep → List GroupTransitionStep → List GroupTransitionStep
reverse_onto [] ys = ys
reverse_onto (x ∷ xs) ys = reverse_onto xs (x ∷ ys)

Follows-longer :
    (rest done : List GroupTransitionStep) {performed : List (GroupTransitionStep × Bool)}
    → Follows done performed
    → Follows (reverse_onto rest done) performed
Follows-longer [] done f = f
Follows-longer (step ∷ rest) done f = Follows-longer rest (step ∷ done) (left_out f)

module _ {S : Type 0} (effects : GroupTransitionEffects S) where
  perform-Follows :
      (step : GroupTransitionStep) (done : List GroupTransitionStep) (run : Run S)
      → Follows done run.performed
      → Succeeded run.performed
      → Follows (step ∷ done) (perform effects step run).0.performed
        × ((perform effects step run).1 ≡ true → Succeeded (perform effects step run).0.performed)
  perform-Follows rebind_panes done run f s = (done_after f s, λ e. (e, s))
  perform-Follows refresh_tab_strips done run f s = (done_after f s, λ e. (e, s))
  perform-Follows navigate_realized_panes done run f s = (done_after f s, λ e. (e, s))
  perform-Follows apply_layout done run f s = (done_after f s, λ e. (e, s))
  perform-Follows focus_active_pane done run f s = (done_after f s, λ e. (e, s))
  perform-Follows refresh_sidebar done run f s = (done_after f s, λ e. (e, s))
  perform-Follows save_session done run f s = (done_after f s, λ e. (e, s))

  run_steps-Follows :
      (steps done : List GroupTransitionStep) (run : Run S)
      → Follows done run.performed
      → Succeeded run.performed
      → Follows (reverse_onto steps done) (run_steps effects steps run).performed
  unfolding run_steps
  run_steps-Follows [] done run f s = f
  run_steps-Follows (step ∷ steps) done run f s =
      let (g, good) = perform-Follows step done run f s in
      elim (Bool-cases (effects.is_shutting_down run.state)) [
        | inl stop ↦ rw stop (Follows-longer (step ∷ steps) done f)
        | inr live ↦
            elim (Bool-cases (needs_group step && not (effects.has_active_group run.state))) [
              | inl skip ↦
                  rw (live, skip) (run_steps-Follows steps (step ∷ done) run (left_out f) s)
              | inr keep ↦ elim (Bool-cases (perform effects step run).1) [
                | inl ok ↦ rw (live, keep, ok) (run_steps-Follows steps (step ∷ done) _ g (good ok))
                | inr bad ↦ rw (live, keep, bad) (Follows-longer steps (step ∷ done) g)
              ]
            ]
      ]

  -- Whatever the effects do, what a transition performs are steps of its script in the script's
  -- order, and nothing follows a navigation that failed.
  pub run_group_transition-Follows :
      (transition : GroupTransition) (previous current : Text) (state : S)
      → Follows
          (reverse_onto
            (plan_group_transition transition
              (effects.has_active_group state)
              (not (text_eq previous current)))
            [])
          (run_group_transition effects transition previous current state).performed
  unfolding run_group_transition
  run_group_transition-Follows transition previous current state =
      run_steps-Follows _ [] (record { state = state; performed = [] }) nothing_yet tt
