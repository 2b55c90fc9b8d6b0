-- ===== src/Transition.antt =====
-- src/core/group_transition.h and src/core/group_transition.cpp: the script that runs after a change of groups.
--
-- The effects are the abstract interface of the source. Each one acts on a state of any type `S` and
-- may change anything in it, since it can run other code of the window. `performed` records the
-- effects run, the newest first, each with what it returned.
pub mod Script
mod Tests
use pane_dock.Common.{
  ℕ, Bool, true, false, ◌&&◌, ◌||◌, List, [], ◌∷◌, ◌++◌, Text, text_eq, not, if◌then◌else◌,
}

pub data GroupTransition : Type 0 where
  activate relayout remove : GroupTransition

pub data GroupTransitionStep : Type 0 where
  rebind_panes refresh_tab_strips navigate_realized_panes apply_layout : GroupTransitionStep
  focus_active_pane refresh_sidebar save_session : GroupTransitionStep

-- Whether the panes move somewhere else.
unfoldable pub is_moved : GroupTransition → Bool → Bool
is_moved activate changed = true
is_moved relayout changed = false
is_moved remove changed = changed

-- A step that the script has only under a condition.
abbrev pub when : Bool → GroupTransitionStep → List GroupTransitionStep
when b step = if b then step ∷ [] else []

pub plan_group_transition : GroupTransition → Bool → Bool → List GroupTransitionStep
unfolding is_moved
plan_group_transition transition has_active_group active_group_changed =
    (rebind_panes ∷ refresh_tab_strips ∷ [])
    ++ when (has_active_group && is_moved transition active_group_changed) navigate_realized_panes
    ++ (apply_layout ∷ [])
    ++ when has_active_group focus_active_pane
    ++ (refresh_sidebar ∷ save_session ∷ [])

pub record GroupTransitionEffects (S : Type 0) : Type 0 where
  pub is_shutting_down : S → Bool
  pub has_active_group : S → Bool
  pub navigate : S → S × Bool
  -- The effect of each other step.
  pub act : GroupTransitionStep → S → S

pub record Run (S : Type 0) : Type 0 where
  pub state : S
  pub performed : List (GroupTransitionStep × Bool)

-- Navigation and focus want an active group; the other steps do not.
unfoldable pub needs_group : GroupTransitionStep → Bool
needs_group navigate_realized_panes = true
needs_group focus_active_pane = true
needs_group _ = false

module _ {S : Type 0} (effects : GroupTransitionEffects S) where
  abbrev pub perform : GroupTransitionStep → Run S → Run S × Bool
  perform navigate_realized_panes run =
      let (after, moved) = effects.navigate run.state in
      (
        record { state = after; performed = (navigate_realized_panes, moved) ∷ run.performed },
        moved,
      )
  perform step run = (
    record { state = effects.act step run.state; performed = (step, true) ∷ run.performed },
    true,
  )

  -- The loop of `run_group_transition` over the rest of the script.
  unfoldable pub run_steps : List GroupTransitionStep → Run S → Run S
  unfolding needs_group
  run_steps [] run = run
  run_steps (step ∷ steps) run =
      let (after, moved) = perform step run in
      let skipped = run_steps steps run in
      let continued = run_steps steps after in
      if effects.is_shutting_down run.state
      then run
      else if needs_group step && not (effects.has_active_group run.state)
      then skipped
      else if moved
      then continued
      else after

  pub run_group_transition : GroupTransition → Text → Text → S → Run S
  unfolding run_steps
  run_group_transition transition previous_active_group_id active_group_id state =
      run_steps
        (plan_group_transition transition (effects.has_active_group state)
          (not (text_eq previous_active_group_id active_group_id)))
        (record { state = state; performed = [] })
