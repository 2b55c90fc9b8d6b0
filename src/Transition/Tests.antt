-- ===== src/Transition/Tests.antt =====
-- A switch of groups in a window where every effect is counted.
use pane_dock.Common.{ℕ, suc, true, false, [], ◌∷◌, text_eq, not}
use pane_dock.Transition.{
  GroupTransitionEffects, activate, plan_group_transition, run_group_transition,
}
use pane_dock.Transition.Script.{Follows, reverse_onto, run_group_transition-Follows}

abbrev counting : GroupTransitionEffects ℕ
counting = record {
  is_shutting_down = λ n. false;
  has_active_group = λ n. true;
  navigate = λ n. (suc n, false);
  act = λ step n. suc n;
}

run_group_transition-Follows_example :
    Follows
      (reverse_onto (plan_group_transition activate true (not (text_eq (1 ∷ []) (2 ∷ [])))) [])
      (run_group_transition counting activate (1 ∷ []) (2 ∷ []) 0).performed
run_group_transition-Follows_example =
    run_group_transition-Follows counting activate (1 ∷ []) (2 ∷ []) 0
