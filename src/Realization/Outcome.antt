-- ===== src/Realization/Outcome.antt =====
-- The panes that have a view once the plan is carried out.
use pane_dock.Common.{
  ℕ, zero, suc, ◌+◌, ◌<◌, ◌≡◌, ap, Bool, true, false, ◌&&◌, ◌||◌, List, [], ◌∷◌, ◌++◌, arith, not,
  ltb, leb, ◌==◌, length, any, min, max, Bool-cases, inl, inr,
}
use pane_dock.Model.{LayoutTemplate, GroupState, max_pane_count}
use pane_dock.Realization.{
  RealizationMode, RealizationPlan, Choice, realizes, derealizes, navigates, keeps, skips,
  allow_realize, defer_non_active, is_realized, choose, push, plan_from, empty_plan, visible_count,
  active_pane, plan_realization,
}

abbrev pub has : ℕ → List ℕ → Bool
has i js = any (λ j. j == i) js

has-append : (i j : ℕ) (js : List ℕ) → has i (js ++ j ∷ []) ≡ (has i js || (j == i))
has-append i j [] = ground arith
has-append i j (k ∷ js) = ground (arith, has-append i j js)

abbrev is_realizes : Choice → Bool
is_realizes realizes = true
is_realizes _ = false

abbrev is_derealizes : Choice → Bool
is_derealizes derealizes = true
is_derealizes _ = false

-- Turn `i` is one of the `n` from `k`.
abbrev in_turns : ℕ → ℕ → ℕ → Bool
in_turns i k n = leb k i && ltb i (k + n)

module _ (choice : ℕ → Choice) (i : ℕ) where
  push-realize :
      (c : Choice) (k : ℕ) (plan : RealizationPlan)
      → (has i (push c k plan).realize ≡ (has i plan.realize || (is_realizes c && (k == i))))
        × (has i (push c k plan).derealize
            ≡ (has i plan.derealize || (is_derealizes c && (k == i))))
  unfolding push
  push-realize realizes k plan = ground (arith, has-append i k plan.realize)
  push-realize derealizes k plan = ground (arith, has-append i k plan.derealize)
  push-realize navigates k plan = ground arith
  push-realize keeps k plan = ground arith
  push-realize skips k plan = ground arith

  plan_from-has :
      (n k : ℕ) (plan : RealizationPlan)
      → (has i (plan_from choice n k plan).realize
          ≡ (has i plan.realize || (is_realizes (choice i) && in_turns i k n)))
        × (has i (plan_from choice n k plan).derealize
            ≡ (has i plan.derealize || (is_derealizes (choice i) && in_turns i k n)))
  unfolding plan_from
  plan_from-has zero k plan = ground arith
  plan_from-has (suc n) k plan = elim (Bool-cases (k == i)) [
    | inl same ↦
        let e : choice k ≡ choice i = ap choice (ground arith) in
        let (r, d) = push-realize (choice k) k plan in
        let (ih_r, ih_d) = plan_from-has n (suc k) (push (choice k) k plan) in
        (ground (arith, r, ih_r, ap is_realizes e), ground (arith, d, ih_d, ap is_derealizes e))
    | inr other ↦
        let (r, d) = push-realize (choice k) k plan in
        let (ih_r, ih_d) = plan_from-has n (suc k) (push (choice k) k plan) in
        (ground (arith, r, ih_r), ground (arith, d, ih_d))
  ]

is_realized-length : (before : List Bool) (i : ℕ) → is_realized before i ≡ true → i < length before
is_realized-length [] i h = cc
is_realized-length (b ∷ bs) zero h = omega arith
is_realized-length (b ∷ bs) (suc i) h = omega (arith, is_realized-length bs i h)

-- Whether pane `i` has a view once its plan is carried out.
abbrev pub realized_after : List Bool → RealizationPlan → ℕ → Bool
realized_after before plan i =
    has i plan.realize || (is_realized before i && not (has i plan.derealize))

-- Of the panes that there can be, those with a view after the plan are the visible ones that had
-- one or that the mode lets have one: none new in the first frame, only the active one
-- while the start defers the others, and all of them otherwise.
pub plan_realization-outcome :
    (group : GroupState) (template : LayoutTemplate) (before : List Bool) (mode : RealizationMode)
    (i : ℕ)
    → i < max_pane_count
    → realized_after before (plan_realization group template before mode) i ≡ (
        ltb i (visible_count group template)
        && (is_realized before i
            || (allow_realize mode && (not (defer_non_active mode) || (i == active_pane group)))))
unfolding plan_realization choose
plan_realization-outcome group template before mode i h =
    let visible = visible_count group template in
    let limit = max visible (min (length before) max_pane_count) in
    let (r, d) =
      plan_from-has
        (λ index. choose mode visible (active_pane group) (is_realized before index) index) i limit
        0 empty_plan in
    ground (arith, r, d, is_realized-length before i)
