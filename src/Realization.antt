-- ===== src/Realization.antt =====
-- src/core/layout.cpp, `plan_realization`: which panes get a native view, lose it or are told to navigate.
pub mod Outcome
mod Tests
use pane_dock.Common.{
  ℕ, zero, suc, ◌+◌, Bool, true, false, ◌&&◌, ◌||◌, List, [], ◌∷◌, ◌++◌, Option, none, some, not,
  ltb, leb, ◌==◌, if◌then◌else◌, length, get_elem?, min, max,
}
use pane_dock.Ids.{index_of}
use pane_dock.Model.{LayoutTemplate, GroupState, pane_id, pane_count, max_pane_count}

pub data RealizationMode : Type 0 where
  normal startup_frame startup_deferred group_switch : RealizationMode

pub record RealizationPlan : Type 0 where
  pub realize : List ℕ
  pub derealize : List ℕ
  pub navigate : List ℕ
  pub keep : List ℕ

-- What one turn of the loop does with its index.
pub data Choice : Type 0 where
  realizes derealizes navigates keeps skips : Choice

-- `mode != startup_frame`, `mode == startup_deferred` and `mode == group_switch`.
unfoldable pub allow_realize : RealizationMode → Bool
allow_realize startup_frame = false
allow_realize _ = true

unfoldable pub defer_non_active : RealizationMode → Bool
defer_non_active startup_deferred = true
defer_non_active _ = false

unfoldable pub navigate_realized : RealizationMode → Bool
navigate_realized group_switch = true
navigate_realized _ = false

-- `index < currently_realized.size() && currently_realized[index]`.
abbrev pub is_realized : List Bool → ℕ → Bool
is_realized [] n = false
is_realized (b ∷ bs) zero = b
is_realized (b ∷ bs) (suc n) = is_realized bs n

abbrev pub index_or_zero : Option ℕ → ℕ
index_or_zero none = 0
index_or_zero (some n) = n

-- The body of the loop, with the number of visible panes and the active one.
pub choose : RealizationMode → ℕ → ℕ → Bool → ℕ → Choice
choose mode visible active realized index =
    if leb visible index
    then (if realized then derealizes else skips)
    else if not realized
    then if allow_realize mode && (not (defer_non_active mode) || (index == active))
      then realizes
      else skips
    else if navigate_realized mode
    then navigates
    else keeps

pub push : Choice → ℕ → RealizationPlan → RealizationPlan
push realizes index plan = record plan { realize = plan.realize ++ index ∷ [] }
push derealizes index plan = record plan { derealize = plan.derealize ++ index ∷ [] }
push navigates index plan = record plan { navigate = plan.navigate ++ index ∷ [] }
push keeps index plan = record plan { keep = plan.keep ++ index ∷ [] }
push skips index plan = plan

-- The loop, `n` turns from `index`.
pub plan_from : (ℕ → Choice) → ℕ → ℕ → RealizationPlan → RealizationPlan
unfolding push
plan_from choice zero index plan = plan
plan_from choice (suc n) index plan =
    plan_from choice n (suc index) (push (choice index) index plan)

abbrev pub empty_plan : RealizationPlan
empty_plan = record { realize = []; derealize = []; navigate = []; keep = [] }

abbrev pub visible_count : GroupState → LayoutTemplate → ℕ
visible_count group template = min (pane_count template) (min (length group.panes) max_pane_count)

abbrev pub active_pane : GroupState → ℕ
active_pane group = index_or_zero (index_of pane_id group.active_pane_id group.panes)

pub plan_realization : GroupState → LayoutTemplate → List Bool → RealizationMode → RealizationPlan
unfolding plan_from choose
plan_realization group template currently_realized mode =
    let visible = visible_count group template in
    let limit = max visible (min (length currently_realized) max_pane_count) in
    plan_from
      (λ index.
        choose mode visible (active_pane group) (is_realized currently_realized index) index)
      limit 0 empty_plan
