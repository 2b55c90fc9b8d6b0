-- ===== src/History.antt =====
-- src/core/model.cpp, the tab history: `record_navigation` to `history_step_target`.
--
-- An operation that the source refuses with `false`, and without a change, is `none`.
pub mod Laws
mod Tests
use pane_dock.Common.{
  ℕ, zero, suc, ◌+◌, ◌-◌, Bool, true, false, ◌&&◌, List, [], ◌∷◌, ◌++◌, Option, none, some, not,
  ltb, ◌==◌, if◌then◌else◌, length, get_elem?, take,
}
use pane_dock.Model.{ShellLocation, TabState, location_eq}

-- The history that the source seeds with the current location before the first move.
seeded : TabState → TabState
seeded t = elim t.history [
  | [] ↦ record t { history = t.location ∷ []; history_index = 0 }
  | h ∷ hs ↦ t
]

-- `erase(begin() + (history_index + 1), end())` keeps the first entries.
pushed : TabState → ShellLocation → TabState
pushed t l =
    let kept = take (t.history_index + 1) t.history ++ l ∷ [] in
    record t { history = kept; history_index = length kept - 1; location = l }

pub record_navigation : TabState → ShellLocation → TabState
unfolding seeded pushed
record_navigation t l = if location_eq l t.location then t else pushed (seeded t) l

pub can_navigate_tab_back : TabState → Bool
can_navigate_tab_back t = not (length t.history == 0) && ltb 0 t.history_index

pub can_navigate_tab_forward : TabState → Bool
can_navigate_tab_forward t =
    not (length t.history == 0) && ltb (t.history_index + 1) (length t.history)

-- Moves to an entry; an index past the end is a fault of the source, and leaves `none`.
go_to : TabState → ℕ → Option TabState
go_to t i = elim (get_elem? t.history i) [
  | none ↦ none
  | some l ↦ some (record t { location = l; history_index = i })
]

pub navigate_tab_back : TabState → Option TabState
unfolding can_navigate_tab_back go_to
navigate_tab_back t = if can_navigate_tab_back t then go_to t (t.history_index - 1) else none

pub navigate_tab_forward : TabState → Option TabState
unfolding can_navigate_tab_forward go_to
navigate_tab_forward t = if can_navigate_tab_forward t then go_to t (t.history_index + 1) else none

pub restore_tab_history_index : TabState → ℕ → Option TabState
unfolding go_to
restore_tab_history_index t i = if ltb i (length t.history) then go_to t i else none

-- Where a Back or Forward press starts from.
step_from : TabState → Option ℕ → ℕ
step_from t none = t.history_index
step_from t (some p) = if ltb p (length t.history) then p else t.history_index

pub history_step_target : TabState → Option ℕ → Bool → Option ℕ
unfolding step_from
history_step_target t pending back =
    let from = step_from t pending in
    if not (ltb from (length t.history))
    then none
    else if back
    then (if from == 0 then none else some (from - 1))
    else (if ltb (from + 1) (length t.history) then some (from + 1) else none)
