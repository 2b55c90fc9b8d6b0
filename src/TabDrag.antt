-- ===== src/TabDrag.antt =====
-- src/core/tab_drag.h and src/core/tab_drag.cpp: what the gesture of dragging a tab means.
pub mod Laws
mod Tests
use mathlib.Core.Option
use pane_dock.Common.{
  ℕ, Bool, true, false, ◌&&◌, ◌||◌, Option, none, some, not, ltb, leb, ◌==◌, if◌then◌else◌,
}
use pane_dock.Common.Int.{ℤ, pos, ◌-ℤ◌, ltb_ℤ}

pub record TabDragState : Type 0 where
  pub source_pane : ℕ
  pub source_index : ℕ
  pub start_x : ℤ
  pub start_y : ℤ
  pub dragging : Bool
  pub target_pane : Option ℕ
  pub target_index : Option ℕ

pub record TabStripHit : Type 0 where
  pub pane : Option ℕ
  pub slot : Option ℕ
  pub in_viewport : Bool
  pub tab_count : ℕ

-- `*a == *b` and `a == b` of `std::optional<size_t>`.
unfoldable pub same_slot : Option ℕ → Option ℕ → Bool
same_slot none none = true
same_slot (some a) (some b) = a == b
same_slot _ _ = false

-- The pointer has left the square of the threshold.
pub is_past : ℤ → ℤ → Bool
is_past delta threshold = ltb_ℤ delta (pos 0 -ℤ threshold) || ltb_ℤ threshold delta

-- The pair is the state after the call and the result.
pub begin_tab_drag : TabDragState → ℤ → ℤ → ℤ → TabDragState × Bool
unfolding is_past
begin_tab_drag state x y threshold =
    if state.dragging
    then (state, true)
    else if is_past (x -ℤ state.start_x) threshold || is_past (y -ℤ state.start_y) threshold
    then (record state { dragging = true }, true)
    else (state, false)

-- The targets that a hit means: the pane, where it is another one, and the slot.
pub hit_target : ℕ → TabStripHit → Option ℕ × Option ℕ
hit_target source hit = elim hit.pane [
  | none ↦ (none, none)
  | some pane ↦ if pane == source then (none, hit.slot) else (
    some pane,
    elim hit.slot [
      | some slot ↦ some slot
      | none ↦ if hit.in_viewport then some hit.tab_count else none
    ],
  )
]

pub update_tab_drag : TabDragState → TabStripHit → TabDragState × Bool
unfolding hit_target
update_tab_drag state hit =
    let target = hit_target state.source_pane hit in
    if not state.dragging
    then (state, false)
    else if same_slot target.0 state.target_pane && same_slot target.1 state.target_index
    then (state, false)
    else (record state { target_pane = target.0; target_index = target.1 }, true)

pub data TabDragEffect : Type 0 where
  nothing reorder move : TabDragEffect

pub record TabDragDrop : Type 0 where
  pub effect : TabDragEffect
  pub source_pane : ℕ
  pub target_pane : ℕ
  pub target_index : ℕ

-- `return {}`.
abbrev pub no_drop : TabDragDrop
no_drop = record { effect = nothing; source_pane = 0; target_pane = 0; target_index = 0 }

-- `value_or`.
abbrev pub value_or : Option ℕ → ℕ → ℕ
value_or none back = back
value_or (some n) back = n

drop_at : TabDragState → ℕ → ℕ → ℕ → TabDragDrop
drop_at state pane_count target index =
    if leb pane_count state.source_pane
    then no_drop
    else if leb pane_count target
    then no_drop
    else if target == state.source_pane
    then if index == state.source_index then no_drop else record {
      effect = reorder;
      source_pane = state.source_pane;
      target_pane = target;
      target_index = index;
    }
    else record {
      effect = move;
      source_pane = state.source_pane;
      target_pane = target;
      target_index = index;
    }

pub resolve_tab_drop : TabDragState → ℕ → TabDragDrop
unfolding drop_at
resolve_tab_drop state pane_count =
    if not state.dragging then no_drop else elim state.target_index [
      | none ↦ no_drop
      | some index ↦ drop_at state pane_count (value_or state.target_pane state.source_pane) index
    ]
