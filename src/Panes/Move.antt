-- ===== src/Panes/Move.antt =====
-- Moving a tab to another pane: both panes stay valid, and the tab is in one of them only.
use pane_dock.Common.{
  ℕ, ◌≡◌, ◌≢◌, refl, sym, ◌∙◌, Bool, true, false, [], none, some, Text, arith, length,
  length-insert_at, get_elem?, get_elem?-insert_at, All-insert_at, ◌==◌, Option-cases, Bool-cases,
  inl, inr, ◌⊎◌, min,
}
use pane_dock.Ids.{has_id, find_id}
use pane_dock.Ids.Unique.{
  is_empty_iff, Fresh-of_has_id, has_id_of_Fresh, Fresh-erase_id_self, UniqueIds-insert_at,
}
use pane_dock.Ids.Places.{has_id-insert_at, has_id_of_find}
use pane_dock.Model.{ShellLocation, TabState, PaneState, tab_id, has_valid_history}
use pane_dock.Model.Valid.{IsValidPane}
use pane_dock.Panes.{reset_tab, without_tab, source_after, target_after, refuses_retained, move_tab}
use pane_dock.Panes.Valid.{
  Histories-find, UniqueIds-find, without_tab-IsValidPane, reset-IsValidPane, one-updated,
}

-- What a move that succeeds has passed.
pub record Moves (source target : PaneState) (t retained : Text) (moved : TabState) : Type 0 where
  pub found : find_id tab_id t source.tabs ≡ some moved
  pub free : has_id tab_id t target.tabs ≡ false
  pub placeholder : refuses_retained source target t retained ≡ false

pub move_tab_inv :
    (same : Bool) (source target : PaneState) (t : Text) (index : ℕ) (home : ShellLocation)
    (retained : Text) {s d : PaneState}
    → move_tab same source target t index home retained ≡ some (s, d)
    → (moved : TabState) × Moves source target t retained moved
      × (s ≡ source_after source t home retained)
      × (d ≡ target_after target moved t index)
unfolding move_tab
move_tab_inv same source target t index home retained h =
    inversion (Option-cases (find_id tab_id t source.tabs)) h
  where
    inversion :
        {s d : PaneState}
        → (find_id tab_id t source.tabs ≡ none)
          ⊎ ((moved : TabState) × (find_id tab_id t source.tabs ≡ some moved))
        → move_tab same source target t index home retained ≡ some (s, d)
        → (moved : TabState) × Moves source target t retained moved
          × (s ≡ source_after source t home retained)
          × (d ≡ target_after target moved t index)
    inversion (inl e) h = absurd (ground arith)
    inversion (inr (m, e)) h = (m, ground arith, ground arith, ground arith)

target_after-IsValidPane :
    (target : PaneState) (moved : TabState) (t : Text) (index : ℕ)
    → IsValidPane target
    → moved.id ≡ t
    → t ≢ []
    → has_id tab_id t target.tabs ≡ false
    → has_valid_history moved ≡ true
    → IsValidPane (target_after target moved t index)
unfolding target_after
target_after-IsValidPane target moved t index v e named free history =
    let n = min index (length target.tabs) in
    record {
      inhabited = omega (arith, length-insert_at n moved target.tabs);
      unique =
          UniqueIds-insert_at tab_id n moved target.tabs v.unique (rw e named)
            (rw e (Fresh-of_has_id tab_id t target.tabs free));
      active = ground (arith, has_id-insert_at tab_id t n moved target.tabs, e);
      histories = All-insert_at _ n moved target.tabs history v.histories;
    }

source_after-IsValidPane :
    (source : PaneState) (t : Text) (home : ShellLocation) (retained : Text)
    → IsValidPane source
    → has_id tab_id t source.tabs ≡ true
    → (length source.tabs ≡ 1 → retained ≢ [])
    → IsValidPane (source_after source t home retained)
unfolding source_after
source_after-IsValidPane source t home retained v has named =
    elim (Bool-cases (length source.tabs == 1)) [
      | inl one ↦
          rw one
            (reset-IsValidPane source t retained home has (ground arith) (named (ground arith)))
      | inr many ↦ rw many (without_tab-IsValidPane source t v has (ground (arith, v.inhabited)))
    ]

-- The moved tab is gone from the source.
source_after-free :
    (source : PaneState) (t : Text) (home : ShellLocation) (retained : Text)
    → IsValidPane source
    → has_id tab_id t source.tabs ≡ true
    → (length source.tabs ≡ 1 → retained ≢ t)
    → has_id tab_id t (source_after source t home retained).tabs ≡ false
unfolding source_after without_tab reset_tab
source_after-free source t home retained v has other = elim (Bool-cases (length source.tabs == 1)) [
  | inl one ↦
      let f = λ (x : TabState). record (reset_tab home x) { id = retained } in
      let (x, e, i, u) = one-updated t f source.tabs has (ground arith) in
      rw (one, u) (ground (arith, other (ground arith)))
  | inr many ↦
      rw many (has_id_of_Fresh tab_id t _ (Fresh-erase_id_self tab_id t source.tabs v.unique))
]

-- A successful move leaves both panes valid, the tab itself in the target at the index asked for (or
-- last), active there and with its history, and no tab of that id in the source.
pub move_tab-IsValidPane :
    (same : Bool) (source target : PaneState) (t : Text) (index : ℕ) (home : ShellLocation)
    (retained : Text) (s d : PaneState)
    → IsValidPane source
    → IsValidPane target
    → move_tab same source target t index home retained ≡ some (s, d)
    → IsValidPane s
      × IsValidPane d
      × (get_elem? d.tabs (min index (length target.tabs)) ≡ find_id tab_id t source.tabs)
      × (d.active_tab_id ≡ t)
      × (has_id tab_id t s.tabs ≡ false)
unfolding target_after
move_tab-IsValidPane same source target t index home retained s d vs vd h =
    let (moved, m, es, ed) = move_tab_inv same source target t index home retained h in
    let (has, e) = has_id_of_find tab_id t source.tabs moved m.found in
    let named = UniqueIds-find t source.tabs moved vs.unique m.found in
    let history = Histories-find t source.tabs moved vs.histories m.found in
    let p = m.placeholder in
    let n = min index (length target.tabs) in
    let empty = is_empty_iff retained in
    rw (es, ed)
      (
        source_after-IsValidPane source t home retained vs has
            (λ one. unfold refuses_retained in ground (arith, empty.1)),
        target_after-IsValidPane target moved t index vd e (rw e at named) m.free history,
        get_elem?-insert_at n moved target.tabs (omega arith) ∙ sym m.found,
        refl,
        source_after-free source t home retained vs has
            (λ one. unfold refuses_retained in ground arith),
      )
