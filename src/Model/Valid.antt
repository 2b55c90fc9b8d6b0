-- ===== src/Model/Valid.antt =====
-- The validity tests as predicates, one for each level, and that the tests decide them.
use pane_dock.Common.{
  ℕ, zero, suc, ap, ◌≤◌, ◌<◌, ◌≡◌, ◌≢◌, ◌↔◌, refl, true, [], some, arith, length, get_elem?, All,
  all_iff, ◌⊎◌,
}
use pane_dock.Ids.{has_id}
use pane_dock.Ids.Unique.{UniqueIds, has_unique_ids_iff, is_empty_iff}
use pane_dock.Model.{
  TabState, PaneState, GroupState, ApplicationState, tab_id, pane_id, group_id, pane_count,
  divider_ratio_count, max_pane_count, is_ratio, has_valid_history, is_valid_pane, is_valid_group,
  is_valid, LayoutTemplate, Double, replicate, half, default_divider_ratios,
}

-- The history is empty, or its current entry is the tab's location.
abbrev pub IsValidTab : TabState → Type 0
IsValidTab t = (t.history ≡ []) ⊎ (get_elem? t.history t.history_index ≡ some t.location)

pub has_valid_history_iff : (t : TabState) → (has_valid_history t ≡ true) ↔ IsValidTab t
unfolding has_valid_history
has_valid_history_iff t = (λ h. ground arith, λ h. ground arith)

pub record IsValidPane (p : PaneState) : Type 0 where
  pub inhabited : 0 < length p.tabs
  pub unique : UniqueIds tab_id p.tabs
  pub active : has_id tab_id p.active_tab_id p.tabs ≡ true
  pub histories : All (λ t. has_valid_history t ≡ true) p.tabs

pub is_valid_pane_iff : (p : PaneState) → (is_valid_pane p ≡ true) ↔ IsValidPane p
unfolding is_valid_pane
is_valid_pane_iff p =
    let u = has_unique_ids_iff tab_id p.tabs in
    let h = all_iff has_valid_history p.tabs in
    (λ v. ground (arith, u.0, h.0), λ v. ground (arith, u.1, h.1))

pub record IsValidGroup (g : GroupState) : Type 0 where
  pub named : g.id ≢ []
  pub covered : pane_count g.layout_template ≤ length g.panes
  pub bounded : length g.panes ≤ max_pane_count
  pub ratio_count : length g.divider_ratios ≡ divider_ratio_count g.layout_template
  pub ratios : All (λ r. is_ratio r ≡ true) g.divider_ratios
  pub unique : UniqueIds pane_id g.panes
  pub active : has_id pane_id g.active_pane_id g.panes ≡ true
  pub panes_valid : All (λ p. is_valid_pane p ≡ true) g.panes

pub is_valid_group_iff : (g : GroupState) → (is_valid_group g ≡ true) ↔ IsValidGroup g
unfolding is_valid_group
is_valid_group_iff g =
    let e = is_empty_iff g.id in
    let u = has_unique_ids_iff pane_id g.panes in
    let r = all_iff is_ratio g.divider_ratios in
    let h = all_iff is_valid_pane g.panes in
    (λ v. ground (arith, e.1, u.0, h.0, r.0), λ v. ground (arith, e.0, u.1, h.1, r.1))

pub record IsValid (a : ApplicationState) : Type 0 where
  pub unique : UniqueIds group_id a.groups
  pub groups_valid : All (λ g. is_valid_group g ≡ true) a.groups
  pub none_active : a.groups ≡ [] → a.active_group_id ≡ []
  pub one_active : 0 < length a.groups → has_id group_id a.active_group_id a.groups ≡ true

-- The validity test of the application answers true exactly for a valid application.
pub is_valid_iff : (a : ApplicationState) → (is_valid a ≡ true) ↔ IsValid a
unfolding is_valid
is_valid_iff a =
    let e = is_empty_iff a.active_group_id in
    let u = has_unique_ids_iff group_id a.groups in
    let h = all_iff is_valid_group a.groups in
    (λ v. ground (arith, e.0, u.0, h.0), λ v. ground (arith, e.1, u.1, h.1))

replicate-ratios : (n : ℕ) → All (λ r. is_ratio r ≡ true) (replicate n half)
unfolding is_ratio half
replicate-ratios zero = tt
replicate-ratios (suc n) = (ground arith, replicate-ratios n)

length-replicate : (n : ℕ) (r : Double) → length (replicate n r) ≡ n
length-replicate zero r = refl
length-replicate (suc n) r = ap suc (length-replicate n r)

pub default_divider_ratios-ratios :
    (t : LayoutTemplate) → All (λ r. is_ratio r ≡ true) (default_divider_ratios t)
unfolding default_divider_ratios
default_divider_ratios-ratios t = replicate-ratios (divider_ratio_count t)

pub length-default_divider_ratios :
    (t : LayoutTemplate) → length (default_divider_ratios t) ≡ divider_ratio_count t
unfolding default_divider_ratios
length-default_divider_ratios t = length-replicate (divider_ratio_count t) half
