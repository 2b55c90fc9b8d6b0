-- ===== src/Layouts/Laws.antt =====
-- When a layout switch succeeds, and what it leaves alone.
use pane_dock.Common.{
  subst, none, ◌⊎◌, ◌≢◌, ℕ, ◌+◌, ◌≤◌, ◌<◌, ◌≡◌, ◌≢◌, sym, ap, ◌∙◌, true, List, [], ◌∷◌, ◌++◌, some,
  Text, arith, length, length-append, leb, if◌then◌else◌, All, All-append, holds, inl, inr,
  Bool-cases, Option-cases,
}
use pane_dock.Ids.{has_id, index_of}
use pane_dock.Ids.Unique.{Fresh, UniqueIds}
use pane_dock.Model.{
  ShellLocation, LayoutTemplate, LayoutTemplate-discrete, PaneState, GroupState, pane_id,
  pane_count, divider_ratio_count, default_divider_ratios, is_ratio, is_valid_group,
  find_active_pane_index, max_pane_count, single, left_right, top_bottom, three_pane, two_over_one,
  one_over_two, two_beside_one, four_pane_grid,
}
use pane_dock.Model.Valid.{
  IsValidGroup, is_valid_group_iff, default_divider_ratios-ratios, length-default_divider_ratios,
}
use pane_dock.Layouts.{new_panes, switched, visible_active, front_id, lacking, switch_layout}
use pane_dock.Layouts.NewPanes.{
  length-new_panes, new_panes-valid, UniqueIds-append, UniqueIds-new_panes, new_panes-apart,
}

-- The new ids are usable: not empty, and no pane id is taken or given twice.
pub record AreNew (g : GroupState) (pane_ids tab_ids : List Text) : Type 0 where
  pub panes_unique : UniqueIds (λ (t : Text). t) pane_ids
  pub panes_fresh : All (λ t. Fresh pane_id t g.panes) pane_ids
  pub tabs_named : All (λ t. t ≢ []) tab_ids

-- The active pane of the candidate is one of the visible ones.
visible_active-shown :
    (active : Text) (panes : List PaneState) (visible : ℕ)
    → 0 < visible
    → 0 < length panes
    → (i : ℕ) × (index_of pane_id (visible_active active panes visible) panes ≡ some i)
      × (i < visible)
unfolding visible_active front_id
visible_active-shown active [] visible h k = absurd (omega arith)
visible_active-shown active (p ∷ ps) visible h k =
    elim (Option-cases (index_of pane_id active (p ∷ ps))) [
      | inl absent ↦ (0, ground arith, h)
      | inr (i, at) ↦ elim (Bool-cases (leb visible i)) [
        | inl hidden ↦ (0, ground arith, h)
        | inr shown ↦ (i, ground arith, ground arith)
      ]
    ]

-- The pane is not there, or its index is not among the visible ones.
abbrev pub IsOutOfSight : Text → List PaneState → ℕ → Type 0
IsOutOfSight t panes visible =
    (index_of pane_id t panes ≡ none)
    ⊎ ((i : ℕ) × (index_of pane_id t panes ≡ some i) × (visible ≤ i))

visible_active-same :
    (active : Text) (panes : List PaneState) (visible : ℕ)
    → (visible_active active panes visible ≡ active) ⊎ IsOutOfSight active panes visible
unfolding visible_active
visible_active-same active panes visible = elim (Option-cases (index_of pane_id active panes)) [
  | inl absent ↦ inr (inl absent)
  | inr (i, at) ↦ elim (Bool-cases (leb visible i)) [
    | inl hidden ↦ inr (inr (i, at, ground arith))
    | inr shown ↦ inl (ground arith)
  ]
]

has_id_of_index :
    (t : Text) (xs : List PaneState) (i : ℕ)
    → index_of pane_id t xs ≡ some i
    → has_id pane_id t xs ≡ true
has_id_of_index t [] i h = cc
has_id_of_index t (x ∷ xs) i h = elim (Option-cases (index_of pane_id t xs)) [
  | inl absent ↦ ground arith
  | inr (j, e) ↦ ground (arith, has_id_of_index t xs j e)
]

pane_count-bounds : (t : LayoutTemplate) → (0 < pane_count t) × (pane_count t ≤ max_pane_count)
unfolding pane_count
pane_count-bounds single = omega arith
pane_count-bounds left_right = omega arith
pane_count-bounds top_bottom = omega arith
pane_count-bounds three_pane = omega arith
pane_count-bounds two_over_one = omega arith
pane_count-bounds one_over_two = omega arith
pane_count-bounds two_beside_one = omega arith
pane_count-bounds four_pane_grid = omega arith

module _ (g : GroupState) (template : LayoutTemplate) (home : ShellLocation)
    (pane_ids tab_ids : List Text) where
  candidate : GroupState
  candidate = switched g template home pane_ids tab_ids

  switched-ratios :
      (d : Dec (g.layout_template ≡ template))
      → IsValidGroup g
      → (length (if holds d then g.divider_ratios else default_divider_ratios template)
          ≡ divider_ratio_count template)
        × All
            (λ r. is_ratio r ≡ true)
            (if holds d then g.divider_ratios else default_divider_ratios template)
  switched-ratios (yes same) v = (v.ratio_count ∙ ap divider_ratio_count same, v.ratios)
  switched-ratios (no other) v =
      (length-default_divider_ratios template, default_divider_ratios-ratios template)

  switched-IsValidGroup :
      IsValidGroup g
      → length pane_ids ≡ lacking g template
      → length tab_ids ≡ lacking g template
      → AreNew g pane_ids tab_ids
      → IsValidGroup (switched g template home pane_ids tab_ids)
  unfolding switched
  switched-IsValidGroup v np nt new =
      let panes = g.panes ++ new_panes home pane_ids tab_ids in
      let bounds = pane_count-bounds template in
      let len : length panes ≡ length g.panes + lacking g template = omega (
        arith,
        length-append g.panes (new_panes home pane_ids tab_ids),
        length-new_panes home pane_ids tab_ids (omega arith),
      ) in
      let shown =
        visible_active-shown g.active_pane_id panes (pane_count template) bounds.0 (omega arith) in
      let ratios = switched-ratios (LayoutTemplate-discrete g.layout_template template) v in
      record {
        named = v.named;
        covered = omega arith;
        bounded = omega (arith, v.bounded);
        ratio_count = ratios.0;
        ratios = ratios.1;
        unique =
            UniqueIds-append g.panes (new_panes home pane_ids tab_ids) v.unique
              (UniqueIds-new_panes home pane_ids tab_ids new.panes_unique)
              (new_panes-apart home pane_ids tab_ids g.panes new.panes_fresh);
        active = has_id_of_index _ panes shown.0 shown.1;
        panes_valid =
            All-append _ g.panes (new_panes home pane_ids tab_ids) v.panes_valid
              (new_panes-valid home pane_ids tab_ids new.tabs_named);
      }

  switch_layout_inv :
      (h : GroupState)
      → switch_layout g template home pane_ids tab_ids ≡ some h
      → (switched g template home pane_ids tab_ids ≡ h)
        × (is_valid_group (switched g template home pane_ids tab_ids) ≡ true)
  unfolding switch_layout
  switch_layout_inv h e = ground arith

-- With valid input a switch succeeds: the group is valid, and as many new ids are given, for panes
-- and for tabs, as the template lacks panes.
pub switch_layout_total :
    (g : GroupState) (template : LayoutTemplate) (home : ShellLocation)
    (pane_ids tab_ids : List Text)
    → IsValidGroup g
    → length pane_ids ≡ lacking g template
    → length tab_ids ≡ lacking g template
    → AreNew g pane_ids tab_ids
    → (h : GroupState) × (switch_layout g template home pane_ids tab_ids ≡ some h)
unfolding switch_layout
switch_layout_total g template home pane_ids tab_ids v np nt new = (
  switched g template home pane_ids tab_ids,
  ground (
    arith,
    (is_valid_group_iff g).1 v,
    (is_valid_group_iff (switched g template home pane_ids tab_ids)).1
        (switched-IsValidGroup g template home pane_ids tab_ids v np nt new),
  ),
)

-- A switch that succeeds leaves a valid group of the new template, keeps every pane it had, in
-- order and before the new ones, shows its active pane, which is the old one if that is still
-- visible, and keeps the divider ratios if the template stays the same.
pub switch_layout-keeps :
    (g : GroupState) (template : LayoutTemplate) (home : ShellLocation)
    (pane_ids tab_ids : List Text) (h : GroupState)
    → switch_layout g template home pane_ids tab_ids ≡ some h
    → IsValidGroup h
      × (h.layout_template ≡ template)
      × (h.panes ≡ g.panes ++ new_panes home pane_ids tab_ids)
      × ((i : ℕ) × (find_active_pane_index h ≡ some i) × (i < pane_count template))
      × ((h.active_pane_id ≡ g.active_pane_id)
          ⊎ IsOutOfSight g.active_pane_id h.panes (pane_count template))
      × ((g.layout_template ≢ template) ⊎ (h.divider_ratios ≡ g.divider_ratios))
unfolding switched
switch_layout-keeps g template home pane_ids tab_ids h e =
    let (made, valid) = switch_layout_inv g template home pane_ids tab_ids h e in
    let made_valid = (is_valid_group_iff (switched g template home pane_ids tab_ids)).0 valid in
    let bounds = pane_count-bounds template in
    let panes = g.panes ++ new_panes home pane_ids tab_ids in
    let (i, at, shown) =
      visible_active-shown g.active_pane_id (g.panes ++ new_panes home pane_ids tab_ids)
        (pane_count template) bounds.0 (omega (arith, bounds, made_valid.covered)) in
    (
      (is_valid_group_iff h).0 (ap is_valid_group (sym made) ∙ valid),
      ap (λ k. k.layout_template) (sym made),
      ap (λ k. k.panes) (sym made),
      (i, ap find_active_pane_index (sym made) ∙ at, shown),
      elim (visible_active-same g.active_pane_id panes (pane_count template)) [
        | inl same ↦ inl (ap (λ k. k.active_pane_id) (sym made) ∙ same)
        | inr hidden ↦ inr (
            subst (λ (ps : List PaneState). IsOutOfSight g.active_pane_id ps (pane_count template))
              (ap (λ k. k.panes) made) hidden)
      ],
      elim (LayoutTemplate-discrete g.layout_template template) [
        | yes same ↦ inr (ap (λ k. k.divider_ratios) (sym made) ∙ ground (arith, same))
        | no other ↦ inl other
      ],
    )
