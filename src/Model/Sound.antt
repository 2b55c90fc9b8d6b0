-- ===== src/Model/Sound.antt =====
-- What a valid application is, down to its ratios and histories, without the tests; and that `is_valid`
-- decides it.
use pane_dock.Common.{
  refl, inl, inr, ◌⊎◌, zero, suc, Bool-cases, text_eq, ℕ, ◌≤◌, ◌<◌, ◌≡◌, ◌≢◌, ◌↔◌, true, false,
  List, [], ◌∷◌, some, arith, length, get_elem?, All, Text,
}
use pane_dock.Ids.{has_id}
use pane_dock.Ids.Unique.{UniqueIds}
use pane_dock.Model.{
  PaneState, GroupState, ApplicationState, tab_id, pane_id, group_id, pane_count,
  divider_ratio_count, max_pane_count, one_units, is_ratio, is_valid_pane, is_valid_group, is_valid,
  Double, finite, infinite, not_a_number,
}
use pane_dock.Model.Valid.{
  IsValidTab, has_valid_history_iff, is_valid_pane_iff, is_valid_group_iff, is_valid_iff,
}

-- A finite number from 0 to 1, a negative zero included.
abbrev pub IsRatio : Double → Type 0
IsRatio r = ((units : ℕ) × (r ≡ finite false units) × (units ≤ one_units)) ⊎ (r ≡ finite true 0)

-- One of the elements has the id.
abbrev pub Holds : {A : Type 0} → (A → Text) → Text → List A → Type 0
Holds id t xs = (n : ℕ) × (x : _) × (get_elem? xs n ≡ some x) × (id x ≡ t)

pub record IsSoundPane (p : PaneState) : Type 0 where
  pub inhabited : 0 < length p.tabs
  pub unique : UniqueIds tab_id p.tabs
  pub active : Holds tab_id p.active_tab_id p.tabs
  pub histories : All IsValidTab p.tabs

pub record IsSoundGroup (g : GroupState) : Type 0 where
  pub named : g.id ≢ []
  pub covered : pane_count g.layout_template ≤ length g.panes
  pub bounded : length g.panes ≤ max_pane_count
  pub ratio_count : length g.divider_ratios ≡ divider_ratio_count g.layout_template
  pub ratios : All IsRatio g.divider_ratios
  pub unique : UniqueIds pane_id g.panes
  pub active : Holds pane_id g.active_pane_id g.panes
  pub panes_sound : All IsSoundPane g.panes

pub record IsSound (a : ApplicationState) : Type 0 where
  pub unique : UniqueIds group_id a.groups
  pub groups_sound : All IsSoundGroup a.groups
  pub none_active : a.groups ≡ [] → a.active_group_id ≡ []
  pub one_active : 0 < length a.groups → Holds group_id a.active_group_id a.groups

is_ratio_iff : (r : Double) → (is_ratio r ≡ true) ↔ IsRatio r
unfolding is_ratio
is_ratio_iff not_a_number = (λ h. absurd cc, λ s. elim s [ inl (n, e, b) ↦ cc | inr e ↦ cc ])
is_ratio_iff (infinite b) = (λ h. absurd cc, λ s. elim s [ inl (n, e, b) ↦ cc | inr e ↦ cc ])
is_ratio_iff (finite true n) =
    (λ h. inr (ground arith), λ s. elim s [ inl (n, e, b) ↦ cc | inr e ↦ ground arith ])
is_ratio_iff (finite false n) =
    (λ h. inl (n, refl, ground arith), λ s. elim s [ inl (m, e, b) ↦ ground arith | inr e ↦ cc ])

module _ {A : Type 0} (id : A → Text) (t : Text) where
  Holds-of_has_id : (xs : List A) → has_id id t xs ≡ true → Holds id t xs
  Holds-of_has_id [] h = absurd cc
  Holds-of_has_id (x ∷ xs) h = elim (Bool-cases (text_eq (id x) t)) [
    | inl same ↦ (0, x, refl, ground arith)
    | inr other ↦ let (n, y, at, named) = Holds-of_has_id xs (ground arith) in (suc n, y, at, named)
  ]

  has_id_of_Holds :
      (xs : List A) (n : ℕ) (x : A) → get_elem? xs n ≡ some x → id x ≡ t → has_id id t xs ≡ true
  has_id_of_Holds [] n x at named = absurd cc
  has_id_of_Holds (y ∷ ys) zero x at named = ground arith
  has_id_of_Holds (y ∷ ys) (suc n) x at named = ground (arith, has_id_of_Holds ys n x at named)

  has_id_iff : (xs : List A) → (has_id id t xs ≡ true) ↔ Holds id t xs
  has_id_iff xs = (Holds-of_has_id xs, λ (n, x, at, named). has_id_of_Holds xs n x at named)

All-iff :
    {A : Type 0} {P Q : A → Type 0} → ((x : A) → P x ↔ Q x) → (xs : List A) → All P xs ↔ All Q xs
All-iff h [] = (λ a. a, λ a. a)
All-iff h (x ∷ xs) =
    let rest = All-iff h xs in (λ a. ((h x).0 a.0, rest.0 a.1), λ a. ((h x).1 a.0, rest.1 a.1))

is_valid_pane-IsSoundPane : (p : PaneState) → (is_valid_pane p ≡ true) ↔ IsSoundPane p
is_valid_pane-IsSoundPane p =
    let test = is_valid_pane_iff p in
    let active = has_id_iff tab_id p.active_tab_id p.tabs in
    let histories = All-iff has_valid_history_iff p.tabs in
    (
      λ h.
          let v = test.0 h in
          record {
            inhabited = v.inhabited;
            unique = v.unique;
            active = active.0 v.active;
            histories = histories.0 v.histories;
          },
      λ s. test.1 (record {
        inhabited = s.inhabited;
        unique = s.unique;
        active = active.1 s.active;
        histories = histories.1 s.histories;
      }),
    )

is_valid_group-IsSoundGroup : (g : GroupState) → (is_valid_group g ≡ true) ↔ IsSoundGroup g
is_valid_group-IsSoundGroup g =
    let test = is_valid_group_iff g in
    let ratios = All-iff is_ratio_iff g.divider_ratios in
    let active = has_id_iff pane_id g.active_pane_id g.panes in
    let panes = All-iff is_valid_pane-IsSoundPane g.panes in
    (
      λ h.
          let v = test.0 h in
          record {
            named = v.named;
            covered = v.covered;
            bounded = v.bounded;
            ratio_count = v.ratio_count;
            ratios = ratios.0 v.ratios;
            unique = v.unique;
            active = active.0 v.active;
            panes_sound = panes.0 v.panes_valid;
          },
      λ s. test.1 (record {
        named = s.named;
        covered = s.covered;
        bounded = s.bounded;
        ratio_count = s.ratio_count;
        ratios = ratios.1 s.ratios;
        unique = s.unique;
        active = active.1 s.active;
        panes_valid = panes.1 s.panes_sound;
      }),
    )

-- The validity test answers true exactly for a sound application: the ids of its groups, of the panes of a
-- group and of the tabs of a pane are there and differ; a group has at least the panes that its layout shows
-- and at most four, and its layout's number of ratios, each a finite number from 0 to 1; a pane has a tab, and
-- each of its tabs has no history or one whose current entry is the tab's location; the active tab is one of
-- the pane's, the active pane one of the group's, and the active group one of the application's, where without
-- groups no group is active.
pub is_valid-IsSound : (a : ApplicationState) → (is_valid a ≡ true) ↔ IsSound a
is_valid-IsSound a =
    let test = is_valid_iff a in
    let groups = All-iff is_valid_group-IsSoundGroup a.groups in
    let active = has_id_iff group_id a.active_group_id a.groups in
    (
      λ h.
          let v = test.0 h in
          record {
            unique = v.unique;
            groups_sound = groups.0 v.groups_valid;
            none_active = v.none_active;
            one_active = λ e. active.0 (v.one_active e);
          },
      λ s. test.1 (record {
        unique = s.unique;
        groups_valid = groups.1 s.groups_sound;
        none_active = s.none_active;
        one_active = λ e. active.1 (s.one_active e);
      }),
    )
