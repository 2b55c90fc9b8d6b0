-- ===== src/Model/Samples.antt =====
-- Small valid values, on which the theorems about the model are tried.
use pane_dock.Common.{ℕ, true, false, List, [], ◌∷◌, none, ◌≡◌, refl, arith, inr}
use pane_dock.Common.Int.{pos}
use pane_dock.Model.{
  ShellLocation, TabState, PaneState, GroupState, ApplicationState, left_right, single, half,
  has_valid_history, is_valid_group, is_ratio, pane_count, divider_ratio_count,
  ShellLocation-discrete,
}
use pane_dock.Model.Valid.{
  IsValidTab, IsValidPane, IsValidGroup, IsValid, is_valid_pane_iff, is_valid_group_iff,
}

abbrev pub place : ℕ → ShellLocation
place n = record {
  parsing_name = n ∷ [];
  known_folder_identity = [];
  fallback_path = [];
  navigation_parent = none;
  namespace_location = false;
}

abbrev pub tab_at : ℕ → List ShellLocation → ℕ → ℕ → TabState
tab_at id history index here = record {
  id = id ∷ [];
  location = place here;
  view_mode = [];
  sort_column = [];
  sort_ascending = true;
  history = history;
  history_index = index;
  columns = [];
}

abbrev pub first_tab : TabState
first_tab = tab_at 1 (place 10 ∷ place 11 ∷ place 12 ∷ []) 1 11

abbrev pub second_tab : TabState
second_tab = tab_at 2 [] 0 20

abbrev pub third_tab : TabState
third_tab = tab_at 3 (place 30 ∷ []) 0 30

abbrev pub pane_of : ℕ → List TabState → ℕ → PaneState
pane_of id tabs active = record { id = id ∷ []; tabs = tabs; active_tab_id = active ∷ [] }

abbrev pub first_pane : PaneState
first_pane = pane_of 101 (first_tab ∷ second_tab ∷ []) 1

abbrev pub second_pane : PaneState
second_pane = pane_of 102 (third_tab ∷ []) 3

abbrev pub first_group : GroupState
first_group = record {
  id = 201 ∷ [];
  name = 80 ∷ [];
  layout_template = left_right;
  divider_ratios = half ∷ [];
  panes = first_pane ∷ second_pane ∷ [];
  active_pane_id = 102 ∷ [];
}

abbrev pub second_group : GroupState
second_group = record {
  id = 202 ∷ [];
  name = 81 ∷ [];
  layout_template = single;
  divider_ratios = [];
  panes = first_pane ∷ [];
  active_pane_id = 101 ∷ [];
}

abbrev pub application : ApplicationState
application = record {
  schema_version = 1;
  groups = first_group ∷ second_group ∷ [];
  active_group_id = 201 ∷ [];
  window_placement = record {
    x = pos 0;
    y = pos 0;
    width = pos 800;
    height = pos 600;
    maximized = false;
  };
  sidebar_width = pos 200;
  pinned_locations = [];
  list_font_points = pos 9;
}

pub first_tab-valid : has_valid_history first_tab ≡ true
unfolding has_valid_history ShellLocation-discrete
first_tab-valid = refl

pub second_tab-valid : has_valid_history second_tab ≡ true
unfolding has_valid_history
second_tab-valid = refl

pub third_tab-valid : has_valid_history third_tab ≡ true
unfolding has_valid_history ShellLocation-discrete
third_tab-valid = refl

pub first_tab-IsValidTab : IsValidTab first_tab
first_tab-IsValidTab = inr refl

pub first_pane-IsValidPane : IsValidPane first_pane
first_pane-IsValidPane = record {
  inhabited = omega arith;
  unique = ground arith;
  active = ground arith;
  histories = (first_tab-valid, (second_tab-valid, tt));
}

pub second_pane-IsValidPane : IsValidPane second_pane
second_pane-IsValidPane = record {
  inhabited = omega arith;
  unique = ground arith;
  active = ground arith;
  histories = (third_tab-valid, tt);
}

pub first_group-IsValidGroup : IsValidGroup first_group
unfolding is_ratio half pane_count divider_ratio_count
first_group-IsValidGroup = record {
  named = ground arith;
  covered = omega arith;
  bounded = omega arith;
  ratio_count = refl;
  ratios = (ground arith, tt);
  unique = ground arith;
  active = ground arith;
  panes_valid = (
    (is_valid_pane_iff first_pane).1 first_pane-IsValidPane,
    ((is_valid_pane_iff second_pane).1 second_pane-IsValidPane, tt),
  );
}

second_group-IsValidGroup : IsValidGroup second_group
unfolding pane_count divider_ratio_count
second_group-IsValidGroup = record {
  named = ground arith;
  covered = omega arith;
  bounded = omega arith;
  ratio_count = refl;
  ratios = tt;
  unique = ground arith;
  active = ground arith;
  panes_valid = ((is_valid_pane_iff first_pane).1 first_pane-IsValidPane, tt);
}

pub second_group-valid : is_valid_group second_group ≡ true
second_group-valid = (is_valid_group_iff second_group).1 second_group-IsValidGroup

pub application-IsValid : IsValid application
application-IsValid = record {
  unique = ground arith;
  groups_valid =
      ((is_valid_group_iff first_group).1 first_group-IsValidGroup, (second_group-valid, tt));
  none_active = λ e. ground (arith, e);
  one_active = λ h. ground arith;
}
