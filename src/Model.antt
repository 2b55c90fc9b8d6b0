-- ===== src/Model.antt =====
-- src/core/model.h and the reading half of src/core/model.cpp: the application's state and its validity.
--
-- A `double` is IEEE 754: a NaN, an infinity or a signed multiple of the smallest subnormal, 2^-1074.
-- The model reads it only by its order, so a finite one may be any such multiple. `std::size_t` is
-- a native number; sizes and indices stay far below 2^64.
pub mod Valid
pub mod Sound
pub mod Samples
mod Tests
use pane_dock.Common.{
  ℕ, zero, suc, ◌^◌, Bool, true, false, ◌&&◌, ◌||◌, List, [], ◌∷◌, Option, none, some, Text,
  Text-discrete, text_eq, not, if◌then◌else◌, holds, ltb, leb, ◌==◌, length, get_elem?, all,
  ℕ_discrete,
}
use pane_dock.Common.Int.{ℤ}
use pane_dock.Ids.{is_empty, has_id, has_unique_ids, index_of, find_id}

abbrev pub max_pane_count : ℕ
max_pane_count = 4

pub record ShellLocationParent : Type 0 where
  pub parsing_name : Text
  pub known_folder_identity : Text
  pub fallback_path : Text
  pub namespace_location : Bool

pub record ShellLocation : Type 0 where
  pub parsing_name : Text
  pub known_folder_identity : Text
  pub fallback_path : Text
  pub navigation_parent : Option ShellLocationParent
  pub namespace_location : Bool

ShellLocationParent-discrete : Discrete ShellLocationParent
unfolding Text-discrete
ShellLocationParent-discrete = hlevel Text-discrete

-- The defaulted `operator==`.
unfoldable pub ShellLocation-discrete : Discrete ShellLocation
unfolding ShellLocationParent-discrete Text-discrete
ShellLocation-discrete = hlevel (Text-discrete, ShellLocationParent-discrete)

abbrev pub location_eq : ShellLocation → ShellLocation → Bool
location_eq a b = holds (ShellLocation-discrete a b)

pub data LayoutTemplate : Type 0 where
  single left_right top_bottom three_pane four_pane_grid : LayoutTemplate
  two_over_one one_over_two two_beside_one : LayoutTemplate

pub LayoutTemplate-discrete : Discrete LayoutTemplate
LayoutTemplate-discrete = hlevel

-- `finite negative units` is units * 2^-1074 with its sign.
pub data Double : Type 0 where
  not_a_number : Double
  infinite : Bool → Double
  finite : Bool → ℕ → Double

abbrev pub one_units : ℕ
one_units = 2 ^ 1074

-- The literal 0.5.
unfoldable pub half : Double
half = finite false (2 ^ 1073)

-- `std::isfinite(ratio) && ratio >= 0.0 && ratio <= 1.0`; a negative zero passes.
unfoldable pub is_ratio : Double → Bool
is_ratio not_a_number = false
is_ratio (infinite negative) = false
is_ratio (finite true units) = units == 0
is_ratio (finite false units) = leb units one_units

pub record TabState : Type 0 where
  pub id : Text
  pub location : ShellLocation
  pub view_mode : Text
  pub sort_column : Text
  pub sort_ascending : Bool
  pub history : List ShellLocation
  pub history_index : ℕ
  pub columns : Text

pub record PaneState : Type 0 where
  pub id : Text
  pub tabs : List TabState
  pub active_tab_id : Text

pub record GroupState : Type 0 where
  pub id : Text
  pub name : Text
  pub layout_template : LayoutTemplate
  pub divider_ratios : List Double
  pub panes : List PaneState
  pub active_pane_id : Text

pub record WindowPlacement : Type 0 where
  pub x : ℤ
  pub y : ℤ
  pub width : ℤ
  pub height : ℤ
  pub maximized : Bool

pub record ApplicationState : Type 0 where
  pub schema_version : ℕ
  pub groups : List GroupState
  pub active_group_id : Text
  pub window_placement : WindowPlacement
  pub sidebar_width : ℤ
  pub pinned_locations : List ShellLocation
  pub list_font_points : ℤ

abbrev pub tab_id : TabState → Text
tab_id t = t.id

abbrev pub pane_id : PaneState → Text
pane_id p = p.id

abbrev pub group_id : GroupState → Text
group_id g = g.id

unfoldable pub pane_count : LayoutTemplate → ℕ
pane_count single = 1
pane_count left_right = 2
pane_count top_bottom = 2
pane_count three_pane = 3
pane_count two_over_one = 3
pane_count one_over_two = 3
pane_count two_beside_one = 3
pane_count four_pane_grid = 4

unfoldable pub divider_ratio_count : LayoutTemplate → ℕ
divider_ratio_count single = 0
divider_ratio_count left_right = 1
divider_ratio_count top_bottom = 1
divider_ratio_count _ = 2

abbrev pub replicate {ℓ} : {A : Type ℓ} → ℕ → A → List A
replicate zero a = []
replicate (suc n) a = a ∷ replicate n a

pub default_divider_ratios : LayoutTemplate → List Double
default_divider_ratios t = replicate (divider_ratio_count t) half

-- The tests of `is_valid`, one for each level.
pub has_valid_history : TabState → Bool
has_valid_history t = elim t.history [
  | [] ↦ true
  | h ∷ hs ↦ elim (get_elem? t.history t.history_index) [
    | none ↦ false
    | some here ↦ location_eq t.location here
  ]
]

pub is_valid_pane : PaneState → Bool
unfolding has_valid_history
is_valid_pane p =
    not (length p.tabs == 0)
    && has_unique_ids tab_id p.tabs
    && has_id tab_id p.active_tab_id p.tabs
    && all has_valid_history p.tabs

pub is_valid_group : GroupState → Bool
unfolding is_valid_pane is_ratio
is_valid_group g =
    not (is_empty g.id)
    && leb (pane_count g.layout_template) (length g.panes)
    && leb (length g.panes) max_pane_count
    && (length g.divider_ratios == divider_ratio_count g.layout_template)
    && all is_ratio g.divider_ratios
    && has_unique_ids pane_id g.panes
    && has_id pane_id g.active_pane_id g.panes
    && all is_valid_pane g.panes

pub is_valid : ApplicationState → Bool
unfolding is_valid_group
is_valid a =
    has_unique_ids group_id a.groups
    && all is_valid_group a.groups
    && (if length a.groups == 0
        then is_empty a.active_group_id
        else has_id group_id a.active_group_id a.groups)

-- The pane that is shown as active, and the active group.
abbrev pub find_active_group : ApplicationState → Option GroupState
find_active_group a = find_id group_id a.active_group_id a.groups

abbrev pub find_active_pane_index : GroupState → Option ℕ
find_active_pane_index g = index_of pane_id g.active_pane_id g.panes
