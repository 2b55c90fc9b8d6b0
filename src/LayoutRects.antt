-- ===== src/LayoutRects.antt =====
-- src/core/layout.h and src/core/layout.cpp: where the panes, the dividers and the window's fixed parts go.
--
-- `scale available ratio` is `static_cast<int>(std::lround(available * ratio))`, floating-point
-- arithmetic of the C++ library: a parameter. The model stays where no `int` overflows.
pub mod Bounds
pub mod Places
pub mod Strip
mod Tests
use mathlib.Core.Option
use pane_dock.Common.{
  ℕ, zero, suc, ◌+◌, ◌/◌, Bool, true, false, ◌&&◌, ◌||◌, List, [], ◌∷◌, Option, none, some, ltb,
  leb, ◌==◌, if◌then◌else◌, length, not,
}
use pane_dock.Common.Int.{
  ℤ, pos, negsuc, ◌+ℤ◌, ◌-ℤ◌, ◌*ℤ◌, ltb_ℤ, leb_ℤ, max_ℤ, min_ℤ, clamp_ℤ, sub_ℕ,
}
use pane_dock.Model.{
  LayoutTemplate, single, left_right, top_bottom, three_pane, two_over_one, one_over_two,
  two_beside_one, four_pane_grid, Double, half, pane_count, divider_ratio_count,
  default_divider_ratios,
}

abbrev pub sidebar_minimum_width : ℤ
sidebar_minimum_width = pos 160

abbrev pub sidebar_maximum_width : ℤ
sidebar_maximum_width = pos 420

pub record PaneRect : Type 0 where
  pub x : ℤ
  pub y : ℤ
  pub width : ℤ
  pub height : ℤ

abbrev pub rect : ℤ → ℤ → ℤ → ℤ → PaneRect
rect x y width height = record { x = x; y = y; width = width; height = height }

pub record SplitterRect : Type 0 where
  pub rect : PaneRect
  pub ratio_index : ℕ
  pub vertical : Bool

pub pane_content_rect : PaneRect → ℤ → ℤ → ℤ → PaneRect
pane_content_rect area padding minimum_pane_width minimum_pane_height =
    if ltb_ℤ area.width (minimum_pane_width +ℤ (padding +ℤ padding))
      || ltb_ℤ area.height (minimum_pane_height +ℤ (padding +ℤ padding))
    then area
    else rect (area.x +ℤ padding) (area.y +ℤ padding) (area.width -ℤ (padding +ℤ padding))
        (area.height -ℤ (padding +ℤ padding))

-- `n / 2` of an `int`, which rounds towards zero.
half_of : ℤ → ℤ
half_of (pos n) = pos (n / 2)
half_of (negsuc n) = pos 0 -ℤ pos (suc n / 2)

pub sidebar_boundary_contains : ℤ → ℤ → ℤ → ℤ → ℤ → Bool
unfolding half_of
sidebar_boundary_contains x boundary thickness client_left client_right =
    let left = max_ℤ client_left (boundary -ℤ half_of thickness) in
    let right = min_ℤ client_right (boundary +ℤ thickness -ℤ half_of thickness) in
    ltb_ℤ left right && leb_ℤ left x && ltb_ℤ x right

pub clamp_sidebar_width : ℤ → ℤ → ℤ
clamp_sidebar_width start_width delta =
    clamp_ℤ (start_width +ℤ delta) sidebar_minimum_width sidebar_maximum_width

-- `ratios[n]`; the callers below only read indices that the vector has.
abbrev pub ratio_at : List Double → ℕ → Double
ratio_at [] n = half
ratio_at (r ∷ rs) zero = r
ratio_at (r ∷ rs) (suc n) = ratio_at rs n

module _ (scale : ℤ → Double → ℤ) where
  pub split : ℤ → Double → ℤ → ℤ → ℤ × ℤ
  split size ratio minimum divider_thickness =
      let available = max_ℤ size divider_thickness -ℤ divider_thickness in
      let first = max_ℤ minimum (scale available ratio) in
      (first, max_ℤ minimum (available -ℤ first))

  -- The `switch`, on the extents, the two splits and the thickness.
  pub place : LayoutTemplate → ℤ → ℤ → ℤ × ℤ → ℤ × ℤ → ℤ → List PaneRect
  place single width height across down t = rect (pos 0) (pos 0) width height ∷ []
  place left_right width height (left, right) down t =
      rect (pos 0) (pos 0) left height ∷ rect (left +ℤ t) (pos 0) right height ∷ []
  place top_bottom width height across (top, bottom) t =
      rect (pos 0) (pos 0) width top ∷ rect (pos 0) (top +ℤ t) width bottom ∷ []
  place three_pane width height (left, right) (top, bottom) t =
      rect (pos 0) (pos 0) left height
      ∷ rect (left +ℤ t) (pos 0) right top
      ∷ rect (left +ℤ t) (top +ℤ t) right bottom
      ∷ []
  place two_over_one width height (left, right) (top, bottom) t =
      rect (pos 0) (pos 0) left top
      ∷ rect (left +ℤ t) (pos 0) right top
      ∷ rect (pos 0) (top +ℤ t) width bottom
      ∷ []
  place one_over_two width height (left, right) (top, bottom) t =
      rect (pos 0) (pos 0) width top
      ∷ rect (pos 0) (top +ℤ t) left bottom
      ∷ rect (left +ℤ t) (top +ℤ t) right bottom
      ∷ []
  place two_beside_one width height (left, right) (top, bottom) t =
      rect (pos 0) (pos 0) left top
      ∷ rect (pos 0) (top +ℤ t) left bottom
      ∷ rect (left +ℤ t) (pos 0) right height
      ∷ []
  place four_pane_grid width height (left, right) (top, bottom) t =
      rect (pos 0) (pos 0) left top
      ∷ rect (left +ℤ t) (pos 0) right top
      ∷ rect (pos 0) (top +ℤ t) left bottom
      ∷ rect (left +ℤ t) (top +ℤ t) right bottom
      ∷ []

  -- Which ratio each direction of a template reads.
  pub across_ratio : LayoutTemplate → ℕ
  across_ratio two_over_one = 1
  across_ratio one_over_two = 1
  across_ratio _ = 0

  pub down_ratio : LayoutTemplate → ℕ
  down_ratio three_pane = 1
  down_ratio two_beside_one = 1
  down_ratio four_pane_grid = 1
  down_ratio _ = 0

  pub compute_layout_rects : ℤ → ℤ → LayoutTemplate → List Double → ℤ → ℤ → ℤ → List PaneRect
  unfolding place split across_ratio down_ratio
  compute_layout_rects client_width client_height template divider_ratios minimum_pane_width
        minimum_pane_height divider_thickness =
      let ratios =
        if length divider_ratios == divider_ratio_count template
        then divider_ratios
        else default_divider_ratios template in
      place template (max_ℤ client_width minimum_pane_width)
        (max_ℤ client_height minimum_pane_height)
        (split client_width (ratio_at ratios (across_ratio template)) minimum_pane_width
          divider_thickness)
        (split client_height (ratio_at ratios (down_ratio template)) minimum_pane_height
          divider_thickness)
        divider_thickness

abbrev pub vertical_bar : ℤ → ℤ → ℤ → ℤ → ℕ → SplitterRect
vertical_bar thickness x y height index = record {
  rect = rect x y thickness height;
  ratio_index = index;
  vertical = true;
}

abbrev pub horizontal_bar : ℤ → ℤ → ℤ → ℤ → ℕ → SplitterRect
horizontal_bar thickness x y width index = record {
  rect = rect x y width thickness;
  ratio_index = index;
  vertical = false;
}

-- The `switch`; its first clause with too few panes is the guard, `panes.size() < pane_count`.
pub compute_splitter_rects : List PaneRect → LayoutTemplate → ℤ → List SplitterRect
compute_splitter_rects (a ∷ b ∷ _) left_right t =
    vertical_bar t (a.x +ℤ a.width) a.y a.height 0 ∷ []
compute_splitter_rects (a ∷ b ∷ _) top_bottom t =
    horizontal_bar t a.x (a.y +ℤ a.height) a.width 0 ∷ []
compute_splitter_rects (a ∷ b ∷ c ∷ _) three_pane t =
    vertical_bar t (a.x +ℤ a.width) a.y a.height 0
    ∷ horizontal_bar t b.x (b.y +ℤ b.height) b.width 1
    ∷ []
compute_splitter_rects (a ∷ b ∷ c ∷ d ∷ _) four_pane_grid t =
    vertical_bar t (a.x +ℤ a.width) a.y (c.y +ℤ c.height -ℤ a.y) 0
    ∷ horizontal_bar t a.x (a.y +ℤ a.height) (b.x +ℤ b.width -ℤ a.x) 1
    ∷ []
compute_splitter_rects (a ∷ b ∷ c ∷ _) two_over_one t =
    horizontal_bar t c.x (c.y -ℤ t) c.width 0 ∷ vertical_bar t (a.x +ℤ a.width) a.y a.height 1 ∷ []
compute_splitter_rects (a ∷ b ∷ c ∷ _) one_over_two t =
    horizontal_bar t b.x (b.y -ℤ t) (c.x +ℤ c.width -ℤ b.x) 0
    ∷ vertical_bar t (b.x +ℤ b.width) b.y b.height 1
    ∷ []
compute_splitter_rects (a ∷ b ∷ c ∷ _) two_beside_one t =
    vertical_bar t (c.x -ℤ t) c.y c.height 0 ∷ horizontal_bar t a.x (a.y +ℤ a.height) a.width 1 ∷ []
compute_splitter_rects _ _ t = []
