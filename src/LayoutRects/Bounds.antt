-- ===== src/LayoutRects/Bounds.antt =====
-- The sizes of the panes.
use pane_dock.Common.{◌≡◌, refl, List, arith, length, All}
use pane_dock.Common.Int.{ℤ, ◌≤ℤ◌, max_ℤ, clamp_ℤ}
use pane_dock.Model.{
  LayoutTemplate, single, left_right, top_bottom, three_pane, two_over_one, one_over_two,
  two_beside_one, four_pane_grid, Double, pane_count,
}
use pane_dock.LayoutRects.{
  PaneRect, split, place, compute_layout_rects, clamp_sidebar_width, sidebar_minimum_width,
  sidebar_maximum_width,
}

-- No smaller than the minimum.
abbrev pub IsLarge : ℤ → ℤ → PaneRect → Type 0
IsLarge w h r = (w ≤ℤ r.width) × (h ≤ℤ r.height)

max_ℤ-right : (a b : ℤ) → b ≤ℤ max_ℤ a b
unfolding max_ℤ
max_ℤ-right a b = ground arith

pub max_ℤ-left : (a b : ℤ) → a ≤ℤ max_ℤ a b
unfolding max_ℤ
max_ℤ-left a b = ground arith

module _ (scale : ℤ → Double → ℤ) where
  split-minimum :
      (size : ℤ) (ratio : Double) (m t : ℤ)
      → (m ≤ℤ (split scale size ratio m t).0) × (m ≤ℤ (split scale size ratio m t).1)
  unfolding split
  split-minimum size ratio m t = (max_ℤ-left m _, max_ℤ-left m _)

  place-IsLarge :
      (template : LayoutTemplate) (w h mw mh t : ℤ) (across down : ℤ × ℤ)
      → mw ≤ℤ w
      → mh ≤ℤ h
      → (mw ≤ℤ across.0) × (mw ≤ℤ across.1)
      → (mh ≤ℤ down.0) × (mh ≤ℤ down.1)
      → (length (place scale template w h across down t) ≡ pane_count template)
        × All (IsLarge mw mh) (place scale template w h across down t)
  unfolding place pane_count
  place-IsLarge single w h mw mh t across down a b c d = (refl, ((a, b), tt))
  place-IsLarge left_right w h mw mh t across down a b c d = (refl, ((c.0, b), ((c.1, b), tt)))
  place-IsLarge top_bottom w h mw mh t across down a b c d = (refl, ((a, d.0), ((a, d.1), tt)))
  place-IsLarge three_pane w h mw mh t across down a b c d =
      (refl, ((c.0, b), ((c.1, d.0), ((c.1, d.1), tt))))
  place-IsLarge two_over_one w h mw mh t across down a b c d =
      (refl, ((c.0, d.0), ((c.1, d.0), ((a, d.1), tt))))
  place-IsLarge one_over_two w h mw mh t across down a b c d =
      (refl, ((a, d.0), ((c.0, d.1), ((c.1, d.1), tt))))
  place-IsLarge two_beside_one w h mw mh t across down a b c d =
      (refl, ((c.0, d.0), ((c.0, d.1), ((c.1, b), tt))))
  place-IsLarge four_pane_grid w h mw mh t across down a b c d =
      (refl, ((c.0, d.0), ((c.1, d.0), ((c.0, d.1), ((c.1, d.1), tt)))))

  -- Whatever the window's size, the template and the ratios, and however the ratios are scaled, the
  -- layout has as many panes as its template, none of them below the minimum size.
  pub compute_layout_rects-IsLarge :
      (client_width client_height : ℤ) (template : LayoutTemplate) (ratios : List Double)
      (mw mh t : ℤ)
      → let rects = compute_layout_rects scale client_width client_height template ratios mw mh t in
        (length rects ≡ pane_count template) × All (IsLarge mw mh) rects
  unfolding compute_layout_rects
  compute_layout_rects-IsLarge client_width client_height template ratios mw mh t =
      place-IsLarge template _ _ mw mh t _ _ (max_ℤ-right client_width mw)
        (max_ℤ-right client_height mh) (split-minimum client_width _ mw t)
        (split-minimum client_height _ mh t)

pub clamp_sidebar_width-bounds :
    (start_width delta : ℤ)
    → (sidebar_minimum_width ≤ℤ clamp_sidebar_width start_width delta)
      × (clamp_sidebar_width start_width delta ≤ℤ sidebar_maximum_width)
unfolding clamp_sidebar_width clamp_ℤ
clamp_sidebar_width-bounds start_width delta = ground arith
