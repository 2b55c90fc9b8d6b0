-- ===== src/LayoutRects/Places.antt =====
-- The panes and the dividers do not overlap.
use pane_dock.Common.{◌≡◌, refl, List, [], ◌∷◌, arith, length, All, ◌⊎◌}
use pane_dock.Common.Int.{ℤ, pos, ◌+ℤ◌, ◌-ℤ◌, ◌≤ℤ◌, int_laws}
use pane_dock.Model.{
  LayoutTemplate, single, left_right, top_bottom, three_pane, two_over_one, one_over_two,
  two_beside_one, four_pane_grid, Double, divider_ratio_count,
}
use pane_dock.LayoutRects.{
  PaneRect, SplitterRect, place, compute_layout_rects, compute_splitter_rects,
}

-- `a` lies left of `b`, or above it.
abbrev pub IsBefore : PaneRect → PaneRect → Type 0
IsBefore a b = (a.x +ℤ a.width ≤ℤ b.x) ⊎ (a.y +ℤ a.height ≤ℤ b.y)

abbrev pub AreInOrder : List PaneRect → Type 0
AreInOrder [] = Unit {0}
AreInOrder (r ∷ rs) = All (λ s. IsBefore r s) rs × AreInOrder rs

-- The divider overlaps no pane.
abbrev pub IsBetween : List PaneRect → SplitterRect → Type 0
IsBetween panes s = All (λ p. IsBefore p s.rect ⊎ IsBefore s.rect p) panes

past : (l t : ℤ) → pos 0 ≤ℤ t → pos 0 +ℤ l ≤ℤ l +ℤ t
past l t h = omega int_laws

edges :
    (l t : ℤ)
    → ((pos 0 +ℤ l) +ℤ t ≤ℤ l +ℤ t)
      × (pos 0 +ℤ l ≤ℤ (l +ℤ t) -ℤ t)
      × (((l +ℤ t) -ℤ t) +ℤ t ≤ℤ l +ℤ t)
edges l t = (omega int_laws, omega int_laws, omega int_laws)

module _ (scale : ℤ → Double → ℤ) where
  place-order :
      (template : LayoutTemplate) (w h t l r u d : ℤ)
      → pos 0 ≤ℤ t
      → AreInOrder (place scale template w h (l, r) (u, d) t)
  unfolding place
  place-order single w h t l r u d k = ground (arith, past l t k, past u t k)
  place-order left_right w h t l r u d k = ground (arith, past l t k, past u t k)
  place-order top_bottom w h t l r u d k = ground (arith, past l t k, past u t k)
  place-order three_pane w h t l r u d k = ground (arith, past l t k, past u t k)
  place-order two_over_one w h t l r u d k = ground (arith, past l t k, past u t k)
  place-order one_over_two w h t l r u d k = ground (arith, past l t k, past u t k)
  place-order two_beside_one w h t l r u d k = ground (arith, past l t k, past u t k)
  place-order four_pane_grid w h t l r u d k = ground (arith, past l t k, past u t k)

  place-count :
      (template : LayoutTemplate) (w h : ℤ) (across down : ℤ × ℤ) (t : ℤ)
      → length (compute_splitter_rects (place scale template w h across down t) template t)
        ≡ divider_ratio_count template
  unfolding place compute_splitter_rects divider_ratio_count
  place-count single w h across down t = refl
  place-count left_right w h across down t = refl
  place-count top_bottom w h across down t = refl
  place-count three_pane w h across down t = refl
  place-count two_over_one w h across down t = refl
  place-count one_over_two w h across down t = refl
  place-count two_beside_one w h across down t = refl
  place-count four_pane_grid w h across down t = refl

  place-IsBetween :
      (template : LayoutTemplate) (w h t l r u d : ℤ)
      → pos 0 ≤ℤ t
      → let panes = place scale template w h (l, r) (u, d) t in
        All (IsBetween panes) (compute_splitter_rects panes template t)
  unfolding place compute_splitter_rects
  place-IsBetween single w h t l r u d k = tt
  place-IsBetween left_right w h t l r u d k =
      ground (arith, past l t k, past u t k, edges l t, edges u t)
  place-IsBetween top_bottom w h t l r u d k =
      ground (arith, past l t k, past u t k, edges l t, edges u t)
  place-IsBetween three_pane w h t l r u d k =
      ground (arith, past l t k, past u t k, edges l t, edges u t)
  place-IsBetween two_over_one w h t l r u d k =
      ground (arith, past l t k, past u t k, edges l t, edges u t)
  place-IsBetween one_over_two w h t l r u d k =
      ground (arith, past l t k, past u t k, edges l t, edges u t)
  place-IsBetween two_beside_one w h t l r u d k =
      ground (arith, past l t k, past u t k, edges l t, edges u t)
  place-IsBetween four_pane_grid w h t l r u d k =
      ground (arith, past l t k, past u t k, edges l t, edges u t)

  -- With a thickness that is not negative, the panes of a layout are in reading order and do not
  -- overlap, the template's dividers are as many as its ratios, and no divider overlaps a pane.
  pub compute_layout_rects-apart :
      (client_width client_height : ℤ) (template : LayoutTemplate) (ratios : List Double)
      (mw mh t : ℤ)
      → pos 0 ≤ℤ t
      → let panes = compute_layout_rects scale client_width client_height template ratios mw mh t in
        let splitters = compute_splitter_rects panes template t in
        AreInOrder panes
        × (length splitters ≡ divider_ratio_count template)
        × All (IsBetween panes) splitters
  unfolding compute_layout_rects
  compute_layout_rects-apart client_width client_height template ratios mw mh t h = (
    place-order template _ _ t _ _ _ _ h,
    place-count template _ _ _ _ t,
    place-IsBetween template _ _ t _ _ _ _ h,
  )
