-- ===== src/LayoutRects/Tests.antt =====
-- A layout of three panes, with a scale that halves.
use pane_dock.LayoutRects.Strip.{
  LayoutButtonStrip, compute_layout_button_strip, compute_layout_button_strip-fits,
}
use pane_dock.Common.{true, false, refl, ◌/◌, [], ◌∷◌, ◌≡◌, length, All, arith}
use pane_dock.Common.Int.{◌*ℤ◌, ◌≤ℤ◌, max_ℤ, min_ℤ, ◌+ℤ◌, ◌-ℤ◌, ℤ, pos, pos_part}
use pane_dock.Model.{three_pane, Double, half, pane_count, divider_ratio_count}
use pane_dock.LayoutRects.{
  sidebar_boundary_contains, pane_content_rect, rect, compute_layout_rects, compute_splitter_rects,
}
use pane_dock.LayoutRects.Bounds.{IsLarge, compute_layout_rects-IsLarge}
use pane_dock.LayoutRects.Places.{AreInOrder, IsBetween, compute_layout_rects-apart}

abbrev halved : ℤ → Double → ℤ
halved n ratio = pos (pos_part n / 2)

compute_layout_rects-IsLarge_example :
    let rects =
      compute_layout_rects halved
        (pos 800)
        (pos 600)
        three_pane
        (half ∷ half ∷ [])
        (pos 120)
        (pos 80)
        (pos 4) in
    (length rects ≡ pane_count three_pane) × All (IsLarge (pos 120) (pos 80)) rects
compute_layout_rects-IsLarge_example =
    compute_layout_rects-IsLarge halved (pos 800) (pos 600) three_pane (half ∷ half ∷ []) (pos 120)
      (pos 80) (pos 4)

compute_layout_rects-apart_example :
    let panes =
      compute_layout_rects halved
        (pos 800)
        (pos 600)
        three_pane
        (half ∷ half ∷ [])
        (pos 120)
        (pos 80)
        (pos 4) in
    let splitters = compute_splitter_rects panes three_pane (pos 4) in
    AreInOrder panes
    × (length splitters ≡ divider_ratio_count three_pane)
    × All (IsBetween panes) splitters
compute_layout_rects-apart_example =
    compute_layout_rects-apart halved (pos 800) (pos 600) three_pane (half ∷ half ∷ []) (pos 120)
      (pos 80) (pos 4) (omega arith)

-- The strip of four around 200 starts at 198 and ends before 202.
grabs : sidebar_boundary_contains (pos 198) (pos 200) (pos 4) (pos 0) (pos 800) ≡ true
unfolding sidebar_boundary_contains max_ℤ min_ℤ ◌+ℤ◌ ◌-ℤ◌
grabs = refl

misses : sidebar_boundary_contains (pos 202) (pos 200) (pos 4) (pos 0) (pos 800) ≡ false
unfolding sidebar_boundary_contains max_ℤ min_ℤ ◌+ℤ◌ ◌-ℤ◌
misses = refl

-- An area that cannot hold a pane and the padding keeps its extent.
keeps_small :
    pane_content_rect (rect (pos 0) (pos 0) (pos 130) (pos 90)) (pos 6) (pos 120) (pos 80)
    ≡ rect (pos 0) (pos 0) (pos 130) (pos 90)
unfolding pane_content_rect ◌+ℤ◌ ◌-ℤ◌
keeps_small = refl

-- Eight buttons in a window with room for them, and in one that is too narrow.
abbrev wide_strip : LayoutButtonStrip
wide_strip = compute_layout_button_strip (pos 1000) (pos 200) (pos 8) (pos 4) (pos 32) (pos 8)

wide_strip_lem : wide_strip ≡ record { x = pos 708; button_width = pos 32; total_width = pos 284 }
unfolding compute_layout_button_strip max_ℤ min_ℤ ◌+ℤ◌ ◌-ℤ◌ ◌*ℤ◌
wide_strip_lem = refl

narrow_strip_lem :
    compute_layout_button_strip (pos 240) (pos 200) (pos 8) (pos 4) (pos 32) (pos 8)
    ≡ record { x = pos 208; button_width = pos 1; total_width = pos 36 }
unfolding compute_layout_button_strip max_ℤ min_ℤ ◌+ℤ◌ ◌-ℤ◌ ◌*ℤ◌
narrow_strip_lem = refl

has_room : pos 8 ≤ℤ pos 1000 -ℤ pos 200 -ℤ (pos 2 *ℤ pos 8) -ℤ ((pos 8 -ℤ pos 1) *ℤ pos 4)
unfolding ◌-ℤ◌ ◌*ℤ◌
has_room = omega arith

compute_layout_button_strip-fits_example :
    (pos 1 ≤ℤ wide_strip.button_width)
    × (wide_strip.button_width ≤ℤ pos 32)
    × (pos 200 +ℤ pos 8 ≤ℤ wide_strip.x)
    × (wide_strip.x +ℤ wide_strip.total_width ≤ℤ pos 1000 -ℤ pos 8)
compute_layout_button_strip-fits_example =
    compute_layout_button_strip-fits (pos 1000) (pos 200) (pos 8) (pos 4) (pos 32) 7 has_room
      (omega arith)
