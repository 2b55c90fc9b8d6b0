-- ===== src/LayoutRects/Strip.antt =====
-- src/core/layout.cpp, `compute_layout_button_strip` and `divider_ratio_at`: the strip of layout buttons at
-- the right end of the header, and the ratio that a dragged divider stands for.
--
-- `divide position available` is the quotient of the two as `double`, a parameter.
use pane_dock.Common.{
  ℕ, zero, suc, ◌+◌, ◌*◌, ◌/◌, ◌≤◌, ◌≡◌, ◌≢◌, refl, sym, ap, subst, ◌∙◌, true, false, Option, none,
  some, ltb, leb, ◌==◌, if◌then◌else◌, Bool-cases, inl, inr, arith, ◌⊎◌,
}
use native.Mathlib.Nat.{le-div_iff_mul-le, mul-div-le, mul-le-mul_left}
use pane_dock.Common.Int.{
  -ℤ_parts, ℤ, pos, negsuc, pos_part, neg_part, ◌+ℤ◌, ◌-ℤ◌, ◌*ℤ◌, ◌≤ℤ◌, ltb_ℤ, leb_ℤ, max_ℤ, min_ℤ,
  int_laws,
}
use pane_dock.LayoutRects.Bounds.{max_ℤ-left}
use pane_dock.Model.{Double, not_a_number, infinite, finite, one_units, is_ratio}

pub record LayoutButtonStrip : Type 0 where
  pub x : ℤ
  pub button_width : ℤ
  pub total_width : ℤ

-- `available / button_count` of an `int` that is not negative and a count.
abbrev per_button : ℤ → ℕ → ℤ
per_button available n = pos (pos_part available / n)

unfoldable strip_of : ℤ → ℤ → ℤ → ℤ → ℤ → ℕ → LayoutButtonStrip
strip_of client_width sidebar_width margin gap preferred_button_width n =
    let gaps = (pos n -ℤ pos 1) *ℤ gap in
    let available = max_ℤ (pos 0) (client_width -ℤ sidebar_width -ℤ (pos 2 *ℤ margin) -ℤ gaps) in
    let button_width = max_ℤ (pos 1) (min_ℤ preferred_button_width (per_button available n)) in
    let total_width = pos n *ℤ button_width +ℤ gaps in
    record {
      x = max_ℤ (sidebar_width +ℤ margin) (client_width -ℤ margin -ℤ total_width);
      button_width = button_width;
      total_width = total_width;
    }

unfoldable pub compute_layout_button_strip : ℤ → ℤ → ℤ → ℤ → ℤ → ℤ → LayoutButtonStrip
unfolding strip_of
compute_layout_button_strip client_width sidebar_width margin gap preferred_button_width
      (negsuc n) =
    record { x = pos 0; button_width = pos 0; total_width = pos 0 }
compute_layout_button_strip client_width sidebar_width margin gap preferred_button_width
      (pos zero) =
    record { x = pos 0; button_width = pos 0; total_width = pos 0 }
compute_layout_button_strip client_width sidebar_width margin gap preferred_button_width
      (pos (suc k)) =
    strip_of client_width sidebar_width margin gap preferred_button_width (suc k)

-- `std::clamp(value, 0.0, 1.0)`.
unfoldable clamp_ratio : Double → Double
clamp_ratio not_a_number = not_a_number
clamp_ratio (infinite true) = finite false 0
clamp_ratio (infinite false) = finite false one_units
clamp_ratio (finite true units) = if units == 0 then finite true units else finite false 0
clamp_ratio (finite false units) =
    if ltb one_units units then finite false one_units else finite false units

unfoldable pub divider_ratio_at : (ℤ → ℤ → Double) → ℤ → ℤ → ℤ → Option Double
unfolding clamp_ratio
divider_ratio_at divide position size divider_thickness =
    let available = max_ℤ size divider_thickness -ℤ divider_thickness in
    if leb_ℤ available (pos 0) then none else some (clamp_ratio (divide position available))

clamp_ratio-is_ratio : (d : Double) → d ≢ not_a_number → is_ratio (clamp_ratio d) ≡ true
unfolding clamp_ratio is_ratio
clamp_ratio-is_ratio not_a_number h = absurd (h refl)
clamp_ratio-is_ratio (infinite true) h = refl
clamp_ratio-is_ratio (infinite false) h = refl
clamp_ratio-is_ratio (finite true units) h = elim (Bool-cases (units == 0)) [
  | inl e ↦ rw e e
  | inr e ↦ rw e refl
]
clamp_ratio-is_ratio (finite false units) h = elim (Bool-cases (ltb one_units units)) [
  | inl e ↦ rw e refl
  | inr e ↦ rw e (below one_units units e)
]
  where
    below : (limit units : ℕ) → ltb limit units ≡ false → leb units limit ≡ true
    below limit units e = ground arith

no_room :
    (size thickness : ℤ)
    → leb_ℤ (max_ℤ size thickness -ℤ thickness) (pos 0) ≡ true
    → size ≤ℤ thickness
unfolding max_ℤ
no_room size thickness e = ground (arith, -ℤ_parts (max_ℤ size thickness) thickness)

-- A drag of a divider gives no ratio where the area has no room beside a divider; otherwise it gives one that
-- a valid group may have, given that the quotient is a number.
pub divider_ratio_at-is_ratio :
    (divide : ℤ → ℤ → Double) (position size divider_thickness : ℤ)
    → (divide position (max_ℤ size divider_thickness -ℤ divider_thickness) ≢ not_a_number)
    → ((size ≤ℤ divider_thickness)
        × (divider_ratio_at divide position size divider_thickness ≡ none))
      ⊎ ((r : Double) × (divider_ratio_at divide position size divider_thickness ≡ some r)
          × (is_ratio r ≡ true))
unfolding divider_ratio_at
divider_ratio_at-is_ratio divide position size divider_thickness h =
    let available = max_ℤ size divider_thickness -ℤ divider_thickness in
    elim (Bool-cases (leb_ℤ available (pos 0))) [
      | inl e ↦ inl (no_room size divider_thickness e, rw e refl)
      | inr e ↦ inr (
        clamp_ratio (divide position available),
        rw e refl,
        clamp_ratio-is_ratio (divide position available) h,
      )
    ]

-- A width of at least one pixel, at most the preferred one and the room for each.
shared_width :
    (n q j : ℕ)
    → 1 ≤ n
    → n ≤ q
    → 1 ≤ j
    → (v : ℕ) × (max_ℤ (pos 1) (min_ℤ (pos j) (pos (q / n))) ≡ pos v)
      × (1 ≤ v)
      × (v ≤ j)
      × (n * v ≤ q)
unfolding max_ℤ min_ℤ
shared_width n q j o h p =
    let each : 1 ≤ q / n =
      (le-div_iff_mul-le {k = n} {x = 1} {y = q} (omega arith)).1 (omega arith) in
    let all : n * (q / n) ≤ q = mul-div-le q n in
    elim (Bool-cases (ltb (q / n) j)) [
      | inl e ↦ (q / n, ground arith, each, ground arith, all)
      | inr e ↦
          let less : n * j ≤ n * (q / n) = mul-le-mul_left n (ground arith) in
          (j, ground arith, p, omega arith, omega arith)
    ]

max_zero : (q : ℕ) → max_ℤ (pos 0) (pos q) ≡ pos q
unfolding max_ℤ
max_zero zero = refl
max_zero (suc q) = ground arith

product : (n v q : ℕ) → n * v ≤ q → pos n *ℤ pos v ≤ℤ pos q
unfolding ◌*ℤ◌
product n v q h = ground arith

-- The same for widths of `int`, and the room that all of them take.
shared_width_ℤ :
    (k : ℕ) (room preferred : ℤ)
    → pos (suc k) ≤ℤ room
    → pos 1 ≤ℤ preferred
    → let w = max_ℤ (pos 1) (min_ℤ preferred (per_button (max_ℤ (pos 0) room) (suc k))) in
      (pos 1 ≤ℤ w) × (w ≤ℤ preferred) × (pos (suc k) *ℤ w ≤ℤ room)
unfolding max_ℤ ◌*ℤ◌
shared_width_ℤ k (negsuc q) preferred h p = absurd (omega arith)
shared_width_ℤ k (pos q) (negsuc j) h p = absurd (omega arith)
shared_width_ℤ k (pos q) (pos j) h p =
    let (v, e, a, b, c) = shared_width (suc k) q j (omega arith) (omega arith) (omega arith) in
    subst (λ w. (pos 1 ≤ℤ w) × (w ≤ℤ pos j) × (pos (suc k) *ℤ w ≤ℤ pos q))
      (sym (ap (λ r. max_ℤ (pos 1) (min_ℤ (pos j) (per_button r (suc k)))) (max_zero q) ∙ e))
      (omega arith, omega arith, product (suc k) v q c)

twice_parts :
    (m : ℤ) → pos_part (pos 2 *ℤ m) + 2 * neg_part m ≡ neg_part (pos 2 *ℤ m) + 2 * pos_part m
unfolding ◌*ℤ◌
twice_parts m = ground arith

-- The right end of a strip that the room holds.
right_end :
    (c s m g w : ℤ)
    → w ≤ℤ c -ℤ s -ℤ (pos 2 *ℤ m) -ℤ g
    → max_ℤ (s +ℤ m) (c -ℤ m -ℤ (w +ℤ g)) +ℤ (w +ℤ g) ≤ℤ c -ℤ m
unfolding max_ℤ
right_end c s m g w h = elim (Bool-cases (ltb_ℤ (s +ℤ m) (c -ℤ m -ℤ (w +ℤ g)))) [
  | inl e ↦ rw e (omega int_laws)
  | inr e ↦ rw e (omega (int_laws, twice_parts m))
]

-- Where the room between the margins, beside the sidebar and the gaps, has a pixel for each of one button or
-- more, and the preferred width is one at least, every button has a pixel and no more than the preferred
-- width, and the strip lies between the sidebar with its margin and the margin at the right.
pub compute_layout_button_strip-fits :
    (client_width sidebar_width margin gap preferred_button_width : ℤ) (k : ℕ)
    → pos (suc k)
      ≤ℤ client_width -ℤ sidebar_width -ℤ (pos 2 *ℤ margin) -ℤ ((pos (suc k) -ℤ pos 1) *ℤ gap)
    → pos 1 ≤ℤ preferred_button_width
    → let strip =
        compute_layout_button_strip client_width sidebar_width margin gap preferred_button_width
          (pos (suc k)) in
      (pos 1 ≤ℤ strip.button_width)
      × (strip.button_width ≤ℤ preferred_button_width)
      × (sidebar_width +ℤ margin ≤ℤ strip.x)
      × (strip.x +ℤ strip.total_width ≤ℤ client_width -ℤ margin)
unfolding compute_layout_button_strip
compute_layout_button_strip-fits client_width sidebar_width margin gap preferred_button_width k h
      p =
    let room =
      client_width -ℤ sidebar_width -ℤ (pos 2 *ℤ margin) -ℤ ((pos (suc k) -ℤ pos 1) *ℤ gap) in
    let (one, most, all) = shared_width_ℤ k room preferred_button_width h p in
    (
      one,
      most,
      max_ℤ-left _ _,
      right_end client_width sidebar_width margin ((pos (suc k) -ℤ pos 1) *ℤ gap) _ all,
    )
