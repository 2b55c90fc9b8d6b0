-- ===== src/Json/Samples.antt =====
-- Numbers written as ones, one more than their units: a form of numbers on which the format is tried.
use mathlib.Core.List.{append-nil}
use mathlib.Core.Option.{some_inj}
use pane_dock.Common.{
  subst, ◌∙◌, Bool, ◌*◌, ◌^◌, ◌/◌, ◌%◌, ◌<◌, ◌≤◌, ◌||◌, ◌&&◌, ltb, Bool-cases, ℕ, zero, suc, ◌-◌,
  ◌≡◌, refl, ap, sym, ◌==◌, if◌then◌else◌, true, false, [], ◌∷◌, Option, none, some, Text, all,
  arith, inl, inr,
}
use pane_dock.Model.{Double, not_a_number, infinite, finite}
use pane_dock.Json.Parse.{is_digit}
use pane_dock.Json.Parse.Numbers.{IsNumeral, IsUnsigned}
use pane_dock.Json.Parse.Steps.{IsFinite}

unfoldable pub ones : ℕ → Text
ones zero = []
ones (suc n) = 0x31 ∷ ones n

abbrev pub show_ones : Double → Text
show_ones not_a_number = 0x6e ∷ []
show_ones (infinite negative) = 0x69 ∷ []
show_ones (finite true units) = 0x2d ∷ 0x31 ∷ ones units
show_ones (finite false units) = 0x31 ∷ ones units

abbrev pub count : Text → ℕ
count [] = 0
count (c ∷ t) = suc (count t)

abbrev pub scan_ones : Text → Option Double
scan_ones [] = none
scan_ones (c ∷ t) = some (if c == 0x2d then finite true (count t - 1) else finite false (count t))

all-ones : (n : ℕ) → all is_digit (ones n) ≡ true
unfolding ones
all-ones zero = refl
all-ones (suc n) = all-ones n

count-ones : (n : ℕ) → count (ones n) ≡ n
unfolding ones
count-ones zero = refl
count-ones (suc n) = ap suc (count-ones n)

ones-IsUnsigned : (n : ℕ) → IsUnsigned (0x31 ∷ ones n)
ones-IsUnsigned n = (
  0x31 ∷ ones n,
  [],
  [],
  sym (append-nil (0x31 ∷ ones n)),
  inr (0x31, ones n, refl, omega arith, omega arith, all-ones n),
  inl refl,
  inl refl,
)

pub show_ones-IsNumeral : (d : Double) → IsFinite d → IsNumeral (show_ones d)
show_ones-IsNumeral not_a_number h = absurd h
show_ones-IsNumeral (infinite negative) h = absurd h
show_ones-IsNumeral (finite true units) h = inr (0x31 ∷ ones units, refl, ones-IsUnsigned units)
show_ones-IsNumeral (finite false units) h = inl (ones-IsUnsigned units)

pub scan_ones-show_ones : (d : Double) → IsFinite d → scan_ones (show_ones d) ≡ some d
scan_ones-show_ones not_a_number h = absurd h
scan_ones-show_ones (infinite negative) h = absurd h
scan_ones-show_ones (finite true units) h =
    ap (λ n. some (finite true n)) (omega (arith, count-ones units))
scan_ones-show_ones (finite false units) h = ap (λ n. some (finite false n)) (count-ones units)

-- Whether a number of units is a finite value of the type, with a scale up to a bound.
unfoldable fits : ℕ → ℕ → Bool
fits zero units = ltb units (2 ^ 53)
fits (suc scale) units =
    let rest = fits scale (units / 2) in ltb units (2 ^ 53) || ((units % 2 == 0) && rest)

double_again : (b k : ℕ) → b * 2 ^ suc k ≡ 2 * (b * 2 ^ k)
double_again b k = grind arith

fits_sound :
    (scale units : ℕ)
    → fits scale units ≡ true
    → (b : ℕ) × (k : ℕ) × (units ≡ b * 2 ^ k) × (b < 2 ^ 53) × (k ≤ scale)
unfolding fits
fits_sound zero units h = (units, 0, omega arith, ground arith, omega arith)
fits_sound (suc scale) units h = elim (Bool-cases (ltb units (2 ^ 53))) [
  | inl e ↦ (units, 0, omega arith, ground arith, omega arith)
  | inr e ↦
      let (b, k, f, l, m) = fits_sound scale (units / 2) (ground arith) in
      let even : units % 2 ≡ 0 = ground arith in
      (b, suc k, omega (arith, f, even, double_again b k), l, omega arith)
]

fits_complete : (scale b k : ℕ) → b < 2 ^ 53 → k ≤ scale → fits scale (b * 2 ^ k) ≡ true
unfolding fits
fits_complete zero b zero l m = ground arith
fits_complete zero b (suc k) l m = absurd (omega arith)
fits_complete (suc scale) b zero l m = ground arith
fits_complete (suc scale) b (suc k) l m =
    let rest = fits_complete scale b k l (omega arith) in
    let halved : (b * 2 ^ suc k) / 2 ≡ b * 2 ^ k = omega (arith, double_again b k) in
    let even : (b * 2 ^ suc k) % 2 ≡ 0 = omega (arith, double_again b k) in
    rw (halved, even) ground (arith, rest)

-- Only the values of the type.
abbrev is_double : Double → Bool
is_double not_a_number = false
is_double (infinite negative) = false
is_double (finite negative units) = fits 2045 units

abbrev keep_double : Option Double → Option Double
keep_double none = none
keep_double (some d) = if is_double d then some d else none

pub scan_doubles : Text → Option Double
scan_doubles t = keep_double (scan_ones t)

is_double-IsFinite : (d : Double) → IsFinite d → is_double d ≡ true
is_double-IsFinite not_a_number h = absurd h
is_double-IsFinite (infinite negative) h = absurd h
is_double-IsFinite (finite negative units) (b, k, e, l, m) = rw e (fits_complete 2045 b k l m)

keep_double-some : (o : Option Double) (d : Double) → keep_double o ≡ some d → IsFinite d
keep_double-some none d h = absurd cc
keep_double-some (some not_a_number) d h = absurd cc
keep_double-some (some (infinite negative)) d h = absurd cc
keep_double-some (some (finite negative units)) d h = elim (Bool-cases (fits 2045 units)) [
  | inl e ↦
      subst IsFinite
        (some_inj.0 (subst (λ b. (if b then some (finite negative units) else none) ≡ some d) e h))
        (fits_sound 2045 units e)
  | inr e ↦
      let never = subst (λ b. (if b then some (finite negative units) else none) ≡ some d) e h in
      absurd cc
]

pub scan_doubles-show_ones : (d : Double) → IsFinite d → scan_doubles (show_ones d) ≡ some d
unfolding scan_doubles
scan_doubles-show_ones d h =
    ap keep_double (scan_ones-show_ones d h) ∙ rw (is_double-IsFinite d h) refl

pub scan_doubles-IsFinite : (t : Text) (d : Double) → scan_doubles t ≡ some d → IsFinite d
unfolding scan_doubles
scan_doubles-IsFinite t d h = keep_double-some (scan_ones t) d h
