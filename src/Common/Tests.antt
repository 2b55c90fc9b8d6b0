-- ===== src/Common/Tests.antt =====
-- Boolean tests on the native numbers, the conditional, and case lemmas on computed values.
use Prim.Native.Nat.{ℕ, ◌≤◌, ◌<◌, compare, Ordering}
use mathlib.Core.Path.{◌≡◌, refl}
use mathlib.Core.Logic.{◌⊎◌, inl, inr}
use mathlib.Core.Bool.{Bool, true, false, ◌&&◌}
use mathlib.Core.Option.{Option, none, some}
use native.Mathlib.Omega.{arith}

abbrev pub ltb : ℕ → ℕ → Bool
ltb a b = elim (compare a b) [ Ordering.lt ↦ true | _ ↦ false ]

abbrev pub leb : ℕ → ℕ → Bool
leb a b = elim (compare a b) [ Ordering.gt ↦ false | _ ↦ true ]

infix 50 ◌==◌
abbrev pub ◌==◌ : ℕ → ℕ → Bool
a == b = elim (compare a b) [ Ordering.eq ↦ true | _ ↦ false ]

infix 1 if◌then◌else◌
abbrev pub if◌then◌else◌ {ℓ} : {A : Type ℓ} → Bool → A → A → A
if true then x else y = x
if false then x else y = y

abbrev pub not : Bool → Bool
not true = false
not false = true

-- `==` on a type with decidable equality.
abbrev pub holds {ℓ} : {P : Type ℓ} → Dec P → Bool
holds (yes p) = true
holds (no p) = false

pub holds-true {ℓ} : {P : Type ℓ} (d : Dec P) → holds d ≡ true → P
holds-true (yes p) h = p
holds-true (no p) h = cc

pub holds-false {ℓ} : {P : Type ℓ} (d : Dec P) → holds d ≡ false → ¬ P
holds-false (yes p) h = cc
holds-false (no p) h = p

pub holds_of {ℓ} : {P : Type ℓ} (d : Dec P) → P → holds d ≡ true
holds_of (yes p) h = refl
holds_of (no p) h = absurd (p h)

pub holds_of_not {ℓ} : {P : Type ℓ} (d : Dec P) → ¬ P → holds d ≡ false
holds_of_not (yes p) h = absurd (h p)
holds_of_not (no p) h = refl

pub Bool-cases : (b : Bool) → (b ≡ true) ⊎ (b ≡ false)
Bool-cases true = inl refl
Bool-cases false = inr refl

pub Option-cases {ℓ} : {A : Type ℓ} (o : Option A) → (o ≡ none) ⊎ ((a : A) × (o ≡ some a))
Option-cases none = inl refl
Option-cases (some a) = inr (a, refl)

pub and-true : (a b : Bool) → (a && b) ≡ true → (a ≡ true) × (b ≡ true)
and-true true true h = (refl, refl)
and-true true false h = cc
and-true false b h = cc

pub ltb→lt : (a b : ℕ) → ltb a b ≡ true → a < b
ltb→lt a b h = ground arith

pub leb→le : (a b : ℕ) → leb a b ≡ true → a ≤ b
leb→le a b h = ground arith
