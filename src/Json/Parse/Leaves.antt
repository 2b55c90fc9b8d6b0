-- ===== src/Json/Parse/Leaves.antt =====
-- How much of its input a reader of `Parser` leaves, and readers one behind the other.
use mathlib.Core.Option.{some_inj}
use pane_dock.Common.{
  ℕ, ◌+◌, ◌≤◌, ◌<◌, ◌≡◌, refl, subst, Bool, true, false, [], ◌∷◌, Option, none, some, Text,
  if◌then◌else◌, length, arith,
}
use pane_dock.Json.Parse.{
  Outcome, parsed, refused, starved, and_then, whitespace, take, take_here, behind,
}

-- What is left behind an optional reader, no more than a bound.
abbrev pub Leaves {ℓ} : {A : Type ℓ} → ℕ → Option (A × Text) → Type 0
Leaves n none = Unit
Leaves n (some read) = length read.1 ≤ n

-- An outcome that is no starved one, with less than a bound left.
abbrev pub Shrinks : {A : Type 0} → ℕ → Outcome A → Type 0
Shrinks n (parsed a rest) = length rest < n
Shrinks n refused = Unit
Shrinks n starved = ⊥

pub length-whitespace : (t : Text) → length (whitespace t) ≤ length t
unfolding whitespace
length-whitespace [] = omega arith
length-whitespace (c ∷ t) = ground (arith, length-whitespace t)

pub length-take : (c : ℕ) (t rest : Text) → take c t ≡ some rest → length rest < length t
unfolding take
length-take c t rest e = go (whitespace t) (length-whitespace t) e
  where
    go : (u : Text) → length u ≤ length t → take_here c u ≡ some rest → length rest < length t
    go [] h e = absurd cc
    go (d ∷ u) h e = ground arith

pub length-behind :
    (word t rest : Text) → behind word t ≡ some rest → length rest + length word ≡ length t
unfolding behind
length-behind [] t rest e = ground arith
length-behind (c ∷ word) [] rest e = absurd cc
length-behind (c ∷ word) (d ∷ t) rest e = ground (arith, length-behind word t rest)

-- Readers one behind the other.
pub Leaves-mono : {A : Type 0} (m n : ℕ) (o : Option (A × Text)) → m ≤ n → Leaves m o → Leaves n o
Leaves-mono m n none l h = tt
Leaves-mono m n (some read) l h = omega arith

pub Leaves-bind :
    {A B : Type 0} (n : ℕ) (o : Option B) (f : B → Option (A × Text))
    → ((x : B) → o ≡ some x → Leaves n (f x))
    → Leaves n (elim o [ none ↦ none | some x ↦ f x ])
Leaves-bind n none f h = tt
Leaves-bind n (some x) f h = h x refl

pub Leaves-some :
    {A : Type 0} (n : ℕ) (o : Option (A × Text)) (read : A × Text)
    → Leaves n o
    → o ≡ some read
    → length read.1 ≤ n
Leaves-some n none read h e = absurd cc
Leaves-some n (some r) read h e = subst (λ x. length x.1 ≤ n) (some_inj.0 e) h

pub Leaves-if :
    {A : Type 0} (n : ℕ) (b : Bool) (x y : Option (A × Text))
    → Leaves n x
    → Leaves n y
    → Leaves n (if b then x else y)
Leaves-if n true x y h k = h
Leaves-if n false x y h k = k

pub Shrinks-mono : {A : Type 0} (m n : ℕ) (o : Outcome A) → m ≤ n → Shrinks m o → Shrinks n o
Shrinks-mono m n (parsed a rest) l h = omega arith
Shrinks-mono m n refused l h = tt
Shrinks-mono m n starved l h = h

pub Shrinks-bind :
    {A B : Type 0} (m n : ℕ) (o : Outcome A) (k : A → Text → Outcome B)
    → Shrinks m o
    → ((a : A) (rest : Text) → length rest < m → Shrinks n (k a rest))
    → Shrinks n (and_then o k)
Shrinks-bind m n (parsed a rest) k h f = f a rest h
Shrinks-bind m n refused k h f = tt
Shrinks-bind m n starved k h f = absurd h

pub Shrinks-test :
    {A : Type 0} (n : ℕ) (b : Bool) (x y : Outcome A)
    → Shrinks n x
    → Shrinks n y
    → Shrinks n (elim b [ true ↦ x | false ↦ y ])
Shrinks-test n true x y h k = h
Shrinks-test n false x y h k = k

-- A word that is there, or else another reader.
pub Shrinks-word :
    {A : Type 0} (n : ℕ) (o : Option Text) (x : Text → Outcome A) (y : Outcome A)
    → ((rest : Text) → o ≡ some rest → Shrinks n (x rest))
    → Shrinks n y
    → Shrinks n (elim o [ some rest ↦ x rest | none ↦ y ])
Shrinks-word n none x y h k = k
Shrinks-word n (some rest) x y h k = h rest refl

pub Shrinks-option :
    {A B : Type 0} (n : ℕ) (o : Option A) (f : A → Outcome B)
    → ((x : A) → o ≡ some x → Shrinks n (f x))
    → Shrinks n (elim o [ none ↦ refused | some x ↦ f x ])
Shrinks-option n none f h = tt
Shrinks-option n (some x) f h = h x refl
