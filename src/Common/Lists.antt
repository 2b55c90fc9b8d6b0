-- ===== src/Common/Lists.antt =====
-- Lists measured and indexed by native numbers, and the `std::vector` operations over them.
use Prim.Native.Nat.{ℕ, zero, suc, ◌+◌, ◌≤◌}
use mathlib.Core.Path.{◌≡◌, refl, ap, subst}
use mathlib.Core.List.{List, [], ◌∷◌, ◌++◌}
use mathlib.Core.Bool.{Bool, true, false, ◌&&◌, ◌||◌}
use mathlib.Core.Option.{Option, none, some, some_inj}
use native.Mathlib.Omega.{arith}
use mathlib.Core.Logic.{◌↔◌}
use pane_dock.Common.Tests.{and-true}

module _ {ℓ} {A : Type ℓ} where
  abbrev pub length : List A → ℕ
  length [] = 0
  length (x ∷ xs) = suc (length xs)

  abbrev pub get_elem? : List A → ℕ → Option A
  get_elem? [] i = none
  get_elem? (x ∷ xs) zero = some x
  get_elem? (x ∷ xs) (suc i) = get_elem? xs i

  abbrev pub take : ℕ → List A → List A
  take zero xs = []
  take (suc n) [] = []
  take (suc n) (x ∷ xs) = x ∷ take n xs

  -- `std::all_of`, `std::any_of`.
  abbrev pub all : (A → Bool) → List A → Bool
  all p [] = true
  all p (x ∷ xs) = p x && all p xs

  abbrev pub any : (A → Bool) → List A → Bool
  any p [] = false
  any p (x ∷ xs) = p x || any p xs

  -- `vector::insert` at an index; past the end it appends.
  abbrev pub insert_at : ℕ → A → List A → List A
  insert_at zero x xs = x ∷ xs
  insert_at (suc n) x [] = x ∷ []
  insert_at (suc n) x (y ∷ ys) = y ∷ insert_at n x ys

  pub length-append : (xs ys : List A) → length (xs ++ ys) ≡ length xs + length ys
  length-append [] ys = omega arith
  length-append (x ∷ xs) ys = omega (arith, length-append xs ys)

  pub length-insert_at : (n : ℕ) (x : A) (xs : List A) → length (insert_at n x xs) ≡ suc (length xs)
  length-insert_at zero x xs = refl
  length-insert_at (suc n) x [] = refl
  length-insert_at (suc n) x (y ∷ ys) = ap suc (length-insert_at n x ys)

  pub get_elem?-insert_at :
      (n : ℕ) (x : A) (xs : List A) → n ≤ length xs → get_elem? (insert_at n x xs) n ≡ some x
  get_elem?-insert_at zero x xs h = refl
  get_elem?-insert_at (suc n) x [] h = absurd (omega arith)
  get_elem?-insert_at (suc n) x (y ∷ ys) h = get_elem?-insert_at n x ys (omega arith)

  pub length-take : (n : ℕ) (xs : List A) → n ≤ length xs → length (take n xs) ≡ n
  length-take zero xs h = omega arith
  length-take (suc n) [] h = absurd (omega arith)
  length-take (suc n) (x ∷ xs) h = ap suc (length-take n xs (omega arith))

  pub get_elem?-append_last : (xs : List A) (x : A) → get_elem? (xs ++ x ∷ []) (length xs) ≡ some x
  get_elem?-append_last [] x = refl
  get_elem?-append_last (y ∷ ys) x = get_elem?-append_last ys x

module _ {ℓ κ} {A : Type ℓ} where
  -- A predicate that holds of every element.
  abbrev pub All : (A → Type κ) → List A → Type κ
  All P [] = Unit
  All P (x ∷ xs) = P x × All P xs

  pub All-append : (P : A → Type κ) (xs ys : List A) → All P xs → All P ys → All P (xs ++ ys)
  All-append P [] ys hx hy = hy
  All-append P (x ∷ xs) ys hx hy = (hx.0, All-append P xs ys hx.1 hy)

  pub All-insert_at :
      (P : A → Type κ) (n : ℕ) (x : A) (xs : List A) → P x → All P xs → All P (insert_at n x xs)
  All-insert_at P zero x xs p h = (p, h)
  All-insert_at P (suc n) x [] p h = (p, tt)
  All-insert_at P (suc n) x (y ∷ ys) p h = (h.0, All-insert_at P n x ys p h.1)

-- `std::all_of` decides it.
pub all_iff {ℓ} :
    {A : Type ℓ} (p : A → Bool) (xs : List A) → (all p xs ≡ true) ↔ All (λ x. p x ≡ true) xs
all_iff p [] = (λ h. tt, λ h. refl)
all_iff p (x ∷ xs) =
    let (to, from) = all_iff p xs in
    (λ h. let (a, b) = and-true (p x) (all p xs) h in (a, to b), λ h. rw (h.0, from h.1))

module _ {ℓ κ} {A : Type ℓ} where
  pub All-get_elem? :
      (P : A → Type κ) (xs : List A) (i : ℕ) (x : A) → All P xs → get_elem? xs i ≡ some x → P x
  All-get_elem? P [] i x h e = absurd cc
  All-get_elem? P (y ∷ xs) zero x h e = subst P (some_inj.0 e) h.0
  All-get_elem? P (y ∷ xs) (suc i) x h e = All-get_elem? P xs i x h.1 e
