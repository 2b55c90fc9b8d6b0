-- ===== src/Ids/Places.antt =====
-- Where an element stands: lookups after an erase, an insert and a change, and the element that an
-- erase leaves selected.
use pane_dock.Common.{
  ℕ, zero, suc, ◌<◌, ◌≡◌, ◌≢◌, refl, true, ◌||◌, List, [], ◌∷◌, ◌++◌, some, Text, Text-discrete,
  arith, insert_at, length,
}
use pane_dock.Ids.{is_id, has_id, find_id, erase_id, next_id, next_from}

module _ {A : Type 0} (id_of : A → Text) where
  pub has_id-insert_at :
      (t : Text) (n : ℕ) (x : A) (xs : List A)
      → has_id id_of t (insert_at n x xs) ≡ (is_id id_of t x || has_id id_of t xs)
  has_id-insert_at t zero x xs = refl
  has_id-insert_at t (suc n) x [] = refl
  has_id-insert_at t (suc n) x (y ∷ ys) = ground (arith, has_id-insert_at t n x ys)

  pub has_id-append_one :
      (t : Text) (xs : List A) (x : A)
      → has_id id_of t (xs ++ x ∷ []) ≡ (has_id id_of t xs || is_id id_of t x)
  has_id-append_one t [] x = ground arith
  has_id-append_one t (y ∷ ys) x = ground (arith, has_id-append_one t ys x)

  pub has_id_of_find :
      (t : Text) (xs : List A) (x : A)
      → find_id id_of t xs ≡ some x
      → (has_id id_of t xs ≡ true) × (id_of x ≡ t)
  has_id_of_find t [] x h = cc
  has_id_of_find t (y ∷ ys) x h = ground (arith, has_id_of_find t ys x)

  pub find_of_has_id :
      (t : Text) (xs : List A)
      → has_id id_of t xs ≡ true
      → (x : A) × (find_id id_of t xs ≡ some x) × (id_of x ≡ t)
  find_of_has_id t [] h = cc
  find_of_has_id t (y ∷ ys) h = elim (Text-discrete (id_of y) t) [
    | yes p ↦ (y, ground arith, p)
    | no p ↦ let (x, f, e) = find_of_has_id t ys (ground arith) in (x, ground arith, e)
  ]

  pub has_id-erase_ne :
      (t u : Text) (xs : List A) → t ≢ u → has_id id_of t (erase_id id_of u xs) ≡ has_id id_of t xs
  has_id-erase_ne t u [] h = refl
  has_id-erase_ne t u (x ∷ xs) h = ground (arith, has_id-erase_ne t u xs h)

  pub length-erase_id :
      (t : Text) (xs : List A)
      → has_id id_of t xs ≡ true
      → suc (length (erase_id id_of t xs)) ≡ length xs
  length-erase_id t [] h = cc
  length-erase_id t (x ∷ xs) h = ground (arith, length-erase_id t xs)

  next_from-has_id :
      (t back : Text) (x : A) (xs : List A)
      → has_id id_of t xs ≡ true
      → id_of x ≡ back
      → (is_id id_of (next_from id_of t back xs) x
          || has_id id_of (next_from id_of t back xs) (erase_id id_of t xs))
        ≡ true
  next_from-has_id t back x [] h e = cc
  next_from-has_id t back x (y ∷ []) h e = ground arith
  next_from-has_id t back x (y ∷ z ∷ zs) h e =
      ground (arith, next_from-has_id t (id_of y) y (z ∷ zs))

  -- What is selected after an erase is in the vector that is left, if that is not empty.
  pub next_id-has_id :
      (t : Text) (xs : List A)
      → has_id id_of t xs ≡ true
      → 1 < length xs
      → has_id id_of (next_id id_of t xs) (erase_id id_of t xs) ≡ true
  next_id-has_id t [] h k = absurd (omega arith)
  next_id-has_id t (x ∷ []) h k = absurd (omega arith)
  next_id-has_id t (x ∷ y ∷ ys) h k = ground (arith, next_from-has_id t (id_of x) x (y ∷ ys))
