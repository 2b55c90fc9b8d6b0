-- ===== src/Groups/Order.antt =====
-- What a drag shows: the index arithmetic of `reorder_source_index` against the reordered list.
use pane_dock.Common.{
  ℕ, zero, suc, ◌+◌, ◌-◌, ◌≤◌, ◌<◌, ◌≡◌, refl, ap, List, [], ◌∷◌, some, arith, length, get_elem?,
  insert_at, ltb, ◌==◌, if◌then◌else◌, inl, inr, ◌∙◌, Bool-cases,
}
use native.Mathlib.Numerals.{add-one}
use pane_dock.Groups.{reorder_source_index}

module _ {A : Type 0} where
  -- `erase` at an index.
  abbrev pub erase_at : ℕ → List A → List A
  erase_at n [] = []
  erase_at zero (x ∷ xs) = xs
  erase_at (suc n) (x ∷ xs) = x ∷ erase_at n xs

  get_elem?-erase_below :
      (n i : ℕ) (xs : List A) → i < n → get_elem? (erase_at n xs) i ≡ get_elem? xs i
  get_elem?-erase_below n i [] h = refl
  get_elem?-erase_below zero i (x ∷ xs) h = absurd (omega arith)
  get_elem?-erase_below (suc n) zero (x ∷ xs) h = refl
  get_elem?-erase_below (suc n) (suc i) (x ∷ xs) h = get_elem?-erase_below n i xs (omega arith)

  get_elem?-erase_above :
      (n i : ℕ) (xs : List A) → n ≤ i → get_elem? (erase_at n xs) i ≡ get_elem? xs (suc i)
  get_elem?-erase_above n i [] h = refl
  get_elem?-erase_above zero i (x ∷ xs) h = refl
  get_elem?-erase_above (suc n) zero (x ∷ xs) h = absurd (omega arith)
  get_elem?-erase_above (suc n) (suc i) (x ∷ xs) h = get_elem?-erase_above n i xs (omega arith)

  get_elem?-insert_below :
      (n i : ℕ) (y : A) (xs : List A)
      → i < n
      → i < length xs
      → get_elem? (insert_at n y xs) i ≡ get_elem? xs i
  get_elem?-insert_below zero i y xs h k = absurd (omega arith)
  get_elem?-insert_below (suc n) i y [] h k = absurd (omega arith)
  get_elem?-insert_below (suc n) zero y (x ∷ xs) h k = refl
  get_elem?-insert_below (suc n) (suc i) y (x ∷ xs) h k =
      get_elem?-insert_below n i y xs (omega arith) (omega arith)

  get_elem?-insert_above :
      (n i : ℕ) (y : A) (xs : List A)
      → n ≤ i
      → n ≤ length xs
      → get_elem? (insert_at n y xs) (suc i) ≡ get_elem? xs i
  get_elem?-insert_above zero i y xs h k = refl
  get_elem?-insert_above (suc n) i y [] h k = absurd (omega arith)
  get_elem?-insert_above (suc n) zero y (x ∷ xs) h k = absurd (omega arith)
  get_elem?-insert_above (suc n) (suc i) y (x ∷ xs) h k =
      get_elem?-insert_above n i y xs (omega arith) (omega arith)

  length-erase_at : (n : ℕ) (xs : List A) → n < length xs → suc (length (erase_at n xs)) ≡ length xs
  length-erase_at n [] h = absurd (omega arith)
  length-erase_at zero (x ∷ xs) h = refl
  length-erase_at (suc n) (x ∷ xs) h = omega (arith, length-erase_at n xs (omega arith))

  get_elem?-insert_here :
      (n : ℕ) (y : A) (xs : List A) → n ≤ length xs → get_elem? (insert_at n y xs) n ≡ some y
  get_elem?-insert_here zero y xs h = refl
  get_elem?-insert_here (suc n) y [] h = absurd (omega arith)
  get_elem?-insert_here (suc n) y (x ∷ xs) h = get_elem?-insert_here n y xs (omega arith)

  get_elem?-erased :
      (n i : ℕ) (xs : List A)
      → get_elem? (erase_at n xs) i ≡ get_elem? xs (if ltb i n then i else i + 1)
  get_elem?-erased n i xs = elim (Bool-cases (ltb i n)) [
    | inl before ↦ rw before (get_elem?-erase_below n i xs (ground arith))
    | inr after ↦ rw (after, add-one) (get_elem?-erase_above n i xs (ground arith))
  ]

  -- While the item at `source` is shown at `target`, the slot `destination` shows the item that
  -- `reorder_source_index` names: that of the list with the item erased and inserted again. All three
  -- are in range.
  pub get_elem?-reorder_source_index :
      (xs : List A) (y : A) (source target destination : ℕ)
      → get_elem? xs source ≡ some y
      → source < length xs
      → target < length xs
      → destination < length xs
      → (i : ℕ) × (reorder_source_index (length xs) source target destination ≡ some i)
        × (get_elem? (insert_at target y (erase_at source xs)) destination ≡ get_elem? xs i)
  unfolding reorder_source_index
  get_elem?-reorder_source_index xs y source target destination at hs ht hd =
      elim (Bool-cases (destination == target)) [
        | inl home ↦
            (source, ground arith, ground (arith, get_elem?-insert_here target y rest fits, at))
        | inr away ↦ elim (Bool-cases (ltb destination target)) [
          | inl before ↦ (
            if ltb destination source then destination else destination + 1,
            ground arith,
            get_elem?-insert_below target destination y rest (ground arith) (ground (arith, len))
                ∙ get_elem?-erased source destination xs,
          )
          | inr after ↦
              let r = destination - 1 in
              let e : destination ≡ suc r = ground arith in
              (
                if ltb r source then r else r + 1,
                ground arith,
                ap (λ (k : ℕ). get_elem? (insert_at target y rest) k) e
                    ∙ get_elem?-insert_above target r y rest (ground arith) fits
                    ∙ get_elem?-erased source r xs,
              )
        ]
      ]
    where
      rest : List A
      rest = erase_at source xs

      len : suc (length rest) ≡ length xs
      len = length-erase_at source xs hs

      fits : target ≤ length rest
      fits = omega (arith, len)
