-- ===== src/BoundedLru/Laws.antt =====
-- The bytes are those of the entries and within the limit, through every operation.
use pane_dock.Common.{
  ◌⊎◌, ℕ, suc, ◌+◌, ◌-◌, ◌≤◌, ◌<◌, ◌≡◌, refl, Bool, true, false, List, [], ◌∷◌, ◌++◌, some, ltb,
  arith, inl, inr, Bool-cases, Option-cases,
}
use pane_dock.BoundedLru.{
  Slot, BoundedLru, evict_from, evict_until, admit, take_slot, take_value, erase_from, erase_if,
  newest, newest_of, set_limit,
}

module _ {A : Type 0} where
  abbrev pub total : List (Slot A) → ℕ
  total [] = 0
  total (slot ∷ slots) = slot.bytes + total slots

  pub record IsBounded (lru : BoundedLru A) : Type 0 where
    pub measured : lru.bytes ≡ total lru.entries
    pub fits : lru.bytes ≤ lru.limit

  total-append : (xs ys : List (Slot A)) → total (xs ++ ys) ≡ total xs + total ys
  total-append [] ys = omega arith
  total-append (x ∷ xs) ys = omega (arith, total-append xs ys)

  evict_from-fits :
      (target : ℕ) (slots : List (Slot A)) (held evicted : ℕ)
      → held ≡ total slots
      → let after = evict_from target slots held evicted in
        (after.1 ≡ total after.0) × (after.1 ≤ target)
  unfolding evict_from
  evict_from-fits target [] held evicted h = (h, omega arith)
  evict_from-fits target (slot ∷ slots) held evicted h =
      ground (arith, evict_from-fits target slots (held - slot.bytes) (suc evicted) (omega arith))

  newest-append : (xs : List (Slot A)) (x : Slot A) → newest_of (xs ++ x ∷ []) ≡ some x.value
  newest-append [] x = refl
  newest-append (y ∷ []) x = refl
  newest-append (y ∷ z ∷ xs) x = newest-append (z ∷ xs) x

  -- From a cache in order, a value that is no larger than the limit is admitted as the newest one,
  -- a larger one is refused with nothing changed, and the cache is in order either way.
  pub admit-IsBounded :
      (lru : BoundedLru A) (value : A) (bytes : ℕ)
      → IsBounded lru
      → IsBounded (admit lru value bytes).0
        × (((bytes ≤ lru.limit)
              × ((admit lru value bytes).1 ≡ true)
              × (newest (admit lru value bytes).0 ≡ some value))
            ⊎ ((lru.limit < bytes) × (admit lru value bytes ≡ (lru, false))))
  unfolding admit evict_until
  admit-IsBounded lru value bytes b = elim (Bool-cases (ltb lru.limit bytes)) [
    | inl large ↦ ground (arith, b)
    | inr small ↦
        let fits =
          evict_from-fits (lru.limit - bytes) lru.entries lru.bytes lru.evictions b.measured in
        let left = (evict_from (lru.limit - bytes) lru.entries lru.bytes lru.evictions).0 in
        ground (
          arith,
          fits,
          total-append left (record { value = value; bytes = bytes } ∷ []),
          newest-append left (record { value = value; bytes = bytes }),
        )
  ]

  take_slot-total :
      (predicate : A → Bool) (slots : List (Slot A)) (found : Slot A × List (Slot A))
      → take_slot predicate slots ≡ some found
      → total slots ≡ found.0.bytes + total found.1
  unfolding take_slot
  take_slot-total predicate [] found h = cc
  take_slot-total predicate (slot ∷ slots) found h =
      elim (Option-cases (take_slot predicate slots)) [
        | inl missing ↦ ground arith
        | inr (rest, at) ↦ ground (arith, take_slot-total predicate slots rest at)
      ]

  take_value-IsBounded :
      (predicate : A → Bool) (lru : BoundedLru A)
      → IsBounded lru
      → IsBounded (take_value predicate lru).0
  unfolding take_value
  take_value-IsBounded predicate lru b = elim (Option-cases (take_slot predicate lru.entries)) [
    | inl missing ↦ ground (arith, b)
    | inr (found, at) ↦ ground (arith, b, take_slot-total predicate lru.entries found at)
  ]

  erase_from-total :
      (predicate : A → Bool) (slots : List (Slot A)) (held : ℕ) (rest : ℕ)
      → held ≡ total slots + rest
      → let after = erase_from predicate slots held in
        (after.1 ≡ total after.0 + rest) × (after.1 ≤ held)
  unfolding erase_from
  erase_from-total predicate [] held rest h = (h, omega arith)
  erase_from-total predicate (slot ∷ slots) held rest h = elim (Bool-cases (predicate slot.value)) [
    | inl drop ↦
        ground (arith, erase_from-total predicate slots (held - slot.bytes) rest (omega arith))
    | inr keep ↦
        ground (arith, erase_from-total predicate slots held (slot.bytes + rest) (omega arith))
  ]

  -- From a cache in order, taking a value, erasing values and any new limit leave the cache in order.
  pub changes-IsBounded :
      (predicate : A → Bool) (limit : ℕ) (lru : BoundedLru A)
      → IsBounded lru
      → IsBounded (take_value predicate lru).0
        × IsBounded (erase_if predicate lru)
        × IsBounded (set_limit lru limit)
  unfolding take_value erase_if set_limit evict_until
  changes-IsBounded predicate limit lru b = (
    take_value-IsBounded predicate lru b,
    ground
        (arith, b, erase_from-total predicate lru.entries lru.bytes 0 (omega (arith, b.measured))),
    ground (arith, evict_from-fits limit lru.entries lru.bytes lru.evictions b.measured),
  )
