-- ===== src/BoundedLru.antt =====
-- src/core/bounded_lru.h: values held under a limit of bytes, the oldest admission evicted first.
--
-- `T` and the predicates are arguments. A counter is a `std::size_t` that counts calls or bytes held
-- in memory; it stays below 2^64.
pub mod Laws
mod Tests
use mathlib.Core.Option
use pane_dock.Common.{
  ℕ, zero, suc, ◌+◌, ◌-◌, Bool, true, false, ◌&&◌, List, [], ◌∷◌, ◌++◌, Option, none, some, not,
  ltb, if◌then◌else◌, length,
}

pub record Slot (A : Type 0) : Type 0 where
  pub value : A
  pub bytes : ℕ

pub record BoundedLru (A : Type 0) : Type 0 where
  pub entries : List (Slot A)
  pub bytes : ℕ
  pub hits : ℕ
  pub evictions : ℕ
  pub limit : ℕ

pub record LruStats : Type 0 where
  pub bytes : ℕ
  pub entries : ℕ
  pub hits : ℕ
  pub evictions : ℕ
  pub limit : ℕ

module _ {A : Type 0} where
  -- The constructor.
  abbrev pub empty : ℕ → BoundedLru A
  empty limit = record { entries = []; bytes = 0; hits = 0; evictions = 0; limit = limit }

  -- `evict_until` on the list, with the bytes held and the evictions so far.
  pub evict_from : ℕ → List (Slot A) → ℕ → ℕ → List (Slot A) × ℕ × ℕ
  evict_from target [] held evicted = ([], held, evicted)
  evict_from target (slot ∷ slots) held evicted =
      let rest = evict_from target slots (held - slot.bytes) (suc evicted) in
      if ltb target held then rest else (slot ∷ slots, held, evicted)

  pub evict_until : ℕ → BoundedLru A → BoundedLru A
  unfolding evict_from
  evict_until target lru =
      let after = evict_from target lru.entries lru.bytes lru.evictions in
      record lru { entries = after.0; bytes = after.1; evictions = after.2 }

  pub admit : BoundedLru A → A → ℕ → BoundedLru A × Bool
  unfolding evict_until
  admit lru value bytes =
      let fitted = evict_until (lru.limit - bytes) lru in
      if ltb lru.limit bytes then (lru, false) else (
        record fitted {
          entries = fitted.entries ++ record { value = value; bytes = bytes } ∷ [];
          bytes = fitted.bytes + bytes;
        },
        true,
      )

  module _ (predicate : A → Bool) where
    -- The oldest slot that matches, and the others.
    pub take_slot : List (Slot A) → Option (Slot A × List (Slot A))
    take_slot [] = none
    take_slot (slot ∷ slots) =
        if predicate slot.value
        then some (slot, slots)
        else Option.map (λ found. (found.0, slot ∷ found.1)) (take_slot slots)

    pub take_value : BoundedLru A → BoundedLru A × Option A
    unfolding take_slot
    take_value lru = elim (take_slot lru.entries) [
      | none ↦ (lru, none)
      | some found ↦ (
        record lru { entries = found.1; bytes = lru.bytes - found.0.bytes; hits = suc lru.hits },
        some found.0.value,
      )
    ]

    -- `std::erase_if` with the predicate that subtracts: the slots left and the bytes left.
    pub erase_from : List (Slot A) → ℕ → List (Slot A) × ℕ
    erase_from [] held = ([], held)
    erase_from (slot ∷ slots) held =
        let kept = erase_from slots held in
        let dropped = erase_from slots (held - slot.bytes) in
        if predicate slot.value then dropped else (slot ∷ kept.0, kept.1)

    pub erase_if : BoundedLru A → BoundedLru A
    unfolding erase_from
    erase_if lru =
        let after = erase_from lru.entries lru.bytes in
        record lru { entries = after.0; bytes = after.1 }

  abbrev pub newest_of : List (Slot A) → Option A
  newest_of [] = none
  newest_of (slot ∷ []) = some slot.value
  newest_of (slot ∷ next ∷ slots) = newest_of (next ∷ slots)

  abbrev pub newest : BoundedLru A → Option A
  newest lru = newest_of lru.entries

  pub set_limit : BoundedLru A → ℕ → BoundedLru A
  unfolding evict_until
  set_limit lru limit = evict_until limit (record lru { limit = limit })

  abbrev pub stats : BoundedLru A → LruStats
  stats lru = record {
    bytes = lru.bytes;
    entries = length lru.entries;
    hits = lru.hits;
    evictions = lru.evictions;
    limit = lru.limit;
  }
