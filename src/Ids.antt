-- ===== src/Ids.antt =====
-- src/core/model.cpp, the two templates at its head: vectors whose elements carry an id.
--
-- `id_of` is the member `id` of the element type. `find_id(xs, t) != xs.end()` is `has_id t xs`, and
-- what the source does with the iterator that it finds is a function of its own.
pub mod Unique
pub mod Places
use mathlib.Core.Option
use pane_dock.Common.{
  ℕ, zero, suc, Bool, true, false, ◌&&◌, ◌||◌, List, [], ◌∷◌, Option, none, some, Text,
  Text-discrete, text_eq, not, if◌then◌else◌, holds, any,
}

abbrev pub is_empty : Text → Bool
is_empty [] = true
is_empty (c ∷ t) = false

module _ {A : Type 0} (id_of : A → Text) where
  abbrev pub is_id : Text → A → Bool
  is_id t x = text_eq (id_of x) t

  abbrev pub has_id : Text → List A → Bool
  has_id t xs = any (is_id t) xs

  -- The loop of `has_unique_ids`; `seen` is its set.
  pub unique_from : List Text → List A → Bool
  unique_from seen [] = true
  unique_from seen (x ∷ xs) =
      not (is_empty (id_of x))
      && not (any (λ s. text_eq s (id_of x)) seen)
      && unique_from (id_of x ∷ seen) xs

  pub has_unique_ids : List A → Bool
  unfolding unique_from
  has_unique_ids xs = unique_from [] xs

  -- The element that `find_id` finds.
  abbrev pub find_id : Text → List A → Option A
  find_id t [] = none
  find_id t (x ∷ xs) = if is_id t x then some x else find_id t xs

  -- Its index.
  abbrev pub index_of : Text → List A → Option ℕ
  index_of t [] = none
  index_of t (x ∷ xs) = if is_id t x then some 0 else Option.map suc (index_of t xs)

  -- The vector after `erase(find_id(...))`.
  abbrev pub erase_id : Text → List A → List A
  erase_id t [] = []
  erase_id t (x ∷ xs) = if is_id t x then xs else x ∷ erase_id t xs

  -- The vector after a change through the iterator.
  abbrev pub update_id : Text → (A → A) → List A → List A
  update_id t f [] = []
  update_id t f (x ∷ xs) = if is_id t x then f x ∷ xs else x ∷ update_id t f xs

  abbrev pub head_or : Text → List A → Text
  head_or back [] = back
  head_or back (x ∷ xs) = id_of x

  abbrev pub next_from : Text → Text → List A → Text
  next_from t back [] = back
  next_from t back (x ∷ xs) = if is_id t x then head_or back xs else next_from t (id_of x) xs

  -- After `next = erase(find_id(...))`: the id of `*next`, or of `back()` where `next` is the end. The
  -- source only reads it where the vector that is left has an element.
  abbrev pub next_id : Text → List A → Text
  next_id t xs = next_from t t xs
