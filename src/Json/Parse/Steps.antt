-- ===== src/Json/Parse/Steps.antt =====
-- Single steps of `Parser`, and which values the format can hold.
use pane_dock.Common.{
  ◌^◌, ◌*◌, ◌<◌, ◌≤◌, ◌≡◌, ℕ, zero, suc, ◌≤◌, ◌≡◌, refl, ap, true, false, ◌||◌, [], ◌∷◌, ◌++◌,
  Option, none, some, Text, ◌==◌, length, length-append, arith,
}
use pane_dock.Model.{Double, not_a_number, infinite, finite}
use pane_dock.Json.{
  Json, Items, Fields, null, boolean, number, text, array, object, no_items, item, no_fields, field,
  emplace,
}
use pane_dock.Json.Order.{IsSorted, push_field, append_fields}
use pane_dock.Json.Print.{
  quote, comma, colon, open_bracket, close_bracket, open_brace, close_brace, escape_bytes, escape,
}
use pane_dock.Json.Parse.{
  parsed, and_then, is_space, whitespace, take, behind, is_digit, string_in, number_in,
  word_or_number, opened, shape, push_item, value, items_in, fields_in,
}
use pane_dock.Json.Parse.Strings.{string_in-escape}

-- A finite value of the type: at most 53 bits, at one of the type's scales. The format has no words for
-- an infinity and a NaN.
abbrev pub IsFinite : Double → Type 0
IsFinite not_a_number = ⊥
IsFinite (infinite sign) = ⊥
IsFinite (finite negative units) =
    (bits : ℕ) × (scale : ℕ) × (units ≡ bits * 2 ^ scale) × (bits < 2 ^ 53) × (scale ≤ 2045)

-- What the format can hold: finite numbers, and objects with their keys in order, each once.
unfoldable mutual
  pub IsWritable : Json → Type 0
  IsWritable null = Unit
  IsWritable (boolean b) = Unit
  IsWritable (number d) = IsFinite d
  IsWritable (text t) = Unit
  IsWritable (array items) = AreWritable items
  IsWritable (object fields) = IsSorted fields × AreWritableFields fields

  pub AreWritable : Items → Type 0
  AreWritable no_items = Unit
  AreWritable (item j items) = IsWritable j × AreWritable items

  pub AreWritableFields : Fields → Type 0
  AreWritableFields no_fields = Unit
  AreWritableFields (field k v fields) = IsWritable v × AreWritableFields fields

pub take-other :
    (c d : ℕ) (t : Text) → is_space d ≡ false → (d == c) ≡ false → take c (d ∷ t) ≡ none
unfolding take whitespace
take-other c d t s h = ground arith

pub take-same : (c : ℕ) (t : Text) → is_space c ≡ false → take c (c ∷ t) ≡ some t
unfolding take whitespace
take-same c t s = ground arith

pub whitespace_front : (c : ℕ) (t : Text) → is_space c ≡ false → whitespace (c ∷ t) ≡ c ∷ t
unfolding whitespace
whitespace_front c t s = ground arith

unfoldable pub append_items : Items → Items → Items
append_items no_items more = more
append_items (item j items) more = item j (append_items items more)

pub push_item-append_items :
    (items more : Items) (j : Json)
    → append_items (push_item items j) more ≡ append_items items (item j more)
unfolding push_item append_items
push_item-append_items no_items more j = refl
push_item-append_items (item i items) more j = ap (item i) (push_item-append_items items more j)

pub push_item_last :
    (items : Items) (j : Json) → push_item items j ≡ append_items items (item j no_items)
unfolding push_item append_items
push_item_last no_items j = refl
push_item_last (item i items) j = ap (item i) (push_item_last items j)

pub push_field_last :
    (fields : Fields) (k : Text) (v : Json)
    → push_field k v fields ≡ append_fields fields (field k v no_fields)
unfolding push_field append_fields
push_field_last no_fields k v = refl
push_field_last (field l w fields) k v = ap (field l w) (push_field_last fields k v)

-- The first key of what is left of an object.
pub string_in-front :
    (fuel : ℕ) (k rest : Text)
    → length (escape k ++ rest) ≤ fuel
    → string_in fuel (escape k ++ rest) ≡ parsed k rest
string_in-front fuel k rest h =
    string_in-escape fuel k rest (omega (arith, length-append (escape k) rest))

module _ (scan : Text → Option Double) where
  -- What starts like a number is no word, and asks for none of the other readers.
  pub word_or_number-digit :
      (c : ℕ) (t : Text)
      → (is_digit c || (c == 0x2d)) ≡ true
      → word_or_number scan (c ∷ t) ≡ number_in scan (c ∷ t)
  unfolding word_or_number behind
  word_or_number-digit c t h = ground arith

  pub value-digit :
      (fuel c : ℕ) (t : Text)
      → (is_digit c || (c == 0x2d)) ≡ true
      → value scan (suc fuel) (c ∷ t) ≡ number_in scan (c ∷ t)
  unfolding value shape
  value-digit fuel c t h = ground (arith, word_or_number-digit c t h, whitespace_front c t)

  pub value-escape :
      (s : Text) (fuel : ℕ) (rest : Text)
      → 1 ≤ fuel
      → value scan fuel (escape s ++ rest) ≡ parsed (text s) rest
  unfolding value shape whitespace
  value-escape s zero rest f = absurd (omega arith)
  value-escape s (suc fuel) rest f =
      let more = (escape_bytes s ++ quote ∷ []) ++ rest in
      ap (λ o. and_then o λ t u. parsed (text t) u)
        (string_in-escape (suc (length more)) s rest
          (omega (arith, length-append (escape_bytes s ++ quote ∷ []) rest)))

  pub items_in-last :
      (fuel : ℕ) (known : Items) (t rest : Text) (j : Json)
      → value scan fuel t ≡ parsed j (close_bracket ∷ rest)
      → items_in scan (suc fuel) known t ≡ parsed (array (push_item known j)) rest
  unfolding items_in take whitespace
  items_in-last fuel known t rest j e = rw (items_in, e) refl

  pub items_in-more :
      (fuel : ℕ) (known : Items) (t next : Text) (j : Json)
      → value scan fuel t ≡ parsed j (comma ∷ next)
      → items_in scan (suc fuel) known t ≡ items_in scan fuel (push_item known j) next
  unfolding items_in take whitespace
  items_in-more fuel known t next j e = rw (items_in, e) refl

  pub fields_in-last :
      (fuel : ℕ) (known more : Fields) (t at rest : Text) (k : Text) (v : Json)
      → string_in (suc (length t)) t ≡ parsed k (colon ∷ at)
      → value scan fuel at ≡ parsed v (close_brace ∷ rest)
      → emplace k v known ≡ some more
      → fields_in scan (suc fuel) known t ≡ parsed (object more) rest
  unfolding fields_in take whitespace
  fields_in-last fuel known more t at rest k v s e m =
      rw (fields_in, s) (rw e (rw (and_then, m) refl))

  pub fields_in-more :
      (fuel : ℕ) (known more : Fields) (t at next : Text) (k : Text) (v : Json)
      → string_in (suc (length t)) t ≡ parsed k (colon ∷ at)
      → value scan fuel at ≡ parsed v (comma ∷ next)
      → emplace k v known ≡ some more
      → fields_in scan (suc fuel) known t ≡ fields_in scan fuel more next
  unfolding fields_in take whitespace
  fields_in-more fuel known more t at next k v s e m =
      rw (fields_in, s) (rw e (rw (and_then, m) refl))

  pub value-array :
      (fuel : ℕ) (t : Text) (c : ℕ) (u : Text)
      → t ≡ c ∷ u
      → is_space c ≡ false
      → (c == close_bracket) ≡ false
      → value scan (suc fuel) (open_bracket ∷ t) ≡ items_in scan fuel no_items t
  unfolding value shape whitespace opened take
  value-array fuel t c u w s h = rw w (rw (opened, take-other close_bracket c u s h) refl)

  pub value-object :
      (fuel : ℕ) (t : Text)
      → value scan (suc fuel) (open_brace ∷ quote ∷ t) ≡ fields_in scan fuel no_fields (quote ∷ t)
  unfolding value shape whitespace opened take
  value-object fuel t = refl
