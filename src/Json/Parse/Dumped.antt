-- ===== src/Json/Parse/Dumped.antt =====
-- The characters of a document, apart: what stands behind a value, and how long it is.
use mathlib.Core.List.{append_assoc}
use pane_dock.Common.{
  ◌+◌, ◌≡◌, refl, ap, ◌∙◌, Bool, true, false, [], ◌∷◌, ◌++◌, Text, length, length-append, arith,
}
use pane_dock.Model.{Double}
use pane_dock.Json.{Json, Items, Fields, array, object, no_items, item, no_fields, field}
use pane_dock.Json.Print.{
  comma, colon, open_bracket, close_bracket, open_brace, close_brace, escape, separator, dump,
  dump_items, dump_fields,
}
use pane_dock.Json.Parse.Numbers.{ends_number}

module _ (show : Double → Text) where
  -- What stands behind a value in a document.
  pub ends_number-items :
      (items : Items) (rest : Text)
      → ends_number (dump_items show false items ++ close_bracket ∷ rest) ≡ true
  unfolding dump_items
  ends_number-items no_items rest = refl
  ends_number-items (item j items) rest = refl

  pub ends_number-fields :
      (fields : Fields) (rest : Text)
      → ends_number (dump_fields show false fields ++ close_brace ∷ rest) ≡ true
  unfolding dump_fields
  ends_number-fields no_fields rest = refl
  ends_number-fields (field k v more) rest = refl

  -- The characters of an array and of an object, from the first value or key on.
  pub dump-array :
      (j : Json) (items : Items) (rest : Text)
      → dump show (array (item j items)) ++ rest
        ≡ open_bracket ∷ (dump show j ++ (dump_items show false items ++ close_bracket ∷ rest))
  unfolding dump dump_items
  dump-array j items rest =
      ap (λ t. open_bracket ∷ t)
        (append_assoc (dump show j ++ dump_items show false items) (close_bracket ∷ []) rest
          ∙ append_assoc (dump show j) (dump_items show false items) (close_bracket ∷ rest))

  pub dump_items-item :
      (j : Json) (items : Items) (rest : Text)
      → dump_items show false (item j items) ++ close_bracket ∷ rest
        ≡ comma ∷ (dump show j ++ (dump_items show false items ++ close_bracket ∷ rest))
  unfolding dump_items
  dump_items-item j items rest =
      ap (λ t. comma ∷ t)
        (append_assoc (dump show j) (dump_items show false items) (close_bracket ∷ rest))

  pub dump_field :
      (k : Text) (v : Json) (fields : Fields) (rest : Text)
      → dump_fields show true (field k v fields) ++ close_brace ∷ rest
        ≡ escape k
          ++ (colon ∷ (dump show v ++ (dump_fields show false fields ++ close_brace ∷ rest)))
  unfolding dump_fields
  dump_field k v fields rest =
      append_assoc (escape k) (colon ∷ (dump show v ++ dump_fields show false fields))
        (close_brace ∷ rest)
      ∙ ap (λ t. escape k ++ (colon ∷ t))
          (append_assoc (dump show v) (dump_fields show false fields) (close_brace ∷ rest))

  pub dump-object :
      (k : Text) (v : Json) (fields : Fields) (rest : Text)
      → dump show (object (field k v fields)) ++ rest
        ≡ open_brace
          ∷ (escape k
              ++ (colon ∷ (dump show v ++ (dump_fields show false fields ++ close_brace ∷ rest))))
  unfolding dump
  dump-object k v fields rest =
      ap (λ t. open_brace ∷ t)
        (append_assoc (dump_fields show true (field k v fields)) (close_brace ∷ []) rest
          ∙ dump_field k v fields rest)

  pub dump_fields-field :
      (k : Text) (v : Json) (fields : Fields) (rest : Text)
      → dump_fields show false (field k v fields) ++ close_brace ∷ rest
        ≡ comma
          ∷ (escape k
              ++ (colon ∷ (dump show v ++ (dump_fields show false fields ++ close_brace ∷ rest))))
  unfolding dump_fields
  dump_fields-field k v fields rest = ap (λ t. comma ∷ t) (dump_field k v fields rest)

  pub length-dump_array :
      (j : Json) (items : Items)
      → length (dump show (array (item j items)))
        ≡ 2 + length (dump show j) + length (dump_items show false items)
  unfolding dump dump_items
  length-dump_array j items = omega (
    arith,
    length-append (dump show j ++ dump_items show false items) (close_bracket ∷ []),
    length-append (dump show j) (dump_items show false items),
  )

  pub length-dump_items :
      (j : Json) (items : Items)
      → length (dump_items show false (item j items))
        ≡ 1 + length (dump show j) + length (dump_items show false items)
  unfolding dump_items
  length-dump_items j items =
      omega (arith, length-append (dump show j) (dump_items show false items))

  pub length-dump_fields :
      (first : Bool) (k : Text) (v : Json) (fields : Fields)
      → length (dump_fields show first (field k v fields))
        ≡ length (separator first)
          + 1
          + length (escape k)
          + length (dump show v)
          + length (dump_fields show false fields)
  unfolding dump_fields
  length-dump_fields first k v fields = omega (
    arith,
    length-append (separator first)
        (escape k ++ (colon ∷ (dump show v ++ dump_fields show false fields))),
    length-append (escape k) (colon ∷ (dump show v ++ dump_fields show false fields)),
    length-append (dump show v) (dump_fields show false fields),
  )

  pub length-dump_object :
      (fields : Fields)
      → length (dump show (object fields)) ≡ 2 + length (dump_fields show true fields)
  unfolding dump
  length-dump_object fields =
      omega (arith, length-append (dump_fields show true fields) (close_brace ∷ []))

  pub dump_no_items :
      (rest : Text) → dump_items show false no_items ++ close_bracket ∷ rest ≡ close_bracket ∷ rest
  unfolding dump_items
  dump_no_items rest = refl

  pub dump_no_fields :
      (rest : Text) → dump_fields show false no_fields ++ close_brace ∷ rest ≡ close_brace ∷ rest
  unfolding dump_fields
  dump_no_fields rest = refl
