-- ===== src/Json/Parse/Fuel.antt =====
-- `Parser` always ends: every reader takes a part of its input, so the fuel that `parse` is given is enough.
use pane_dock.Common.{
  ℕ, zero, suc, ◌*◌, ◌≤◌, ◌<◌, ◌≡◌, refl, Bool, true, false, [], ◌∷◌, Option, none, some, Text,
  if◌then◌else◌, length, arith, ◌⊎◌, inl, inr,
}
use pane_dock.Model.{Double}
use pane_dock.Json.{
  Json, Items, Fields, null, boolean, number, text, array, object, no_items, no_fields, emplace,
}
use pane_dock.Json.Print.{
  comma, colon, close_bracket, close_brace, true_word, false_word, null_word,
}
use pane_dock.Json.Parse.{
  Outcome, parsed, refused, starved, and_then, whitespace, take, behind, string_in, lexeme,
  number_in, word_or_number, shape, Shape, a_string, an_object, an_array, another, push_item,
  opened, value, items_in, fields_in, at_end, parse,
}
use pane_dock.Json.Parse.Leaves.{
  Shrinks, length-whitespace, length-take, length-behind, Leaves-some, Shrinks-mono, Shrinks-bind,
  Shrinks-word, Shrinks-option,
}
use pane_dock.Json.Parse.StringFuel.{string_in-Shrinks}
use pane_dock.Json.Parse.NumberFuel.{lexeme-Leaves}

module _ (scan : Text → Option Double) where
  number_in-Shrinks : (c : ℕ) (t : Text) → Shrinks (suc (length t)) (number_in scan (c ∷ t))
  unfolding number_in
  number_in-Shrinks c t =
      Shrinks-option (suc (length t)) (lexeme (c ∷ t))
        (λ read. elim (scan read.0) [ none ↦ refused | some d ↦ parsed (number d) read.1 ])
        λ read e.
          let short = Leaves-some (length t) (lexeme (c ∷ t)) read (lexeme-Leaves c t) e in
          Shrinks-option (suc (length t)) (scan read.0) (λ d. parsed (number d) read.1)
            λ d f. omega arith

  word_or_number-Shrinks :
      (c : ℕ) (t : Text) → Shrinks (suc (length t)) (word_or_number scan (c ∷ t))
  unfolding word_or_number
  word_or_number-Shrinks c t =
      let n = suc (length t) in
      let last = number_in scan (c ∷ t) in
      let third : Outcome Json = elim (behind null_word (c ∷ t)) [
        | some rest ↦ parsed null rest
        | none ↦ last
      ] in
      let second : Outcome Json = elim (behind false_word (c ∷ t)) [
        | some rest ↦ parsed (boolean false) rest
        | none ↦ third
      ] in
      Shrinks-word n (behind true_word (c ∷ t)) (λ rest. parsed (boolean true) rest) second
        (λ rest e. omega (arith, length-behind true_word (c ∷ t) rest e))
        (Shrinks-word n (behind false_word (c ∷ t)) (λ rest. parsed (boolean false) rest) third
          (λ rest e. omega (arith, length-behind false_word (c ∷ t) rest e))
          (Shrinks-word n (behind null_word (c ∷ t)) (λ rest. parsed null rest) last
            (λ rest e. omega (arith, length-behind null_word (c ∷ t) rest e))
            (number_in-Shrinks c t)))

  opened-Shrinks :
      (close : ℕ) (empty : Json) (filled : Outcome Json) (t : Text)
      → Shrinks (suc (length t)) filled
      → Shrinks (suc (length t)) (opened close empty filled t)
  unfolding opened
  opened-Shrinks close empty filled t h =
      Shrinks-word (suc (length t)) (take close t) (λ rest. parsed empty rest) filled
        (λ rest e. omega (arith, length-take close t rest e)) h

  -- One call of each reader, given what the calls in it leave.
  value-step :
      (fuel : ℕ) (t : Text)
      → ((u : Text)
          → length u < length t
          → Shrinks (suc (length u)) (items_in scan fuel no_items u))
      → ((u : Text)
          → length u < length t
          → Shrinks (suc (length u)) (fields_in scan fuel no_fields u))
      → Shrinks (length t) (value scan (suc fuel) t)
  unfolding value
  value-step fuel t items fields = go (whitespace t) (length-whitespace t)
    where
      at_shape :
          (c : ℕ) (u : Text)
          → length u < length t
          → (k : Shape)
          → Shrinks (length t) (elim k [
            | a_string ↦
                and_then (string_in (suc (length u)) (c ∷ u)) λ s more. parsed (text s) more
            | an_object ↦ opened close_brace (object no_fields) (fields_in scan fuel no_fields u) u
            | an_array ↦ opened close_bracket (array no_items) (items_in scan fuel no_items u) u
            | another ↦ word_or_number scan (c ∷ u)
          ])
      at_shape c u h a_string =
          Shrinks-bind (suc (length u)) (length t) (string_in (suc (length u)) (c ∷ u))
            (λ s more. parsed (text s) more)
            (string_in-Shrinks (suc (length u)) (c ∷ u) (omega arith)) λ s more l. omega arith
      at_shape c u h an_object =
          Shrinks-mono (suc (length u)) (length t)
            (opened close_brace (object no_fields) (fields_in scan fuel no_fields u) u) h
            (opened-Shrinks close_brace (object no_fields) (fields_in scan fuel no_fields u) u
              (fields u h))
      at_shape c u h an_array =
          Shrinks-mono (suc (length u)) (length t)
            (opened close_bracket (array no_items) (items_in scan fuel no_items u) u) h
            (opened-Shrinks close_bracket (array no_items) (items_in scan fuel no_items u) u
              (items u h))
      at_shape c u h another =
          Shrinks-mono (suc (length u)) (length t) (word_or_number scan (c ∷ u)) h
            (word_or_number-Shrinks c u)

      go :
          (v : Text)
          → length v ≤ length t
          → Shrinks (length t) (elim v [
            | [] ↦ refused
            | c ∷ rest ↦ elim (shape c) [
              | a_string ↦
                  and_then (string_in (suc (length rest)) (c ∷ rest)) λ s more. parsed (text s) more
              | an_object ↦
                  opened close_brace (object no_fields) (fields_in scan fuel no_fields rest) rest
              | an_array ↦
                  opened close_bracket (array no_items) (items_in scan fuel no_items rest) rest
              | another ↦ word_or_number scan (c ∷ rest)
            ]
          ])
      go [] h = tt
      go (c ∷ u) h = at_shape c u h (shape c)

  items_in-step :
      (fuel : ℕ) (known : Items) (t : Text)
      → Shrinks (length t) (value scan fuel t)
      → ((more : Items) (u : Text)
          → suc (length u) < length t
          → Shrinks (suc (length u)) (items_in scan fuel more u))
      → Shrinks (suc (length t)) (items_in scan (suc fuel) known t)
  unfolding items_in
  items_in-step fuel known t v h =
      let n = suc (length t) in
      Shrinks-bind (length t) n (value scan fuel t)
        (λ j rest. elim (take close_bracket rest) [
          | some beyond ↦ parsed (array (push_item known j)) beyond
          | none ↦ elim (take comma rest) [
            | some more ↦ items_in scan fuel (push_item known j) more
            | none ↦ refused
          ]
        ])
        v
        λ j rest l.
          Shrinks-word n (take close_bracket rest)
            (λ beyond. parsed (array (push_item known j)) beyond)
            (elim (take comma rest) [
              | some more ↦ items_in scan fuel (push_item known j) more
              | none ↦ refused
            ])
            (λ beyond e. omega (arith, length-take close_bracket rest beyond e))
            (Shrinks-option n (take comma rest)
              (λ more. items_in scan fuel (push_item known j) more)
              λ more e.
                let short = length-take comma rest more e in
                Shrinks-mono (suc (length more)) n (items_in scan fuel (push_item known j) more)
                  (omega arith) (h (push_item known j) more (omega arith)))

  fields_in-step :
      (fuel : ℕ) (known : Fields) (t : Text)
      → ((u : Text) → length u < length t → Shrinks (length u) (value scan fuel u))
      → ((more : Fields) (u : Text)
          → suc (length u) < length t
          → Shrinks (suc (length u)) (fields_in scan fuel more u))
      → Shrinks (suc (length t)) (fields_in scan (suc fuel) known t)
  unfolding fields_in
  fields_in-step fuel known t v h =
      let n = suc (length t) in
      let behind_entry : Fields → Text → Outcome Json = λ more after.
        elim (take close_brace after) [
          | some beyond ↦ parsed (object more) beyond
          | none ↦ elim (take comma after) [
            | some next ↦ fields_in scan fuel more next
            | none ↦ refused
          ]
        ] in
      let with_value : Text → Json → Text → Outcome Json = λ key w after.
        elim (emplace key w known) [ none ↦ refused | some more ↦ behind_entry more after ] in
      let entry : Text → Text → Outcome Json = λ key rest. elim (take colon rest) [
        | none ↦ refused
        | some at ↦ and_then (value scan fuel at) (with_value key)
      ] in
      Shrinks-bind (length t) n (string_in (suc (length t)) t) entry
        (string_in-Shrinks (suc (length t)) t (omega arith))
        λ key rest l.
          Shrinks-option n (take colon rest) (λ at. and_then (value scan fuel at) (with_value key))
            λ at e.
              let short = length-take colon rest at e in
              Shrinks-bind (length at) n (value scan fuel at) (with_value key) (v at (omega arith))
                λ w after m.
                  Shrinks-option n (emplace key w known) (λ more. behind_entry more after)
                    λ more f.
                      Shrinks-word n (take close_brace after)
                        (λ beyond. parsed (object more) beyond)
                        (elim (take comma after) [
                          | some next ↦ fields_in scan fuel more next
                          | none ↦ refused
                        ])
                        (λ beyond g. omega (arith, length-take close_brace after beyond g))
                        (Shrinks-option n (take comma after) (λ next. fields_in scan fuel more next)
                          λ next g.
                            let shorter = length-take comma after next g in
                            Shrinks-mono (suc (length next)) n (fields_in scan fuel more next)
                              (omega arith) (h more next (omega arith)))

  mutual
    value-Shrinks :
        (fuel : ℕ) (t : Text) → 2 * length t < fuel → Shrinks (length t) (value scan fuel t)
    value-Shrinks zero t h = absurd (omega arith)
    value-Shrinks (suc fuel) t h =
        value-step fuel t (λ u l. items_in-Shrinks fuel no_items u (omega arith))
          (λ u l. fields_in-Shrinks fuel no_fields u (omega arith))

    items_in-Shrinks :
        (fuel : ℕ) (known : Items) (t : Text)
        → suc (2 * length t) < fuel
        → Shrinks (suc (length t)) (items_in scan fuel known t)
    items_in-Shrinks zero known t h = absurd (omega arith)
    items_in-Shrinks (suc fuel) known t h =
        items_in-step fuel known t (value-Shrinks fuel t (omega arith))
          (λ more u l. items_in-Shrinks fuel more u (omega arith))

    fields_in-Shrinks :
        (fuel : ℕ) (known : Fields) (t : Text)
        → suc (2 * length t) < fuel
        → Shrinks (suc (length t)) (fields_in scan fuel known t)
    fields_in-Shrinks zero known t h = absurd (omega arith)
    fields_in-Shrinks (suc fuel) known t h =
        fields_in-step fuel known t (λ u l. value-Shrinks fuel u (omega arith))
          (λ more u l. fields_in-Shrinks fuel more u (omega arith))

  -- `parse` answers every text with a document or a refusal: its fuel never runs out.
  pub parse-total :
      (t : Text) → (parse scan t ≡ refused) ⊎ ((j : Json) × (parse scan t ≡ parsed j []))
  unfolding parse
  parse-total t =
      go (value scan (suc (2 * length t)) t) (value-Shrinks (suc (2 * length t)) t (omega arith))
    where
      ending :
          (j : Json) (b : Bool)
          → ((if b then parsed j [] else refused) ≡ refused)
            ⊎ ((k : Json) × ((if b then parsed j [] else refused) ≡ parsed k []))
      ending j true = inr (j, refl)
      ending j false = inl refl

      go :
          (o : Outcome Json)
          → Shrinks (length t) o
          → (and_then o (λ j rest. if at_end (whitespace rest) then parsed j [] else refused)
              ≡ refused)
            ⊎ ((j : Json) × (and_then o
                    (λ k rest. if at_end (whitespace rest) then parsed k [] else refused)
                  ≡ parsed j []))
      go (parsed j rest) h = ending j (at_end (whitespace rest))
      go refused h = inl refl
      go starved h = absurd h
