-- ===== src/Json/Parse/Kept.antt =====
-- What the parser makes can be written: its numbers are finite, and its objects have their keys in order.
use pane_dock.Common.{
  ℕ, zero, suc, ◌≡◌, ◌↔◌, ◌*◌, refl, subst, Bool, true, false, Option, none, some, Text, [], ◌∷◌,
  length, if◌then◌else◌, Option-cases, inl, inr,
}
use pane_dock.Model.{Double}
use pane_dock.Json.{
  Json, Items, Fields, text, array, object, no_items, item, no_fields, field, emplace,
}
use pane_dock.Json.Print.{
  comma, colon, close_bracket, close_brace, true_word, false_word, null_word,
}
use pane_dock.Json.Parse.{
  Outcome, parsed, refused, starved, and_then, whitespace, take, behind, lexeme, shape, a_string,
  an_object, an_array, another, Shape, at_end, string_in, push_item, opened, number_in,
  word_or_number, value, items_in, fields_in, parse,
}
use pane_dock.Json.Order.{AllFields, IsSorted}
use pane_dock.Json.Sorted.{WhenSome, AllFields-emplace, IsSorted-emplace}
use pane_dock.Json.Parse.Steps.{IsFinite, IsWritable, AreWritable, AreWritableFields}

-- An object that can be written.
abbrev pub IsWritableObject : Fields → Type 0
IsWritableObject place = IsSorted place × AreWritableFields place

-- What a result holds, where there is one.
abbrev Yields : {A : Type 0} → (A → Type 0) → Outcome A → Type 0
Yields P (parsed a rest) = P a
Yields P refused = Unit
Yields P starved = Unit

Yields-and_then :
    {A B : Type 0} (P : A → Type 0) (Q : B → Type 0) (o : Outcome A) (k : A → Text → Outcome B)
    → Yields P o
    → ((a : A) (rest : Text) → P a → Yields Q (k a rest))
    → Yields Q (and_then o k)
Yields-and_then P Q (parsed a rest) k h f = f a rest h
Yields-and_then P Q refused k h f = tt
Yields-and_then P Q starved k h f = tt

Yields-any : {A : Type 0} (o : Outcome A) → Yields (λ a. Unit) o
Yields-any (parsed a rest) = tt
Yields-any refused = tt
Yields-any starved = tt

Yields-option :
    {A : Type 0} (o : Option A) (otherwise : Outcome Json) (k : A → Outcome Json)
    → Yields IsWritable otherwise
    → ((a : A) → o ≡ some a → Yields IsWritable (k a))
    → Yields IsWritable (elim o [ none ↦ otherwise | some a ↦ k a ])
Yields-option none otherwise k h f = h
Yields-option (some a) otherwise k h f = f a refl

Yields-if :
    (b : Bool) (j : Json) → IsWritable j → Yields IsWritable (if b then parsed j [] else refused)
Yields-if true j w = w
Yields-if false j w = tt

items_empty : AreWritable no_items
unfolding IsWritable
items_empty = tt

object_empty : IsWritableObject no_fields
unfolding IsWritable
object_empty = (tt, tt)

push_item-AreWritable :
    (items : Items) (j : Json) → AreWritable items → IsWritable j → AreWritable (push_item items j)
unfolding push_item IsWritable
push_item-AreWritable no_items j a w = (w, tt)
push_item-AreWritable (item i items) j a w = (a.0, push_item-AreWritable items j a.1 w)

AreWritableFields-AllFields :
    (place : Fields) → AreWritableFields place ↔ AllFields (λ k v. IsWritable v) place
unfolding IsWritable
AreWritableFields-AllFields no_fields = (λ h. h, λ h. h)
AreWritableFields-AllFields (field k v more) =
    let rest = AreWritableFields-AllFields more in (λ h. (h.0, rest.0 h.1), λ h. (h.0, rest.1 h.1))

emplace-IsWritableObject :
    (k : Text) (v : Json) (place next : Fields)
    → IsWritable v
    → IsWritableObject place
    → emplace k v place ≡ some next
    → IsWritableObject next
emplace-IsWritableObject k v place next w h e = (
  subst (WhenSome IsSorted) e (IsSorted-emplace k v place h.0),
  (AreWritableFields-AllFields next).1 (
      subst (WhenSome (AllFields (λ l x. IsWritable x))) e (
        AllFields-emplace (λ l x. IsWritable x) k v place w
          ((AreWritableFields-AllFields place).0 h.1))),
)

module _ (scan : Text → Option Double)
    (finite_only : (t : Text) (d : Double) → scan t ≡ some d → IsFinite d) where
  number_in-IsWritable : (t : Text) → Yields IsWritable (number_in scan t)
  unfolding number_in IsWritable
  number_in-IsWritable t = elim (Option-cases (lexeme t)) [
    | inl e ↦ rw (number_in, e) tt
    | inr (read, e) ↦ elim (Option-cases (scan read.0)) [
      | inl f ↦ rw (number_in, e) (rw f tt)
      | inr (d, f) ↦ rw (number_in, e) (rw f (finite_only read.0 d f))
    ]
  ]

  word_or_number-IsWritable : (t : Text) → Yields IsWritable (word_or_number scan t)
  unfolding word_or_number IsWritable
  word_or_number-IsWritable t = elim (Option-cases (behind true_word t)) [
    | inr (rest, e) ↦ rw (word_or_number, e) tt
    | inl e ↦ elim (Option-cases (behind false_word t)) [
      | inr (rest, f) ↦ rw (word_or_number, e) (rw f tt)
      | inl f ↦ elim (Option-cases (behind null_word t)) [
        | inr (rest, g) ↦ rw (word_or_number, e) (rw (f, g) tt)
        | inl g ↦ rw (word_or_number, e) (rw (f, g) (number_in-IsWritable t))
      ]
    ]
  ]

  opened-IsWritable :
      (close : ℕ) (empty : Json) (filled : Outcome Json) (t : Text)
      → IsWritable empty
      → Yields IsWritable filled
      → Yields IsWritable (opened close empty filled t)
  unfolding opened
  opened-IsWritable close empty filled t p h =
      Yields-option (take close t) filled (λ rest. parsed empty rest) h λ rest e. p

  value-starved : (t : Text) → Yields IsWritable (value scan zero t)
  unfolding value
  value-starved t = tt

  items_in-starved : (known : Items) (t : Text) → Yields IsWritable (items_in scan zero known t)
  unfolding items_in
  items_in-starved known t = tt

  fields_in-starved : (known : Fields) (t : Text) → Yields IsWritable (fields_in scan zero known t)
  unfolding fields_in
  fields_in-starved known t = tt

  value-step :
      (fuel : ℕ) (t : Text)
      → ((u : Text) → Yields IsWritable (items_in scan fuel no_items u))
      → ((u : Text) → Yields IsWritable (fields_in scan fuel no_fields u))
      → Yields IsWritable (value scan (suc fuel) t)
  unfolding value IsWritable
  value-step fuel t items place = go (whitespace t)
    where
      at_shape :
          (c : ℕ) (u : Text) (k : Shape)
          → Yields IsWritable (elim k [
            | a_string ↦
                and_then (string_in (suc (length u)) (c ∷ u)) λ s more. parsed (text s) more
            | an_object ↦ opened close_brace (object no_fields) (fields_in scan fuel no_fields u) u
            | an_array ↦ opened close_bracket (array no_items) (items_in scan fuel no_items u) u
            | another ↦ word_or_number scan (c ∷ u)
          ])
      at_shape c u a_string =
          Yields-and_then (λ s. Unit {0}) IsWritable (string_in (suc (length u)) (c ∷ u))
            (λ s more. parsed (text s) more) (Yields-any (string_in (suc (length u)) (c ∷ u)))
            λ s more w. tt
      at_shape c u an_object =
          opened-IsWritable close_brace (object no_fields) (fields_in scan fuel no_fields u) u
            (tt, tt) (place u)
      at_shape c u an_array =
          opened-IsWritable close_bracket (array no_items) (items_in scan fuel no_items u) u tt
            (items u)
      at_shape c u another = word_or_number-IsWritable (c ∷ u)

      go :
          (v : Text)
          → Yields IsWritable (elim v [
            | [] ↦ refused
            | c ∷ rest ↦ elim (shape c) [
              | a_string ↦
                  and_then (string_in (suc (length rest)) (c ∷ rest)) λ s more. parsed (text s) more
              | an_object ↦
                  opened close_brace (object no_fields) (fields_in scan fuel no_fields rest) rest
              | an_array ↦
                  opened close_bracket (array no_items) (items_in scan fuel no_items rest) rest
              | another ↦ word_or_number scan (c ∷ rest)
            ]
          ])
      go [] = tt
      go (c ∷ u) = at_shape c u (shape c)

  items_in-step :
      (fuel : ℕ) (known : Items) (t : Text)
      → AreWritable known
      → Yields IsWritable (value scan fuel t)
      → ((more : Items) (u : Text)
          → AreWritable more
          → Yields IsWritable (items_in scan fuel more u))
      → Yields IsWritable (items_in scan (suc fuel) known t)
  unfolding items_in IsWritable
  items_in-step fuel known t k v h =
      Yields-and_then IsWritable IsWritable (value scan fuel t)
        (λ j rest. elim (take close_bracket rest) [
          | some beyond ↦ parsed (array (push_item known j)) beyond
          | none ↦ elim (take comma rest) [
            | some more ↦ items_in scan fuel (push_item known j) more
            | none ↦ refused
          ]
        ])
        v
        λ j rest w.
          let pushed = push_item-AreWritable known j k w in
          Yields-option (take close_bracket rest)
            (elim (take comma rest) [
              | some more ↦ items_in scan fuel (push_item known j) more
              | none ↦ refused
            ])
            (λ beyond. parsed (array (push_item known j)) beyond)
            (Yields-option (take comma rest) refused
              (λ more. items_in scan fuel (push_item known j) more) tt
              λ more e. h (push_item known j) more pushed)
            λ beyond e. pushed

  fields_in-step :
      (fuel : ℕ) (known : Fields) (t : Text)
      → IsWritableObject known
      → ((u : Text) → Yields IsWritable (value scan fuel u))
      → ((more : Fields) (u : Text)
          → IsWritableObject more
          → Yields IsWritable (fields_in scan fuel more u))
      → Yields IsWritable (fields_in scan (suc fuel) known t)
  unfolding fields_in IsWritable
  fields_in-step fuel known t k v h =
      let behind_entry : Fields → Text → Outcome Json = λ more after.
        elim (take close_brace after) [
          | some beyond ↦ parsed (object more) beyond
          | none ↦ elim (take comma after) [
            | some next ↦ fields_in scan fuel more next
            | none ↦ refused
          ]
        ] in
      let with_value : Text → Json → Text → Outcome Json = λ key w after.
        elim (emplace key w known) [ none ↦ refused | some more ↦ behind_entry more after ] in
      let entry : Text → Text → Outcome Json = λ key rest. elim (take colon rest) [
        | none ↦ refused
        | some at ↦ and_then (value scan fuel at) (with_value key)
      ] in
      Yields-and_then (λ key. Unit {0}) IsWritable (string_in (suc (length t)) t) entry
        (Yields-any (string_in (suc (length t)) t))
        λ key rest u.
          Yields-option (take colon rest) refused
            (λ at. and_then (value scan fuel at) (with_value key)) tt
            λ at e.
              Yields-and_then IsWritable IsWritable (value scan fuel at) (with_value key) (v at)
                λ w after good.
                  Yields-option (emplace key w known) refused (λ more. behind_entry more after) tt
                    λ more f.
                      let next_object = emplace-IsWritableObject key w known more good k f in
                      Yields-option (take close_brace after)
                        (elim (take comma after) [
                          | some next ↦ fields_in scan fuel more next
                          | none ↦ refused
                        ])
                        (λ beyond. parsed (object more) beyond)
                        (Yields-option (take comma after) refused
                          (λ next. fields_in scan fuel more next) tt
                          λ next g. h more next next_object)
                        λ beyond g. next_object

  mutual
    value-IsWritable : (fuel : ℕ) (t : Text) → Yields IsWritable (value scan fuel t)
    value-IsWritable zero t = value-starved t
    value-IsWritable (suc fuel) t =
        value-step fuel t (λ u. items_in-IsWritable fuel no_items u items_empty)
          (λ u. fields_in-IsWritable fuel no_fields u object_empty)

    items_in-IsWritable :
        (fuel : ℕ) (known : Items) (t : Text)
        → AreWritable known
        → Yields IsWritable (items_in scan fuel known t)
    items_in-IsWritable zero known t k = items_in-starved known t
    items_in-IsWritable (suc fuel) known t k =
        items_in-step fuel known t k (value-IsWritable fuel t)
          (λ more u w. items_in-IsWritable fuel more u w)

    fields_in-IsWritable :
        (fuel : ℕ) (known : Fields) (t : Text)
        → IsWritableObject known
        → Yields IsWritable (fields_in scan fuel known t)
    fields_in-IsWritable zero known t k = fields_in-starved known t
    fields_in-IsWritable (suc fuel) known t k =
        fields_in-step fuel known t k (λ u. value-IsWritable fuel u)
          (λ more u w. fields_in-IsWritable fuel more u w)

  -- Every document that is read from a text can be written.
  pub parse-IsWritable :
      (t : Text) (j : Json) (rest : Text) → parse scan t ≡ parsed j rest → IsWritable j
  unfolding parse
  parse-IsWritable t j rest e = subst (Yields IsWritable) e (
      Yields-and_then IsWritable IsWritable (value scan (suc (2 * length t)) t)
        (λ i more. if at_end (whitespace more) then parsed i [] else refused)
        (value-IsWritable (suc (2 * length t)) t)
        λ i more w. Yields-if (at_end (whitespace more)) i w)
