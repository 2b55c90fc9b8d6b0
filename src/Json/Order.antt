-- ===== src/Json/Order.antt =====
-- The order of an object's keys, and what `emplace` and `assign` do at a key's place.
use pane_dock.Common.{
  ◌≡◌, refl, ap, subst, true, false, [], ◌∷◌, some, Text, Text-discrete, text_eq, holds_of_not,
  arith,
}
use pane_dock.Json.{Json, Fields, no_fields, field, text_ltb, emplace}

-- Every key of an object, and every value.
abbrev pub AllFields : (Text → Json → Type 0) → Fields → Type 0
AllFields P no_fields = Unit
AllFields P (field k v fields) = P k v × AllFields P fields

-- Ascending keys, as a `std::map` keeps them.
abbrev pub IsSorted : Fields → Type 0
IsSorted no_fields = Unit
IsSorted (field k v fields) = AllFields (λ l w. text_ltb k l ≡ true) fields × IsSorted fields

-- One more entry behind the others.
unfoldable pub push_field : Text → Json → Fields → Fields
push_field key value no_fields = field key value no_fields
push_field key value (field k v fields) = field k v (push_field key value fields)

-- An entry for every one of two objects in turn.
unfoldable pub append_fields : Fields → Fields → Fields
append_fields no_fields more = more
append_fields (field k v fields) more = field k v (append_fields fields more)

pub text_ltb_irrefl : (s : Text) → text_ltb s s ≡ false
unfolding text_ltb
text_ltb_irrefl [] = refl
text_ltb_irrefl (c ∷ s) = ground (arith, text_ltb_irrefl s)

pub text_ltb_asymm : (s t : Text) → text_ltb s t ≡ true → text_ltb t s ≡ false
unfolding text_ltb
text_ltb_asymm s [] h = cc
text_ltb_asymm [] (d ∷ t) h = refl
text_ltb_asymm (c ∷ s) (d ∷ t) h = ground (arith, text_ltb_asymm s t)

pub text_ltb_trans :
    (s t u : Text) → text_ltb s t ≡ true → text_ltb t u ≡ true → text_ltb s u ≡ true
unfolding text_ltb
text_ltb_trans s [] u h k = cc
text_ltb_trans s (d ∷ t) [] h k = cc
text_ltb_trans [] (d ∷ t) (e ∷ u) h k = refl
text_ltb_trans (c ∷ s) (d ∷ t) (e ∷ u) h k = ground (arith, text_ltb_trans s t u)

pub text_eq-false : (s t : Text) → text_ltb t s ≡ true → text_eq s t ≡ false
text_eq-false s t h = holds_of_not (Text-discrete s t) λ e.
    let same : text_ltb t t ≡ true = subst (λ u. text_ltb t u ≡ true) e h in
    let never = text_ltb_irrefl t in cc

-- A key above all others goes behind them.
pub emplace_last :
    (key : Text) (value : Json) (fields : Fields)
    → AllFields (λ k v. text_ltb k key ≡ true) fields
    → emplace key value fields ≡ some (push_field key value fields)
unfolding emplace push_field
emplace_last key value no_fields h = refl
emplace_last key value (field k v fields) h =
    rw (emplace_last key value fields h.1, text_eq-false key k h.0, text_ltb_asymm k key h.0) refl

pub append_fields-push_field :
    (key : Text) (value : Json) (fields more : Fields)
    → append_fields (push_field key value fields) more ≡ append_fields fields (field key value more)
unfolding append_fields push_field
append_fields-push_field key value no_fields more = refl
append_fields-push_field key value (field k v fields) more =
    ap (field k v) (append_fields-push_field key value fields more)

pub AllFields-push_field :
    (P : Text → Json → Type 0) (key : Text) (value : Json) (fields : Fields)
    → AllFields P fields
    → P key value
    → AllFields P (push_field key value fields)
unfolding push_field
AllFields-push_field P key value no_fields h p = (p, tt)
AllFields-push_field P key value (field k v fields) h p =
    (h.0, AllFields-push_field P key value fields h.1 p)

-- Every key of one object stands before every key of another.
abbrev pub AllBefore : Fields → Fields → Type 0
AllBefore known more = AllFields (λ l w. AllFields (λ k v. text_ltb k l ≡ true) known) more

pub AllBefore-push_field :
    (key : Text) (value : Json) (known more : Fields)
    → AllBefore known more
    → AllFields (λ l w. text_ltb key l ≡ true) more
    → AllBefore (push_field key value known) more
AllBefore-push_field key value known no_fields h a = tt
AllBefore-push_field key value known (field l w more) h a = (
  AllFields-push_field (λ k v. text_ltb k l ≡ true) key value known h.0 a.0,
  AllBefore-push_field key value known more h.1 a.1,
)

pub AllBefore-nil : (more : Fields) → AllBefore no_fields more
AllBefore-nil no_fields = tt
AllBefore-nil (field k v more) = (tt, AllBefore-nil more)
