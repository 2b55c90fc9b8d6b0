-- ===== src/Json/Sorted.antt =====
-- The order of the keys after one more entry.
use pane_dock.Common.{
  ◌≡◌, refl, ◌∙◌, ap, subst, true, false, [], ◌∷◌, Option, none, some, Text, Text-discrete, text_eq,
  holds-false, arith, Bool-cases, Option-cases, inl, inr, ◌==◌,
}
use pane_dock.Json.{Json, Fields, no_fields, field, text_ltb, emplace}
use pane_dock.Json.Order.{AllFields, IsSorted, text_ltb_trans}

text_ltb_total : (s t : Text) → (s ≡ t → ⊥) → text_ltb s t ≡ false → text_ltb t s ≡ true
unfolding text_ltb
text_ltb_total [] [] n h = absurd (n refl)
text_ltb_total [] (d ∷ t) n h = cc
text_ltb_total (c ∷ s) [] n h = refl
text_ltb_total (c ∷ s) (d ∷ t) n h = elim (Bool-cases (c == d)) [
  | inl e ↦
      let same : c ≡ d = ground arith in
      let rest = text_ltb_total s t (λ q. n (ap (◌∷◌ c) q ∙ ap (λ x. x ∷ t) same)) (ground arith) in
      ground (arith, rest)
  | inr e ↦ ground arith
]

pub text_ltb-apart : (s t : Text) → text_eq s t ≡ false → text_ltb s t ≡ false → text_ltb t s ≡ true
text_ltb-apart s t e h = text_ltb_total s t (holds-false (Text-discrete s t) e) h

pub AllFields-imp :
    (P Q : Text → Json → Type 0)
    → ((k : Text) (v : Json) → P k v → Q k v)
    → (place : Fields) → AllFields P place
    → AllFields Q place
AllFields-imp P Q f no_fields h = tt
AllFields-imp P Q f (field k v more) h = (f k v h.0, AllFields-imp P Q f more h.1)

-- A key in front of the first one stands in front of all.
pub IsSorted-front :
    (k l : Text) (w : Json) (more : Fields)
    → text_ltb k l ≡ true
    → IsSorted (field l w more)
    → AllFields (λ m v. text_ltb k m ≡ true) (field l w more)
IsSorted-front k l w more b s = (
  b,
  AllFields-imp (λ m v. text_ltb l m ≡ true) (λ m v. text_ltb k m ≡ true)
      (λ m v h. text_ltb_trans k l m b h) more s.0,
)

-- What holds where there is a result.
abbrev pub WhenSome : {A : Type 0} → (A → Type 0) → Option A → Type 0
WhenSome P none = Unit
WhenSome P (some x) = P x

-- What holds of the entries that there are and of a new one holds of those that `emplace` gives.
pub AllFields-emplace :
    (P : Text → Json → Type 0) (k : Text) (v : Json) (place : Fields)
    → P k v
    → AllFields P place
    → WhenSome (AllFields P) (emplace k v place)
unfolding emplace
AllFields-emplace P k v no_fields p h = (p, tt)
AllFields-emplace P k v (field l w more) p h = elim (Bool-cases (text_eq k l)) [
  | inl e ↦ rw e tt
  | inr e ↦ elim (Bool-cases (text_ltb k l)) [
    | inl b ↦ rw (e, b) (p, h)
    | inr b ↦
        let rest = AllFields-emplace P k v more p h.1 in
        elim (Option-cases (emplace k v more)) [
          | inl o ↦ rw (e, b, o) tt
          | inr (next, o) ↦ rw (e, b, o) (h.0, subst (WhenSome (AllFields P)) o rest)
        ]
  ]
]

pub IsSorted-emplace :
    (k : Text) (v : Json) (place : Fields) → IsSorted place → WhenSome IsSorted (emplace k v place)
unfolding emplace
IsSorted-emplace k v no_fields s = (tt, tt)
IsSorted-emplace k v (field l w more) s = elim (Bool-cases (text_eq k l)) [
  | inl e ↦ rw e tt
  | inr e ↦ elim (Bool-cases (text_ltb k l)) [
    | inl b ↦ rw (e, b) (IsSorted-front k l w more b s, s)
    | inr b ↦
        let rest = IsSorted-emplace k v more s.1 in
        let behind =
          AllFields-emplace (λ m x. text_ltb l m ≡ true) k v more (text_ltb-apart k l e b) s.0 in
        elim (Option-cases (emplace k v more)) [
          | inl o ↦ rw (e, b, o) tt
          | inr (next, o) ↦
              rw (e, b, o)
                (
                  subst (WhenSome (AllFields (λ m x. text_ltb l m ≡ true))) o behind,
                  subst (WhenSome IsSorted) o rest,
                )
        ]
  ]
]
