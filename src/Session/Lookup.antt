-- ===== src/Session/Lookup.antt =====
-- What is found in an object after a write or an erasure, and integers through a `double`.
use native.Mathlib.Nat.{mul-mod_left, mul-div_cancel}
use pane_dock.Common.{
  ℕ, ◌==◌, leb, suc, ◌*◌, ◌/◌, ◌%◌, ◌^◌, ◌-◌, ◌<◌, ◌≡◌, refl, sym, ap, subst, ◌∙◌, Bool, true,
  false, ◌&&◌, none, some, Text, Text-discrete, text_eq, if◌then◌else◌, holds_of, holds-true,
  holds-false, arith, Bool-cases, inl, inr,
}
use pane_dock.Common.Int.{ℤ, pos, negsuc}
use pane_dock.Model.{one_units}
use pane_dock.Json.{Json, Fields, no_fields, field, text_ltb, find_field}
use pane_dock.Session.Fields.{assign, erase_field, of_int, int_of}

pub text_eq-same : (t : Text) → text_eq t t ≡ true
text_eq-same t = holds_of (Text-discrete t t) refl

-- Two tests of one key, and two tests of which one fails.
test_twice :
    {A : Type 0} (b : Bool) (x y z : A)
    → (if b then x else z) ≡ (if b then x else if b then y else z)
test_twice true x y z = refl
test_twice false x y z = refl

test_order :
    {A : Type 0} (b c : Bool) (x y z : A)
    → (b ≡ true → c ≡ true → ⊥)
    → (if c then y else if b then x else z) ≡ (if b then x else if c then y else z)
test_order true true x y z h = absurd (h refl refl)
test_order true false x y z h = refl
test_order false c x y z h = refl

apart_keys : (j k l : Text) → text_eq k l ≡ false → text_eq j k ≡ true → text_eq j l ≡ true → ⊥
apart_keys j k l h a b =
    holds-false (Text-discrete k l) h
      (sym (holds-true (Text-discrete j k) a) ∙ holds-true (Text-discrete j l) b)

pub find_field-assign :
    (j k : Text) (v : Json) (fields : Fields)
    → find_field j (assign k v fields) ≡ (if text_eq j k then some v else find_field j fields)
unfolding find_field assign
find_field-assign j k v no_fields = refl
find_field-assign j k v (field l w fields) = elim (Bool-cases (text_eq k l)) [
  | inl same ↦ rw same (
      subst
        (λ m.
          (if text_eq j m then some v else find_field j fields)
          ≡ (if text_eq j k then some v else if text_eq j m then some w else find_field j fields))
        (holds-true (Text-discrete k l) same)
        (test_twice (text_eq j k) (some v) (some w) (find_field j fields)))
  | inr apart ↦ elim (Bool-cases (text_ltb k l)) [
    | inl less ↦ rw (apart, less) refl
    | inr more ↦
        rw (apart, more)
          (ap (λ o. if text_eq j l then some w else o) (find_field-assign j k v fields)
            ∙ test_order (text_eq j k) (text_eq j l) (some v) (some w) (find_field j fields)
                (apart_keys j k l apart))
  ]
]

pub find_field-erase_field :
    (j k : Text) (fields : Fields)
    → find_field j (erase_field k fields) ≡ (if text_eq j k then none else find_field j fields)
unfolding find_field erase_field
find_field-erase_field j k no_fields = elim (Bool-cases (text_eq j k)) [
  | inl e ↦ rw e refl
  | inr e ↦ rw e refl
]
find_field-erase_field j k (field l w more) = elim (Bool-cases (text_eq k l)) [
  | inl same ↦ rw same (
      find_field-erase_field j k more
      ∙ subst
          (λ m.
            (if text_eq j k then none else find_field j more)
            ≡ (if text_eq j k then none else if text_eq j m then some w else find_field j more))
          (holds-true (Text-discrete k l) same)
          (test_twice (text_eq j k) none (some w) (find_field j more)))
  | inr apart ↦ rw apart (
      ap (λ o. if text_eq j l then some w else o) (find_field-erase_field j k more)
      ∙ test_order (text_eq j k) (text_eq j l) none (some w) (find_field j more)
          (apart_keys j k l apart))
]

-- The integers that an `int` holds.
abbrev pub IsInt : ℤ → Type 0
IsInt (pos n) = n < 2 ^ 31
IsInt (negsuc n) = n < 2 ^ 31

-- A whole number of units, taken apart.
whole_units :
    (n k limit : ℕ)
    → 0 < k
    → leb n limit ≡ true
    → (((n * k % k == 0) && leb (n * k / k) limit) ≡ true) × (n * k / k ≡ n)
whole_units n k limit h l =
    let quotient = mul-div_cancel n {n = k} h in (rw (mul-mod_left n k, quotient, l) refl, quotient)

pub int_of-of_int : (n : ℤ) → IsInt n → int_of (of_int n) ≡ some n
unfolding int_of of_int
int_of-of_int (pos n) h =
    let (fits, quotient) = whole_units n one_units (2 ^ 31 - 1) (omega arith) (ground arith) in
    rw (fits, quotient) refl
int_of-of_int (negsuc n) h =
    let (fits, quotient) = whole_units (suc n) one_units (2 ^ 31) (omega arith) (ground arith) in
    rw (fits, quotient) refl
