-- ===== src/Unicode/RoundTrip.antt =====
-- Every name reads back as it was written, unpaired halves of pairs included.
use mathlib.Core.Option
use mathlib.Core.List.{append-nil}
use pane_dock.Common.{
  ℕ, zero, suc, ◌≤◌, ◌<◌, ◌≡◌, refl, sym, and-true, ◌∙◌, true, false, ◌&&◌, [], ◌∷◌, ◌++◌, some,
  Text, leb, length, length-append, All, arith, Bool-cases, inl, inr,
}
use pane_dock.Unicode.{
  is_high, is_low, joined, code_bytes, utf8, first_byte, continued, code_units, next_code,
  wide_from, wide,
}

next_code-code_bytes :
    (code : ℕ) (rest : Text)
    → code ≤ 0x10ffff
    → next_code (code_bytes code ++ rest) ≡ some (code, rest)
unfolding next_code code_bytes first_byte continued
next_code-code_bytes code rest h = elim (Bool-cases (leb code 0x7f)) [
  | inl one ↦ ground arith
  | inr more ↦ elim (Bool-cases (leb code 0x7ff)) [
    | inl two ↦ ground arith
    | inr three ↦ elim (Bool-cases (leb code 0xffff)) [
      | inl t ↦ ground arith
      | inr four ↦ ground arith
    ]
  ]
]

joined-lt : (high low : ℕ) → is_high high ≡ true → is_low low ≡ true → joined high low ≤ 0x10ffff
joined-lt high low h l = ground arith

code_units-joined :
    (high low : ℕ)
    → is_high high ≡ true
    → is_low low ≡ true
    → code_units (joined high low) ≡ high ∷ low ∷ []
unfolding code_units
code_units-joined high low h l = ground arith

code_units-unit : (unit : ℕ) → unit < 0x10000 → code_units unit ≡ unit ∷ []
unfolding code_units
code_units-unit unit h = ground arith

length-code_bytes : (code : ℕ) → 1 ≤ length (code_bytes code)
unfolding code_bytes
length-code_bytes code = ground arith

-- One turn of the loop, with fuel for it.
wide_from-next_code :
    (fuel : ℕ) (bytes : Text) (code : ℕ) (rest : Text)
    → next_code bytes ≡ some (code, rest)
    → length rest < length bytes
    → length bytes ≤ fuel
    → (less : ℕ) × (length rest ≤ less)
      × (wide_from fuel bytes
          ≡ Option.map (λ units. code_units code ++ units) (wide_from less rest))
unfolding wide_from
wide_from-next_code fuel [] code rest e l h = absurd (omega arith)
wide_from-next_code zero (b ∷ bytes) code rest e l h = absurd (omega arith)
wide_from-next_code (suc fuel) (b ∷ bytes) code rest e l h =
    (fuel, omega arith, rw (wide_from, e) refl)

wide_from-code_bytes :
    (fuel code : ℕ) (rest : Text)
    → code ≤ 0x10ffff
    → length (code_bytes code ++ rest) ≤ fuel
    → (less : ℕ) × (length rest ≤ less)
      × (wide_from fuel (code_bytes code ++ rest)
          ≡ Option.map (λ units. code_units code ++ units) (wide_from less rest))
wide_from-code_bytes fuel code rest c h =
    wide_from-next_code fuel (code_bytes code ++ rest) code rest (next_code-code_bytes code rest c)
      (omega (arith, length-append (code_bytes code) rest, length-code_bytes code)) h

wide_from_nil : (fuel : ℕ) → wide_from fuel [] ≡ some []
unfolding wide_from
wide_from_nil zero = refl
wide_from_nil (suc fuel) = refl

utf8_paired :
    (unit next : ℕ) (rest : Text)
    → (is_high unit && is_low next) ≡ true
    → utf8 (unit ∷ next ∷ rest) ≡ code_bytes (joined unit next) ++ utf8 rest
unfolding utf8
utf8_paired unit next rest pair = ground arith

utf8_apart :
    (unit next : ℕ) (rest : Text)
    → (is_high unit && is_low next) ≡ false
    → utf8 (unit ∷ next ∷ rest) ≡ code_bytes unit ++ utf8 (next ∷ rest)
unfolding utf8
utf8_apart unit next rest apart = ground arith

utf8_single : (unit : ℕ) → utf8 (unit ∷ []) ≡ code_bytes unit ++ []
unfolding utf8
utf8_single unit = sym (append-nil (code_bytes unit))

-- The bytes of a code point, then those of the units behind it.
wide_from_front :
    (fuel code : ℕ) (bytes : Text) (units : Text)
    → code ≤ 0x10ffff
    → ((less : ℕ) → length bytes ≤ less → wide_from less bytes ≡ some units)
    → length (code_bytes code ++ bytes) ≤ fuel
    → wide_from fuel (code_bytes code ++ bytes) ≡ some (code_units code ++ units)
wide_from_front fuel code bytes units c ih h =
    let (less, fits, e) = wide_from-code_bytes fuel code bytes c h in e ∙ rw (ih less fits) refl

wide_from-utf8 :
    (name : Text)
    → All (λ u. u < 0x10000) name
    → (fuel : ℕ) → length (utf8 name) ≤ fuel
    → wide_from fuel (utf8 name) ≡ some name
wide_from-utf8 [] h = λ fuel f. unfold utf8 in wide_from_nil fuel
wide_from-utf8 (unit ∷ []) h = rw (utf8_single unit) λ fuel f.
    wide_from_front fuel unit [] [] (omega arith) (λ less k. wide_from_nil less) f
    ∙ rw (code_units-unit unit h.0) refl
wide_from-utf8 (unit ∷ next ∷ rest) h = elim (Bool-cases (is_high unit && is_low next)) [
  | inl pair ↦
      let (high, low) = and-true (is_high unit) (is_low next) pair in
      rw (utf8_paired unit next rest pair) λ fuel f.
        wide_from_front fuel (joined unit next) (utf8 rest) rest (joined-lt unit next high low)
          (wide_from-utf8 rest h.1.1) f
        ∙ rw (code_units-joined unit next high low) refl
  | inr apart ↦ rw (utf8_apart unit next rest apart) λ fuel f.
      wide_from_front fuel unit (utf8 (next ∷ rest)) (next ∷ rest) (omega arith)
        (wide_from-utf8 (next ∷ rest) h.1) f
      ∙ rw (code_units-unit unit h.0) refl
]

-- A name of 16-bit units is read back from its bytes as it was.
pub wide-utf8 : (name : Text) → All (λ u. u < 0x10000) name → wide (utf8 name) ≡ some name
unfolding wide
wide-utf8 name h = wide_from-utf8 name h (length (utf8 name)) (omega arith)
