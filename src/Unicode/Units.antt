-- ===== src/Unicode/Units.antt =====
-- What `wide` reads are UTF-16 units.
use pane_dock.Common.{
  ℕ, zero, suc, ◌≡◌, ◌<◌, ◌≤◌, subst, [], ◌∷◌, some, Text, leb, length, All, All-append, arith,
  Bool-cases, Option-cases, inl, inr,
}
use mathlib.Core.Option.{some_inj}
use pane_dock.Unicode.{code_units, continued, first_byte, next_code, wide_from, wide}

code_units-IsName : (code : ℕ) → code ≤ 0x10ffff → All (λ u. u < 0x10000) (code_units code)
unfolding code_units
code_units-IsName code h = elim (Bool-cases (leb code 0xffff)) [
  | inl e ↦ rw e (ground arith, tt)
  | inr e ↦ rw e (omega arith, (omega arith, tt))
]

-- A code point that is read is at most the last one.
next_code-le : (bytes : Text) (read : ℕ × Text) → next_code bytes ≡ some read → read.0 ≤ 0x10ffff
unfolding next_code
next_code-le [] read = λ h. absurd cc
next_code-le (byte ∷ bytes) read = elim (Option-cases (first_byte byte)) [
  | inl e ↦ rw (next_code, e) λ h. absurd cc
  | inr (start, e) ↦ elim (Option-cases (continued start.1 start.0 bytes)) [
    | inl f ↦ rw (next_code, e) (rw f λ h. absurd cc)
    | inr (more, f) ↦ elim (Bool-cases (leb more.0 0x10ffff)) [
      | inl g ↦
          rw (next_code, e)
            (rw f (rw g λ h. subst (λ x. x.0 ≤ 0x10ffff) (some_inj.0 h) (ground arith)))
      | inr g ↦ rw (next_code, e) (rw f (rw g λ h. absurd cc))
    ]
  ]
]

wide_from-IsName :
    (fuel : ℕ) (bytes t : Text) → wide_from fuel bytes ≡ some t → All (λ u. u < 0x10000) t
unfolding wide_from
wide_from-IsName zero [] t = λ h. subst (All (λ u. u < 0x10000)) (some_inj.0 h) tt
wide_from-IsName (suc fuel) [] t = λ h. subst (All (λ u. u < 0x10000)) (some_inj.0 h) tt
wide_from-IsName zero (byte ∷ bytes) t = λ h. absurd cc
wide_from-IsName (suc fuel) (byte ∷ bytes) t = elim (Option-cases (next_code (byte ∷ bytes))) [
  | inl e ↦ rw (wide_from, e) λ h. absurd cc
  | inr (read, e) ↦ elim (Option-cases (wide_from fuel read.1)) [
    | inl f ↦ rw (wide_from, e) (rw f λ h. absurd cc)
    | inr (units, f) ↦
        rw (wide_from, e)
          (rw f λ h. subst (All (λ u. u < 0x10000)) (some_inj.0 h) (
            All-append (λ u. u < 0x10000) (code_units read.0) units
              (code_units-IsName read.0 (next_code-le (byte ∷ bytes) read e))
              (wide_from-IsName fuel read.1 units f)))
  ]
]

pub wide-IsName : (bytes t : Text) → wide bytes ≡ some t → All (λ u. u < 0x10000) t
unfolding wide
wide-IsName bytes t h = wide_from-IsName (length bytes) bytes t h
