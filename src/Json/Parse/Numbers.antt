-- ===== src/Json/Parse/Numbers.antt =====
-- `Parser::number` on a numeral with something else behind it: it takes the numeral, all of it.
use mathlib.Core.List.{append_assoc}
use pane_dock.Common.{
  ℕ, ◌≤◌, ◌≡◌, refl, sym, ap, ◌∙◌, Bool, true, false, ◌||◌, [], ◌∷◌, ◌++◌, some, Text, ◌==◌, length,
  all, not, arith, ◌⊎◌, inl, inr,
}
use pane_dock.Json.Parse.{
  is_digit, digits, some_digits, integer_part, fraction, signed_digits, exponent, unsigned_lexeme,
  lexeme,
}

-- The parts of a numeral of the format, each of them with its characters.
abbrev pub IsDigits : Text → Type 0
IsDigits t = (all is_digit t ≡ true) × (1 ≤ length t)

-- No zero in front.
abbrev pub IsInteger : Text → Type 0
IsInteger t =
    (t ≡ 0x30 ∷ [])
    ⊎ ((d : ℕ) × (ds : Text) × (t ≡ d ∷ ds) × (0x31 ≤ d) × (d ≤ 0x39) × (all is_digit ds ≡ true))

abbrev pub IsFraction : Text → Type 0
IsFraction t = (t ≡ []) ⊎ ((ds : Text) × (t ≡ 0x2e ∷ ds) × IsDigits ds)

abbrev pub IsSign : Text → Type 0
IsSign t = (t ≡ []) ⊎ (t ≡ 0x2b ∷ []) ⊎ (t ≡ 0x2d ∷ [])

abbrev pub IsExponent : Text → Type 0
IsExponent t =
    (t ≡ []) ⊎ ((sign : Text) × (ds : Text) × (t ≡ 0x65 ∷ (sign ++ ds)) × IsSign sign × IsDigits ds)

abbrev pub IsUnsigned : Text → Type 0
IsUnsigned t =
    (whole : Text) × (part : Text) × (power : Text) × (t ≡ whole ++ (part ++ power))
    × IsInteger whole
    × IsFraction part
    × IsExponent power

-- What a stream writes for a finite `double`: a numeral, or a minus and a numeral.
abbrev pub IsNumeral : Text → Type 0
IsNumeral t = IsUnsigned t ⊎ ((u : Text) × (t ≡ 0x2d ∷ u) × IsUnsigned u)

-- Behind a numeral stands none of its characters.
abbrev pub ends_number : Text → Bool
ends_number [] = true
ends_number (c ∷ t) = not (is_digit c || (c == 0x2e) || (c == 0x65) || (c == 0x45))

-- Behind a fraction stands neither a digit nor a point.
abbrev pub ends_fraction : Text → Bool
ends_fraction [] = true
ends_fraction (c ∷ t) = not (is_digit c || (c == 0x2e))

-- What stands behind digits is no digit.
abbrev pub ends_digits : Text → Bool
ends_digits [] = true
ends_digits (c ∷ t) = not (is_digit c)

digits-append :
    (ds rest : Text)
    → all is_digit ds ≡ true
    → ends_digits rest ≡ true
    → digits (ds ++ rest) ≡ (ds, rest)
unfolding digits
digits-append [] [] h e = refl
digits-append [] (c ∷ rest) h e = ground arith
digits-append (d ∷ ds) rest h e = ground (arith, digits-append ds rest)

some_digits-digits :
    (t : Text) (d : ℕ) (ds rest : Text)
    → digits t ≡ (d ∷ ds, rest)
    → some_digits t ≡ some (d ∷ ds, rest)
unfolding some_digits
some_digits-digits t d ds rest e = rw (some_digits, e) (ap some e)

some_digits-append :
    (ds rest : Text)
    → IsDigits ds
    → ends_digits rest ≡ true
    → some_digits (ds ++ rest) ≡ some (ds, rest)
some_digits-append [] rest h e = absurd (omega arith)
some_digits-append (d ∷ ds) rest h e =
    some_digits-digits (d ∷ (ds ++ rest)) d ds rest (digits-append (d ∷ ds) rest h.0 e)

integer_part-append :
    (whole rest : Text)
    → IsInteger whole
    → ends_digits rest ≡ true
    → integer_part (whole ++ rest) ≡ some (whole, rest)
unfolding integer_part
integer_part-append whole rest (inl z) e = rw z refl
integer_part-append whole rest (inr (d, ds, w, low, high, h)) e =
    rw w ground (arith, digits-append (d ∷ ds) rest)

fraction-append :
    (part rest : Text)
    → IsFraction part
    → ends_fraction rest ≡ true
    → fraction (part ++ rest) ≡ some (part, rest)
unfolding fraction
fraction-append part [] (inl z) e = rw z refl
fraction-append part (c ∷ rest) (inl z) e = rw z ground arith
fraction-append part rest (inr (ds, w, h)) e =
    rw w (rw (fraction, some_digits-append ds rest h (ends rest e)) refl)
  where
    ends : (t : Text) → ends_fraction t ≡ true → ends_digits t ≡ true
    ends [] f = refl
    ends (c ∷ t) f = ground arith

signed_digits-append :
    (sign ds rest : Text)
    → IsSign sign
    → IsDigits ds
    → ends_digits rest ≡ true
    → signed_digits ((sign ++ ds) ++ rest) ≡ some (sign ++ ds, rest)
unfolding signed_digits
signed_digits-append sign [] rest s h e = absurd (omega arith)
signed_digits-append sign (d ∷ ds) rest (inl z) h e =
    rw z ground (arith, some_digits-append (d ∷ ds) rest h e)
signed_digits-append sign ds rest (inr (inl z)) h e =
    rw z (rw (signed_digits, some_digits-append ds rest h e) refl)
signed_digits-append sign ds rest (inr (inr z)) h e =
    rw z (rw (signed_digits, some_digits-append ds rest h e) refl)

exponent-append :
    (power rest : Text)
    → IsExponent power
    → ends_number rest ≡ true
    → exponent (power ++ rest) ≡ some (power, rest)
unfolding exponent
exponent-append power [] (inl z) e = rw z refl
exponent-append power (c ∷ rest) (inl z) e = rw z ground arith
exponent-append power rest (inr (sign, ds, w, s, h)) e =
    rw w (rw (exponent, signed_digits-append sign ds rest s h (ends rest e)) refl)
  where
    ends : (t : Text) → ends_number t ≡ true → ends_digits t ≡ true
    ends [] f = refl
    ends (c ∷ t) f = ground arith

-- What may stand behind a whole part, and behind a fraction.
ends_fraction-exponent :
    (power rest : Text)
    → IsExponent power
    → ends_number rest ≡ true
    → ends_fraction (power ++ rest) ≡ true
ends_fraction-exponent power [] (inl z) e = rw z refl
ends_fraction-exponent power (c ∷ rest) (inl z) e = rw z ground arith
ends_fraction-exponent power rest (inr (sign, ds, w, s, h)) e = rw w refl

ends_digits-fraction :
    (part rest : Text)
    → IsFraction part
    → ends_fraction rest ≡ true
    → ends_digits (part ++ rest) ≡ true
ends_digits-fraction part [] (inl z) e = rw z refl
ends_digits-fraction part (c ∷ rest) (inl z) e = rw z ground arith
ends_digits-fraction part rest (inr (ds, w, h)) e = rw w refl

unsigned_lexeme-parts :
    (t u v whole part power rest : Text)
    → integer_part t ≡ some (whole, u)
    → fraction u ≡ some (part, v)
    → exponent v ≡ some (power, rest)
    → unsigned_lexeme t ≡ some (whole ++ (part ++ power), rest)
unfolding unsigned_lexeme
unsigned_lexeme-parts t u v whole part power rest a b c = rw (unsigned_lexeme, a) (rw b (rw c refl))

unsigned_lexeme-append :
    (t rest : Text)
    → IsUnsigned t
    → ends_number rest ≡ true
    → unsigned_lexeme (t ++ rest) ≡ some (t, rest)
unsigned_lexeme-append t rest (whole, part, power, w, i, f, x) e =
    let behind_part = ends_fraction-exponent power rest x e in
    let behind_whole = ends_digits-fraction part (power ++ rest) f behind_part in
    let apart : t ++ rest ≡ whole ++ (part ++ (power ++ rest)) =
      rw (w, append_assoc whole (part ++ power) rest, append_assoc part power rest) refl in
    rw
      (
        apart,
        unsigned_lexeme-parts (whole ++ (part ++ (power ++ rest))) (part ++ (power ++ rest))
            (power ++ rest) whole part power rest
            (integer_part-append whole (part ++ (power ++ rest)) i behind_whole)
            (fraction-append part (power ++ rest) f behind_part) (exponent-append power rest x e),
        w,
      )
      refl

lexeme-unsigned :
    (c : ℕ) (t : Text) → (c == 0x2d) ≡ false → lexeme (c ∷ t) ≡ unsigned_lexeme (c ∷ t)
unfolding lexeme
lexeme-unsigned c t h = ground arith

lexeme-minus :
    (t u rest : Text)
    → unsigned_lexeme t ≡ some (u, rest)
    → lexeme (0x2d ∷ t) ≡ some (0x2d ∷ u, rest)
unfolding lexeme
lexeme-minus t u rest e = rw (lexeme, e) refl

-- The first character of a numeral without a sign.
unsigned_digit :
    (t : Text) → IsUnsigned t → (c : ℕ) × (u : Text) × (t ≡ c ∷ u) × (is_digit c ≡ true)
unsigned_digit t (whole, part, power, w, inl z, f, x) = (0x30, part ++ power, rw (w, z) refl, refl)
unsigned_digit t (whole, part, power, w, inr (d, ds, z, low, high, h), f, x) =
    (d, ds ++ (part ++ power), rw (w, z) refl, ground arith)

pub lexeme-append :
    (t rest : Text) → IsNumeral t → ends_number rest ≡ true → lexeme (t ++ rest) ≡ some (t, rest)
lexeme-append t rest (inr (u, w, h)) e =
    rw w (lexeme-minus (u ++ rest) u rest (unsigned_lexeme-append u rest h e))
lexeme-append t rest (inl h) e =
    let (c, u, w, digit) = unsigned_digit t h in
    let read = unsigned_lexeme-append t rest h e in
    let starts = ap (λ x. x ++ rest) w in
    ap lexeme starts
    ∙ lexeme-unsigned c (u ++ rest) (ground arith)
    ∙ ap unsigned_lexeme (sym starts)
    ∙ read

-- A numeral begins with a character that no other value begins with.
pub numeral_head :
    (t : Text)
    → IsNumeral t
    → (c : ℕ) × (u : Text) × (t ≡ c ∷ u) × ((is_digit c || (c == 0x2d)) ≡ true)
numeral_head t (inl h) = let (c, u, w, digit) = unsigned_digit t h in (c, u, w, ground arith)
numeral_head t (inr (u, w, h)) = (0x2d, u, w, refl)
