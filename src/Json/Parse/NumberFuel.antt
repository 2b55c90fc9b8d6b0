-- ===== src/Json/Parse/NumberFuel.antt =====
-- What the parts of `Parser::number` leave of their input.
use pane_dock.Common.{
  ℕ, suc, ◌≤◌, ◌≡◌, true, ◌&&◌, ◌||◌, [], ◌∷◌, Option, none, some, Text, leb, ◌==◌, length, arith,
  Bool-cases, inl, inr,
}
use pane_dock.Json.Parse.{
  digits, some_digits, in_front, integer_part, fraction, signed_digits, exponent, then_part,
  unsigned_lexeme, lexeme,
}
use pane_dock.Json.Parse.Leaves.{Leaves, Leaves-mono, Leaves-if}

pub digits-Leaves : (t : Text) → length (digits t).1 ≤ length t
unfolding digits
digits-Leaves [] = omega arith
digits-Leaves (c ∷ t) = ground (arith, digits-Leaves t)

pub in_front-Leaves :
    (part : Text) (n : ℕ) (o : Option (Text × Text)) → Leaves n o → Leaves n (in_front part o)
in_front-Leaves part n none h = tt
in_front-Leaves part n (some read) h = h

pub then_part-Leaves :
    (n : ℕ) (o : Option (Text × Text)) (next : Text → Option (Text × Text))
    → Leaves n o
    → ((t : Text) → Leaves (length t) (next t))
    → Leaves n (then_part o next)
then_part-Leaves n none next h k = tt
then_part-Leaves n (some read) next h k =
    in_front-Leaves read.0 n (next read.1)
      (Leaves-mono (length read.1) n (next read.1) h (k read.1))

pub some_digits-Leaves : (t : Text) → Leaves (length t) (some_digits t)
unfolding some_digits
some_digits-Leaves t = go (digits t).0
  where
    go : (ds : Text) → Leaves (length t) (elim ds [ [] ↦ none | d ∷ ds ↦ some (digits t) ])
    go [] = tt
    go (d ∷ ds) = digits-Leaves t

-- A whole part takes a character at least.
pub integer_part-Leaves : (c : ℕ) (t : Text) → Leaves (length t) (integer_part (c ∷ t))
unfolding integer_part
integer_part-Leaves c t = elim (Bool-cases (c == 0x30)) [
  | inl z ↦ rw z omega arith
  | inr z ↦ elim (Bool-cases (leb 0x31 c && leb c 0x39)) [
    | inr n ↦ rw (z, n) tt
    | inl d ↦ rw (z, d) (strictly d)
  ]
]
  where
    strictly : (leb 0x31 c && leb c 0x39) ≡ true → length (digits (c ∷ t)).1 ≤ length t
    strictly d = unfold digits in ground (arith, digits-Leaves t)

pub fraction-Leaves : (t : Text) → Leaves (length t) (fraction t)
unfolding fraction
fraction-Leaves [] = omega arith
fraction-Leaves (c ∷ t) =
    let n = suc (length t) in
    Leaves-if n (c == 0x2e) (in_front (c ∷ []) (some_digits t)) (some ([], c ∷ t))
      (in_front-Leaves (c ∷ []) n (some_digits t)
        (Leaves-mono (length t) n (some_digits t) (omega arith) (some_digits-Leaves t)))
      (omega arith)

pub signed_digits-Leaves : (t : Text) → Leaves (length t) (signed_digits t)
unfolding signed_digits
signed_digits-Leaves [] = tt
signed_digits-Leaves (c ∷ t) =
    let n = suc (length t) in
    Leaves-if n ((c == 0x2b) || (c == 0x2d)) (in_front (c ∷ []) (some_digits t))
      (some_digits (c ∷ t))
      (in_front-Leaves (c ∷ []) n (some_digits t)
        (Leaves-mono (length t) n (some_digits t) (omega arith) (some_digits-Leaves t)))
      (some_digits-Leaves (c ∷ t))

pub exponent-Leaves : (t : Text) → Leaves (length t) (exponent t)
unfolding exponent
exponent-Leaves [] = omega arith
exponent-Leaves (c ∷ t) =
    let n = suc (length t) in
    Leaves-if n ((c == 0x65) || (c == 0x45)) (in_front (c ∷ []) (signed_digits t))
      (some ([], c ∷ t))
      (in_front-Leaves (c ∷ []) n (signed_digits t)
        (Leaves-mono (length t) n (signed_digits t) (omega arith) (signed_digits-Leaves t)))
      (omega arith)

pub unsigned_lexeme-Leaves : (c : ℕ) (t : Text) → Leaves (length t) (unsigned_lexeme (c ∷ t))
unfolding unsigned_lexeme
unsigned_lexeme-Leaves c t =
    then_part-Leaves (length t) (integer_part (c ∷ t)) (λ u. then_part (fraction u) exponent)
      (integer_part-Leaves c t)
      λ u. then_part-Leaves (length u) (fraction u) exponent (fraction-Leaves u) exponent-Leaves

pub lexeme-Leaves : (c : ℕ) (t : Text) → Leaves (length t) (lexeme (c ∷ t))
unfolding lexeme
lexeme-Leaves c t =
    Leaves-if (length t) (c == 0x2d) (in_front (c ∷ []) (unsigned_lexeme t))
      (unsigned_lexeme (c ∷ t)) (in_front-Leaves (c ∷ []) (length t) (unsigned_lexeme t) (signed t))
      (unsigned_lexeme-Leaves c t)
  where
    signed : (u : Text) → Leaves (length u) (unsigned_lexeme u)
    signed [] = unfold unsigned_lexeme in unfold integer_part in tt
    signed (d ∷ u) =
        Leaves-mono (length u) (suc (length u)) (unsigned_lexeme (d ∷ u)) (omega arith)
          (unsigned_lexeme-Leaves d u)
