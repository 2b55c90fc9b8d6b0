-- ===== src/Json/Parse/StringFuel.antt =====
-- What `Parser::string` leaves of its input.
use pane_dock.Common.{
  ℕ, zero, suc, ◌+◌, ◌*◌, ◌≤◌, ◌<◌, ◌||◌, [], ◌∷◌, ◌++◌, Option, none, some, Text, ltb, ◌==◌,
  if◌then◌else◌, length, arith,
}
use pane_dock.Unicode.{code_bytes, is_high, is_low, joined}
use pane_dock.Json.Print.{quote, backslash}
use pane_dock.Json.Parse.{
  Outcome, parsed, refused, take, behind, hex_value, hex_digits, low_half, unicode_escape, escaped,
  string_piece, string_from, string_in,
}
use pane_dock.Json.Parse.Leaves.{
  Leaves, Shrinks, length-take, length-behind, Leaves-mono, Leaves-bind, Leaves-some, Leaves-if,
  Shrinks-mono, Shrinks-test, Shrinks-option,
}

pub hex_digits-Leaves : (n code : ℕ) (t : Text) → Leaves (length t) (hex_digits n code t)
unfolding hex_digits
hex_digits-Leaves zero code t = omega arith
hex_digits-Leaves (suc n) code [] = tt
hex_digits-Leaves (suc n) code (c ∷ t) =
    Leaves-bind (suc (length t)) (hex_value c) (λ d. hex_digits n (code * 16 + d) t)
      λ d e.
        Leaves-mono (length t) (suc (length t)) (hex_digits n (code * 16 + d) t) (omega arith)
          (hex_digits-Leaves n (code * 16 + d) t)

pub low_half-Leaves : (high : ℕ) (t : Text) → Leaves (length t) (low_half high t)
unfolding low_half
low_half-Leaves high t =
    Leaves-bind (length t) (behind (backslash ∷ 0x75 ∷ []) t)
      (λ u. elim (hex_digits 4 0 u) [
        | none ↦ none
        | some low ↦ if is_low low.0 then some (code_bytes (joined high low.0), low.1) else none
      ])
      λ u e.
        Leaves-bind (length t) (hex_digits 4 0 u)
          (λ low. if is_low low.0 then some (code_bytes (joined high low.0), low.1) else none)
          λ low f.
            let short = Leaves-some (length u) (hex_digits 4 0 u) low (hex_digits-Leaves 4 0 u) f in
            let shorter = length-behind (backslash ∷ 0x75 ∷ []) t u e in
            Leaves-if (length t) (is_low low.0) (some (code_bytes (joined high low.0), low.1)) none
              (omega arith) tt

pub unicode_escape-Leaves : (t : Text) → Leaves (length t) (unicode_escape t)
unfolding unicode_escape
unicode_escape-Leaves t =
    Leaves-bind (length t) (hex_digits 4 0 t)
      (λ code.
        if is_high code.0
        then low_half code.0 code.1
        else if is_low code.0
        then none
        else some (code_bytes code.0, code.1))
      λ code e.
        let short = Leaves-some (length t) (hex_digits 4 0 t) code (hex_digits-Leaves 4 0 t) e in
        Leaves-if (length t) (is_high code.0) (low_half code.0 code.1)
          (if is_low code.0 then none else some (code_bytes code.0, code.1))
          (Leaves-mono (length code.1) (length t) (low_half code.0 code.1) short
            (low_half-Leaves code.0 code.1))
          (Leaves-if (length t) (is_low code.0) none (some (code_bytes code.0, code.1)) tt short)

pub escaped-Leaves : (c : ℕ) (t : Text) → Leaves (length t) (escaped c t)
unfolding escaped
escaped-Leaves c t =
    let n = length t in
    let here : n ≤ n = omega arith in
    let u : Option (Text × Text) = if c == 0x75 then unicode_escape t else none in
    let tab = if c == 0x74 then some (0x09 ∷ [], t) else u in
    let carriage = if c == 0x72 then some (0x0d ∷ [], t) else tab in
    let line = if c == 0x6e then some (0x0a ∷ [], t) else carriage in
    let feed = if c == 0x66 then some (0x0c ∷ [], t) else line in
    let back = if c == 0x62 then some (0x08 ∷ [], t) else feed in
    Leaves-if n ((c == quote) || (c == backslash) || (c == 0x2f)) (some (c ∷ [], t)) back here (
      Leaves-if n (c == 0x62) (some (0x08 ∷ [], t)) feed here (
        Leaves-if n (c == 0x66) (some (0x0c ∷ [], t)) line here (
          Leaves-if n (c == 0x6e) (some (0x0a ∷ [], t)) carriage here (
            Leaves-if n (c == 0x72) (some (0x0d ∷ [], t)) tab here (
              Leaves-if n (c == 0x74) (some (0x09 ∷ [], t)) u here
                (Leaves-if n (c == 0x75) (unicode_escape t) none (unicode_escape-Leaves t) tt))))))

pub string_piece-Leaves : (c : ℕ) (t : Text) → Leaves (length t) (string_piece c t)
unfolding string_piece
string_piece-Leaves c [] =
    Leaves-if 0 (ltb c 0x20 || (c == backslash)) none (some (c ∷ [], [])) tt (omega arith)
string_piece-Leaves c (d ∷ t) =
    let n = suc (length t) in
    Leaves-if n (ltb c 0x20) none (if c == backslash then escaped d t else some (c ∷ [], d ∷ t)) tt
      (Leaves-if n (c == backslash) (escaped d t) (some (c ∷ [], d ∷ t))
        (Leaves-mono (length t) n (escaped d t) (omega arith) (escaped-Leaves d t)) (omega arith))

pub string_from-Shrinks :
    (fuel : ℕ) (result t : Text)
    → length t < fuel
    → Shrinks (suc (length t)) (string_from fuel result t)
unfolding string_from
string_from-Shrinks zero result t h = absurd (omega arith)
string_from-Shrinks (suc fuel) result [] h = tt
string_from-Shrinks (suc fuel) result (c ∷ t) h =
    let n = suc (suc (length t)) in
    let next : Text × Text → Outcome Text = λ piece. string_from fuel (result ++ piece.0) piece.1 in
    Shrinks-test n (c == quote) (parsed result t)
      (elim (string_piece c t) [ none ↦ refused | some x ↦ next x ]) (omega arith)
      (Shrinks-option n (string_piece c t) next λ piece e.
        let short = Leaves-some (length t) (string_piece c t) piece (string_piece-Leaves c t) e in
        Shrinks-mono (suc (length piece.1)) n (string_from fuel (result ++ piece.0) piece.1)
          (omega arith) (string_from-Shrinks fuel (result ++ piece.0) piece.1 (omega arith)))

pub string_in-Shrinks :
    (fuel : ℕ) (t : Text) → length t ≤ fuel → Shrinks (length t) (string_in fuel t)
unfolding string_in
string_in-Shrinks fuel t h =
    Shrinks-option (length t) (take quote t) (λ rest. string_from fuel [] rest)
      λ rest e.
        let short = length-take quote t rest e in
        Shrinks-mono (suc (length rest)) (length t) (string_from fuel [] rest) short
          (string_from-Shrinks fuel [] rest (omega arith))
