-- ===== src/Json/Parse/Strings.antt =====
-- `Parser::string` behind `escape`: a string is read back from its escapes.
use mathlib.Core.List.{append-nil, append_assoc}
use pane_dock.Common.{
  ℕ, zero, suc, ◌+◌, ◌*◌, ◌/◌, ◌%◌, ◌≤◌, ◌<◌, ◌≡◌, refl, ap, ◌∙◌, false, [], ◌∷◌, ◌++◌, some, Text,
  ltb, ◌==◌, length, length-append, arith, ltb→lt, Bool-cases, ◌⊎◌, inl, inr,
}
use pane_dock.Unicode.{code_bytes}
use pane_dock.Json.Print.{quote, backslash, hex_digit, escape_byte, escape_bytes, escape}
use pane_dock.Json.Parse.{
  parsed, hex_value, hex_digits, unicode_escape, escaped, string_piece, string_from, string_in,
  take, whitespace,
}

hex_value-hex_digit : (n : ℕ) → n < 16 → hex_value (hex_digit n) ≡ some n
unfolding hex_value
hex_value-hex_digit n h = ground arith

hex_digits-step :
    (n code c d : ℕ) (t : Text)
    → hex_value c ≡ some d
    → hex_digits (suc n) code (c ∷ t) ≡ hex_digits n (code * 16 + d) t
unfolding hex_digits
hex_digits-step n code c d t e = rw (hex_digits, e) refl

hex_digits_end : (code : ℕ) (t : Text) → hex_digits 0 code t ≡ some (code, t)
unfolding hex_digits
hex_digits_end code t = refl

hex_digits-zeros : (t : Text) → hex_digits 4 0 (0x30 ∷ 0x30 ∷ t) ≡ hex_digits 2 0 t
unfolding hex_digits hex_value
hex_digits-zeros t = refl

-- The four digits of a code below 32.
hex_digits-control :
    (b : ℕ) (t : Text)
    → b < 32
    → hex_digits 4 0 (0x30 ∷ 0x30 ∷ hex_digit (b / 16) ∷ hex_digit (b % 16) ∷ t) ≡ some (b, t)
hex_digits-control b t h =
    hex_digits-zeros (hex_digit (b / 16) ∷ hex_digit (b % 16) ∷ t)
    ∙ hex_digits-step 1 0 (hex_digit (b / 16)) (b / 16) (hex_digit (b % 16) ∷ t)
        (hex_value-hex_digit (b / 16) (omega arith))
    ∙ hex_digits-step 0 (0 * 16 + b / 16) (hex_digit (b % 16)) (b % 16) t
        (hex_value-hex_digit (b % 16) (omega arith))
    ∙ hex_digits_end ((0 * 16 + b / 16) * 16 + b % 16) t
    ∙ ap (λ n. some (n, t)) (omega arith)

unicode_escape-control :
    (b : ℕ) (t : Text)
    → b < 32
    → unicode_escape (0x30 ∷ 0x30 ∷ hex_digit (b / 16) ∷ hex_digit (b % 16) ∷ t) ≡ some (b ∷ [], t)
unfolding unicode_escape code_bytes
unicode_escape-control b t h = rw (unicode_escape, hex_digits-control b t h) (ground arith)

-- One turn of the loop.
string_from-plain :
    (fuel b d : ℕ) (result t : Text)
    → (b == quote) ≡ false
    → (b == backslash) ≡ false
    → ltb b 0x20 ≡ false
    → string_from (suc fuel) result (b ∷ d ∷ t) ≡ string_from fuel (result ++ b ∷ []) (d ∷ t)
unfolding string_from string_piece
string_from-plain fuel b d result t q s c = ground arith

string_from-escaped :
    (fuel b : ℕ) (result t : Text) (c : ℕ) (more : Text)
    → escaped c more ≡ some (b ∷ [], t)
    → string_from (suc fuel) result (backslash ∷ c ∷ more) ≡ string_from fuel (result ++ b ∷ []) t
unfolding string_from string_piece
string_from-escaped fuel b result t c more e = rw (string_from, e) refl

escaped_u : (t : Text) → escaped 0x75 t ≡ unicode_escape t
unfolding escaped
escaped_u t = refl

-- How a byte is escaped: by a letter that reads back as the byte, by its code, or not at all.
escape_byte-cases :
    (b : ℕ) (t : Text)
    → ((c : ℕ) × (escape_byte b ≡ backslash ∷ c ∷ []) × (escaped c t ≡ some (b ∷ [], t)))
      ⊎ ((b < 32)
          × (escape_byte b
              ≡ backslash ∷ 0x75 ∷ 0x30 ∷ 0x30 ∷ hex_digit (b / 16) ∷ hex_digit (b % 16) ∷ []))
      ⊎ ((escape_byte b ≡ b ∷ [])
          × ((b == quote) ≡ false)
          × ((b == backslash) ≡ false)
          × (ltb b 0x20 ≡ false))
unfolding escape_byte escaped
escape_byte-cases b t = elim (Bool-cases (b == quote)) [
  | inl e ↦ inl (quote, ground arith, ground arith)
  | inr q ↦ elim (Bool-cases (b == backslash)) [
    | inl e ↦ inl (backslash, ground arith, ground arith)
    | inr s ↦ elim (Bool-cases (b == 0x08)) [
      | inl e ↦ inl (0x62, ground arith, ground arith)
      | inr n1 ↦ elim (Bool-cases (b == 0x0c)) [
        | inl e ↦ inl (0x66, ground arith, ground arith)
        | inr n2 ↦ elim (Bool-cases (b == 0x0a)) [
          | inl e ↦ inl (0x6e, ground arith, ground arith)
          | inr n3 ↦ elim (Bool-cases (b == 0x0d)) [
            | inl e ↦ inl (0x72, ground arith, ground arith)
            | inr n4 ↦ elim (Bool-cases (b == 0x09)) [
              | inl e ↦ inl (0x74, ground arith, ground arith)
              | inr n5 ↦ elim (Bool-cases (ltb b 0x20)) [
                | inl e ↦ inr (inl (ltb→lt b 0x20 e, ground arith))
                | inr n6 ↦ inr (inr (ground arith, q, s, n6))
              ]
            ]
          ]
        ]
      ]
    ]
  ]
]

string_from-escape_byte :
    (fuel b : ℕ) (result t : Text)
    → 1 ≤ length t
    → string_from (suc fuel) result (escape_byte b ++ t) ≡ string_from fuel (result ++ b ∷ []) t
string_from-escape_byte fuel b result [] h = absurd (omega arith)
string_from-escape_byte fuel b result (d ∷ t) h = elim (escape_byte-cases b (d ∷ t)) [
  | inl (c, e, letter) ↦ rw e (string_from-escaped fuel b result (d ∷ t) c (d ∷ t) letter)
  | inr (inl (small, e)) ↦ rw e (
      string_from-escaped fuel b result (d ∷ t) 0x75
        (0x30 ∷ 0x30 ∷ hex_digit (b / 16) ∷ hex_digit (b % 16) ∷ d ∷ t)
        (escaped_u (0x30 ∷ 0x30 ∷ hex_digit (b / 16) ∷ hex_digit (b % 16) ∷ d ∷ t)
          ∙ unicode_escape-control b (d ∷ t) small))
  | inr (inr (e, q, s, n)) ↦ rw e (string_from-plain fuel b d result t q s n)
]

length-escape_byte : (b : ℕ) → 1 ≤ length (escape_byte b)
unfolding escape_byte
length-escape_byte b = ground arith

string_from-escape_bytes :
    (s : Text) (fuel : ℕ) (result rest : Text)
    → length (escape_bytes s) < fuel
    → string_from fuel result (escape_bytes s ++ quote ∷ rest) ≡ parsed (result ++ s) rest
unfolding escape_bytes
string_from-escape_bytes [] zero result rest h = absurd (omega arith)
string_from-escape_bytes [] (suc fuel) result rest h =
    unfold string_from in rw (append-nil result) refl
string_from-escape_bytes (b ∷ s) zero result rest h = absurd (omega arith)
string_from-escape_bytes (b ∷ s) (suc fuel) result rest h =
    let behind = escape_bytes s ++ quote ∷ rest in
    ap (string_from (suc fuel) result)
      (append_assoc (escape_byte b) (escape_bytes s) (quote ∷ rest))
    ∙ string_from-escape_byte fuel b result behind
        (omega (arith, length-append (escape_bytes s) (quote ∷ rest)))
    ∙ string_from-escape_bytes s fuel (result ++ b ∷ []) rest
        (omega (arith, length-append (escape_byte b) (escape_bytes s), length-escape_byte b))
    ∙ ap (λ r. parsed r rest) (append_assoc result (b ∷ []) s)

-- The text that `escape` wrote, and what follows it.
pub string_in-escape :
    (fuel : ℕ) (s rest : Text)
    → length (escape s) ≤ fuel
    → string_in fuel (escape s ++ rest) ≡ parsed s rest
unfolding string_in take whitespace
string_in-escape fuel s rest h =
    ap (string_from fuel []) (append_assoc (escape_bytes s) (quote ∷ []) rest)
    ∙ string_from-escape_bytes s fuel [] rest
        (omega (arith, length-append (escape_bytes s) (quote ∷ [])))
