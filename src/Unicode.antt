-- ===== src/Unicode.antt =====
-- src/core/session.cpp, `utf8` and `wide`: the names that the session file holds, as UTF-16 units in
-- memory and as bytes on disk.
--
-- Bytes and units are numbers. `x >> k` is `x / 2 ^ k`, `x & (2 ^ k - 1)` is `x % 2 ^ k`, and an `|` of
-- disjoint bits is a sum; `(byte & 0xe0) == 0xc0` asks for the top bits, `byte / 32 ≡ 6`.
pub mod RoundTrip
pub mod Units
mod Tests
use mathlib.Core.Option
use pane_dock.Common.{
  ℕ, zero, suc, ◌+◌, ◌-◌, ◌*◌, ◌/◌, ◌%◌, Bool, true, false, ◌&&◌, List, [], ◌∷◌, ◌++◌, Option, none,
  some, Text, ltb, leb, ◌==◌, if◌then◌else◌, length,
}

-- The first and the second half of a pair of units.
abbrev pub is_high : ℕ → Bool
is_high unit = leb 0xd800 unit && leb unit 0xdbff

abbrev pub is_low : ℕ → Bool
is_low unit = leb 0xdc00 unit && leb unit 0xdfff

-- The code point of a pair.
abbrev pub joined : ℕ → ℕ → ℕ
joined high low = 0x10000 + (high - 0xd800) * 1024 + low - 0xdc00

-- The bytes of a code point.
unfoldable pub code_bytes : ℕ → Text
code_bytes code =
    if leb code 0x7f
    then code ∷ []
    else if leb code 0x7ff
    then (0xc0 + code / 64) ∷ (0x80 + code % 64) ∷ []
    else if leb code 0xffff
    then (0xe0 + code / 4096) ∷ (0x80 + code / 64 % 64) ∷ (0x80 + code % 64) ∷ []
    else (0xf0 + code / 262144)
      ∷ (0x80 + code / 4096 % 64)
      ∷ (0x80 + code / 64 % 64)
      ∷ (0x80 + code % 64)
      ∷ []

pub utf8 : Text → Text
unfolding code_bytes
utf8 [] = []
utf8 (unit ∷ []) = code_bytes unit
utf8 (unit ∷ next ∷ rest) = elim (is_high unit && is_low next) [
  | true ↦ code_bytes (joined unit next) ++ utf8 rest
  | false ↦ code_bytes unit ++ utf8 (next ∷ rest)
]

-- The bits that a first byte gives and how many bytes follow it.
pub first_byte : ℕ → Option (ℕ × ℕ)
first_byte byte =
    if leb byte 0x7f
    then some (byte, 0)
    else if byte / 32 == 6
    then some (byte % 32, 1)
    else if byte / 16 == 14
    then some (byte % 16, 2)
    else if byte / 8 == 30
    then some (byte % 8, 3)
    else none

-- The inner loop: the bytes that follow, and the input behind them. Too short an input is refused as in
-- the test before the loop.
pub continued : ℕ → ℕ → Text → Option (ℕ × Text)
continued zero code bytes = some (code, bytes)
continued (suc n) code [] = none
continued (suc n) code (next ∷ bytes) =
    if next / 64 == 2 then continued n (code * 64 + next % 64) bytes else none

-- The units of a code point.
pub code_units : ℕ → Text
code_units code =
    if leb code 0xffff
    then code ∷ []
    else (0xd800 + (code - 0x10000) / 1024) ∷ (0xdc00 + (code - 0x10000) % 1024) ∷ []

-- One turn of the loop of `wide`: a code point and the input behind it.
pub next_code : Text → Option (ℕ × Text)
unfolding first_byte continued
next_code [] = none
next_code (byte ∷ bytes) = elim (first_byte byte) [
  | none ↦ none
  | some start ↦ elim (continued start.1 start.0 bytes) [
    | none ↦ none
    | some read ↦ if leb read.0 0x10ffff then some read else none
  ]
]

-- The loop, on fuel; each turn takes a byte at least, so the length of the input is enough.
pub wide_from : ℕ → Text → Option Text
unfolding next_code code_units
wide_from fuel [] = some []
wide_from zero (byte ∷ bytes) = none
wide_from (suc fuel) (byte ∷ bytes) = elim (next_code (byte ∷ bytes)) [
  | none ↦ none
  | some read ↦ Option.map (λ units. code_units read.0 ++ units) (wide_from fuel read.1)
]

pub wide : Text → Option Text
unfolding wide_from
wide bytes = wide_from (length bytes) bytes
