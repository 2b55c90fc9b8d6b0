-- ===== src/Unicode/Tests.antt =====
-- Names at the edges of the encoding, and the round trip at one of them.
use pane_dock.Common.{◌≡◌, refl, [], ◌∷◌, none, some, Text, arith}
use pane_dock.Unicode.{utf8, wide}
use pane_dock.Unicode.RoundTrip.{wide-utf8}

-- A letter, two letters of two and of three bytes, a pair, and two halves that form none.
abbrev odd_name : Text
odd_name = 0x41 ∷ 0xe9 ∷ 0x4e2d ∷ 0xd83d ∷ 0xde00 ∷ 0xdc00 ∷ 0xd800 ∷ []

utf8_pair : utf8 (0xd83d ∷ 0xde00 ∷ []) ≡ 0xf0 ∷ 0x9f ∷ 0x98 ∷ 0x80 ∷ []
unfolding utf8
utf8_pair = refl

utf8_half : utf8 (0xd800 ∷ []) ≡ 0xed ∷ 0xa0 ∷ 0x80 ∷ []
unfolding utf8
utf8_half = refl

wide_torn : wide (0xe4 ∷ 0xb8 ∷ []) ≡ none
unfolding wide
wide_torn = refl

-- A byte that no encoding begins with.
wide_stray : wide (0x80 ∷ []) ≡ none
unfolding wide
wide_stray = refl

wide-utf8_example : wide (utf8 odd_name) ≡ some odd_name
wide-utf8_example = wide-utf8 odd_name (
  omega arith,
  (omega arith, (omega arith, (omega arith, (omega arith, (omega arith, (omega arith, tt)))))),
)
