-- ===== src/Json/Parse.antt =====
-- `Parser`: how a text is read. The position is the input that is left.
--
-- `scan` is `std::from_chars` on a number's characters with the test that the result is finite. The
-- recursion is on fuel; `starved` is a run that was given too little, which no call of the source is.
pub mod Leaves
pub mod StringFuel
pub mod NumberFuel
pub mod Fuel
pub mod Numbers
pub mod Strings
pub mod Steps
pub mod Dumped
pub mod RoundTrip
pub mod Kept
use pane_dock.Common.{
  ℕ, zero, suc, ◌+◌, ◌-◌, ◌*◌, Bool, true, false, ◌&&◌, ◌||◌, List, [], ◌∷◌, ◌++◌, Option, none,
  some, Text, ltb, leb, ◌==◌, if◌then◌else◌, length, not,
}
use pane_dock.Model.{Double}
use pane_dock.Unicode.{code_bytes, is_high, is_low, joined}
use pane_dock.Json.{
  Json, Items, Fields, null, boolean, number, text, array, object, no_items, item, no_fields, field,
  emplace,
}
use pane_dock.Json.Print.{
  quote, backslash, comma, colon, open_bracket, close_bracket, open_brace, close_brace, true_word,
  false_word, null_word,
}

pub data Outcome (A : Type 0) : Type 0 where
  parsed : A → Text → Outcome A
  refused starved : Outcome A

-- What follows on a value that was read.
abbrev pub and_then : {A B : Type 0} → Outcome A → (A → Text → Outcome B) → Outcome B
and_then (parsed a rest) k = k a rest
and_then refused k = refused
and_then starved k = starved

abbrev pub is_space : ℕ → Bool
is_space c = (c == 0x20) || (c == 0x0a) || (c == 0x0d) || (c == 0x09)

unfoldable pub whitespace : Text → Text
whitespace [] = []
whitespace (c ∷ t) = if is_space c then whitespace t else c ∷ t

-- `take` behind the whitespace; `none` is false, with the position behind the whitespace as before.
abbrev pub take_here : ℕ → Text → Option Text
take_here expected [] = none
take_here expected (c ∷ t) = if c == expected then some t else none

unfoldable pub take : ℕ → Text → Option Text
unfolding whitespace
take expected t = take_here expected (whitespace t)

-- The input behind a word that it starts with.
unfoldable pub behind : Text → Text → Option Text
behind [] t = some t
behind (c ∷ word) [] = none
behind (c ∷ word) (d ∷ t) = if c == d then behind word t else none

-- One digit of `std::from_chars` to base 16.
unfoldable pub hex_value : ℕ → Option ℕ
hex_value c =
    if leb 0x30 c && leb c 0x39
    then some (c - 0x30)
    else if leb 0x61 c && leb c 0x66
    then some (c - 0x57)
    else if leb 0x41 c && leb c 0x46
    then some (c - 0x37)
    else none

-- Exactly `n` digits, onto the value so far.
unfoldable pub hex_digits : ℕ → ℕ → Text → Option (ℕ × Text)
unfolding hex_value
hex_digits zero code t = some (code, t)
hex_digits (suc n) code [] = none
hex_digits (suc n) code (c ∷ t) = elim (hex_value c) [
  | none ↦ none
  | some d ↦ hex_digits n (code * 16 + d) t
]

-- The second half of a pair: `\u` and four digits that spell one.
unfoldable pub low_half : ℕ → Text → Option (Text × Text)
unfolding hex_digits
low_half high t = elim (behind (backslash ∷ 0x75 ∷ []) t) [
  | none ↦ none
  | some digits ↦ elim (hex_digits 4 0 digits) [
    | none ↦ none
    | some low ↦ if is_low low.0 then some (code_bytes (joined high low.0), low.1) else none
  ]
]

-- The case `u`: the bytes that it stands for.
unfoldable pub unicode_escape : Text → Option (Text × Text)
unfolding hex_digits low_half
unicode_escape t = elim (hex_digits 4 0 t) [
  | none ↦ none
  | some code ↦
      let pair = low_half code.0 code.1 in
      if is_high code.0
      then pair
      else if is_low code.0
      then none
      else some (code_bytes code.0, code.1)
]

-- The character behind a backslash.
unfoldable pub escaped : ℕ → Text → Option (Text × Text)
unfolding unicode_escape
escaped c t =
    if (c == quote) || (c == backslash) || (c == 0x2f)
    then some (c ∷ [], t)
    else if c == 0x62
    then some (0x08 ∷ [], t)
    else if c == 0x66
    then some (0x0c ∷ [], t)
    else if c == 0x6e
    then some (0x0a ∷ [], t)
    else if c == 0x72
    then some (0x0d ∷ [], t)
    else if c == 0x74
    then some (0x09 ∷ [], t)
    else if c == 0x75
    then unicode_escape t
    else none

-- One turn of the loop of `string` that does not end it: the bytes that it adds.
unfoldable pub string_piece : ℕ → Text → Option (Text × Text)
unfolding escaped
string_piece c [] = if ltb c 0x20 || (c == backslash) then none else some (c ∷ [], [])
string_piece c (d ∷ t) =
    if ltb c 0x20 then none else if c == backslash then escaped d t else some (c ∷ [], d ∷ t)

-- The loop, on fuel, with `result` so far.
unfoldable pub string_from : ℕ → Text → Text → Outcome Text
unfolding string_piece
string_from zero result t = starved
string_from (suc fuel) result [] = refused
string_from (suc fuel) result (c ∷ t) = elim (c == quote) [
  | true ↦ parsed result t
  | false ↦ elim (string_piece c t) [
    | none ↦ refused
    | some piece ↦ string_from fuel (result ++ piece.0) piece.1
  ]
]

unfoldable pub string_in : ℕ → Text → Outcome Text
unfolding take string_from
string_in fuel t = elim (take quote t) [ none ↦ refused | some rest ↦ string_from fuel [] rest ]

abbrev pub is_digit : ℕ → Bool
is_digit c = leb 0x30 c && leb c 0x39

-- The loops over digits: those at the front, and the rest.
unfoldable pub digits : Text → Text × Text
digits [] = ([], [])
digits (c ∷ t) =
    let (front, rest) = digits t in if is_digit c then (c ∷ front, rest) else ([], c ∷ t)

-- Digits, one at least.
unfoldable pub some_digits : Text → Option (Text × Text)
unfolding digits
some_digits t = elim (digits t).0 [ [] ↦ none | d ∷ ds ↦ some (digits t) ]

-- A part in front of what was read behind it.
abbrev pub in_front : Text → Option (Text × Text) → Option (Text × Text)
in_front part none = none
in_front part (some (read, rest)) = some (part ++ read, rest)

unfoldable pub integer_part : Text → Option (Text × Text)
unfolding digits
integer_part [] = none
integer_part (c ∷ t) =
    if c == 0x30
    then some (c ∷ [], t)
    else if leb 0x31 c && leb c 0x39
    then some (digits (c ∷ t))
    else none

unfoldable pub fraction : Text → Option (Text × Text)
unfolding some_digits
fraction [] = some ([], [])
fraction (c ∷ t) = if c == 0x2e then in_front (c ∷ []) (some_digits t) else some ([], c ∷ t)

unfoldable pub signed_digits : Text → Option (Text × Text)
unfolding some_digits
signed_digits [] = none
signed_digits (c ∷ t) =
    if (c == 0x2b) || (c == 0x2d) then in_front (c ∷ []) (some_digits t) else some_digits (c ∷ t)

unfoldable pub exponent : Text → Option (Text × Text)
unfolding signed_digits
exponent [] = some ([], [])
exponent (c ∷ t) =
    if (c == 0x65) || (c == 0x45) then in_front (c ∷ []) (signed_digits t) else some ([], c ∷ t)

-- One part, and the next one behind it.
abbrev pub then_part : Option (Text × Text) → (Text → Option (Text × Text)) → Option (Text × Text)
then_part none next = none
then_part (some (read, rest)) next = in_front read (next rest)

unfoldable pub unsigned_lexeme : Text → Option (Text × Text)
unfolding integer_part fraction exponent
unsigned_lexeme t = then_part (integer_part t) λ u. then_part (fraction u) exponent

-- The characters of a number.
unfoldable pub lexeme : Text → Option (Text × Text)
unfolding unsigned_lexeme
lexeme [] = none
lexeme (c ∷ t) =
    if c == 0x2d then in_front (c ∷ []) (unsigned_lexeme t) else unsigned_lexeme (c ∷ t)

-- Which reader the first character asks for.
pub data Shape : Type 0 where
  a_string an_object an_array another : Shape

unfoldable pub shape : ℕ → Shape
shape c =
    if c == quote
    then a_string
    else if c == open_brace
    then an_object
    else if c == open_bracket
    then an_array
    else another

-- `push_back` and `emplace` on what the loop has so far.
unfoldable pub push_item : Items → Json → Items
push_item no_items j = item j no_items
push_item (item i items) j = item i (push_item items j)

-- `array` and `object` behind the bracket: empty, or else the loop.
unfoldable pub opened : ℕ → Json → Outcome Json → Text → Outcome Json
unfolding take
opened close empty filled t = elim (take close t) [ some rest ↦ parsed empty rest | none ↦ filled ]

-- Nothing but whitespace behind a document.
abbrev pub at_end : Text → Bool
at_end [] = true
at_end (c ∷ t) = false

module _ (scan : Text → Option Double) where
  unfoldable pub number_in : Text → Outcome Json
  unfolding lexeme
  number_in t = elim (lexeme t) [
    | none ↦ refused
    | some read ↦ elim (scan read.0) [ none ↦ refused | some d ↦ parsed (number d) read.1 ]
  ]

  -- The words, and what is left a number.
  unfoldable pub word_or_number : Text → Outcome Json
  unfolding number_in
  word_or_number t = elim (behind true_word t) [
    | some rest ↦ parsed (boolean true) rest
    | none ↦ elim (behind false_word t) [
      | some rest ↦ parsed (boolean false) rest
      | none ↦ elim (behind null_word t) [ some rest ↦ parsed null rest | none ↦ number_in t ]
    ]
  ]

  unfoldable mutual
    unfolding take string_in word_or_number whitespace emplace push_item shape opened

    pub value : ℕ → Text → Outcome Json
    value zero t = starved
    value (suc fuel) t = elim (whitespace t) [
      | [] ↦ refused
      | c ∷ rest ↦ elim (shape c) [
        | a_string ↦
            and_then (string_in (suc (length rest)) (c ∷ rest)) λ s more. parsed (text s) more
        | an_object ↦ opened close_brace (object no_fields) (fields_in fuel no_fields rest) rest
        | an_array ↦ opened close_bracket (array no_items) (items_in fuel no_items rest) rest
        | another ↦ word_or_number (c ∷ rest)
      ]
    ]

    -- The loop of `array`.
    pub items_in : ℕ → Items → Text → Outcome Json
    items_in zero items t = starved
    items_in (suc fuel) items t = and_then (value fuel t) λ j rest. elim (take close_bracket rest) [
      | some beyond ↦ parsed (array (push_item items j)) beyond
      | none ↦ elim (take comma rest) [
        | some more ↦ items_in fuel (push_item items j) more
        | none ↦ refused
      ]
    ]

    -- The loop of `object`.
    pub fields_in : ℕ → Fields → Text → Outcome Json
    fields_in zero known t = starved
    fields_in (suc fuel) known t = and_then (string_in (suc (length t)) t) λ key rest.
        elim (take colon rest) [
          | none ↦ refused
          | some at_value ↦ and_then (value fuel at_value) λ v after. elim (emplace key v known) [
            | none ↦ refused
            | some more ↦ elim (take close_brace after) [
              | some beyond ↦ parsed (object more) beyond
              | none ↦ elim (take comma after) [
                | some next ↦ fields_in fuel more next
                | none ↦ refused
              ]
            ]
          ]
        ]

  unfoldable pub parse : Text → Outcome Json
  unfolding value whitespace
  parse t =
      and_then (value (suc (2 * length t)) t)
        λ j rest. if at_end (whitespace rest) then parsed j [] else refused
