-- ===== src/Json/Print.antt =====
-- `escape` and `dump`: how a value is written.
--
-- `show` is the stream that writes a `double` with 17 digits, a part of the C++ library.
use pane_dock.Common.{
  ℕ, ◌+◌, ◌/◌, ◌%◌, Bool, true, false, [], ◌∷◌, ◌++◌, Text, ltb, ◌==◌, if◌then◌else◌,
}
use pane_dock.Model.{Double}
use pane_dock.Json.{
  Json, Items, Fields, null, boolean, number, text, array, object, no_items, item, no_fields, field,
}

-- The characters that the format uses, by their codes.
abbrev pub quote : ℕ
quote = 0x22

abbrev pub backslash : ℕ
backslash = 0x5c

abbrev pub comma : ℕ
comma = 0x2c

abbrev pub colon : ℕ
colon = 0x3a

abbrev pub open_bracket : ℕ
open_bracket = 0x5b

abbrev pub close_bracket : ℕ
close_bracket = 0x5d

abbrev pub open_brace : ℕ
open_brace = 0x7b

abbrev pub close_brace : ℕ
close_brace = 0x7d

abbrev pub true_word : Text
true_word = 0x74 ∷ 0x72 ∷ 0x75 ∷ 0x65 ∷ []

abbrev pub false_word : Text
false_word = 0x66 ∷ 0x61 ∷ 0x6c ∷ 0x73 ∷ 0x65 ∷ []

abbrev pub null_word : Text
null_word = 0x6e ∷ 0x75 ∷ 0x6c ∷ 0x6c ∷ []

-- `hex[n]`, for n below 16.
abbrev pub hex_digit : ℕ → ℕ
hex_digit n = if ltb n 10 then 0x30 + n else 0x57 + n

-- The turn of the loop for one byte.
unfoldable pub escape_byte : ℕ → Text
escape_byte byte =
    if byte == quote
    then backslash ∷ quote ∷ []
    else if byte == backslash
    then backslash ∷ backslash ∷ []
    else if byte == 0x08
    then backslash ∷ 0x62 ∷ []
    else if byte == 0x0c
    then backslash ∷ 0x66 ∷ []
    else if byte == 0x0a
    then backslash ∷ 0x6e ∷ []
    else if byte == 0x0d
    then backslash ∷ 0x72 ∷ []
    else if byte == 0x09
    then backslash ∷ 0x74 ∷ []
    else if ltb byte 0x20
    then backslash ∷ 0x75 ∷ 0x30 ∷ 0x30 ∷ hex_digit (byte / 16) ∷ hex_digit (byte % 16) ∷ []
    else byte ∷ []

unfoldable pub escape_bytes : Text → Text
unfolding escape_byte
escape_bytes [] = []
escape_bytes (byte ∷ bytes) = escape_byte byte ++ escape_bytes bytes

abbrev pub escape : Text → Text
escape bytes = quote ∷ (escape_bytes bytes ++ quote ∷ [])

-- The comma in front of every element but the first.
abbrev pub separator : Bool → Text
separator true = []
separator false = comma ∷ []

module _ (show : Double → Text) where
  unfoldable mutual
    unfolding escape_bytes

    pub dump : Json → Text
    dump null = null_word
    dump (boolean b) = if b then true_word else false_word
    dump (number d) = show d
    dump (text t) = escape t
    dump (array items) = open_bracket ∷ (dump_items true items ++ close_bracket ∷ [])
    dump (object fields) = open_brace ∷ (dump_fields true fields ++ close_brace ∷ [])

    pub dump_items : Bool → Items → Text
    dump_items first no_items = []
    dump_items first (item j items) = separator first ++ (dump j ++ dump_items false items)

    pub dump_fields : Bool → Fields → Text
    dump_fields first no_fields = []
    dump_fields first (field k v fields) =
        separator first ++ (escape k ++ colon ∷ (dump v ++ dump_fields false fields))
