-- ===== src/Json/Tests.antt =====
-- Documents read and written, their numbers written as ones.
use pane_dock.Common.{◌≡◌, ◌⊎◌, refl, true, [], ◌∷◌, ◌++◌, Text-discrete, arith}
use pane_dock.Model.{finite}
use pane_dock.Unicode.{code_bytes}
use pane_dock.Json.{text_ltb, Json, number, text, array, object, no_items, item, no_fields, field}
use pane_dock.Json.Print.{dump}
use pane_dock.Json.Parse.{parsed, refused, parse, behind}
use pane_dock.Json.Parse.Steps.{IsWritable}
use pane_dock.Json.Parse.Fuel.{parse-total}
use pane_dock.Json.Parse.RoundTrip.{parse-dump}
use pane_dock.Json.Samples.{ones, show_ones, scan_ones, show_ones-IsNumeral, scan_ones-show_ones}

-- `{"a":[-1,"\n"],"b":{}}`.
abbrev small_document : Json
small_document = object (
    field (0x61 ∷ []) (array (item (number (finite true 1)) (item (text (0x0a ∷ [])) no_items)))
      (field (0x62 ∷ []) (object no_fields) no_fields))

dump_small :
    dump show_ones small_document
    ≡ 0x7b ∷ 0x22 ∷ 0x61 ∷ 0x22 ∷ 0x3a ∷ 0x5b ∷ 0x2d ∷ 0x31 ∷ 0x31 ∷ 0x2c ∷ 0x22 ∷ 0x5c ∷ 0x6e
      ∷ 0x22 ∷ 0x5d ∷ 0x2c ∷ 0x22 ∷ 0x62 ∷ 0x22 ∷ 0x3a ∷ 0x7b ∷ 0x7d ∷ 0x7d ∷ []
unfolding dump ones
dump_small = refl

-- A key that is there twice.
parse_twice :
    parse scan_ones
      (0x7b ∷ 0x22 ∷ 0x22 ∷ 0x3a ∷ 0x31 ∷ 0x2c ∷ 0x22 ∷ 0x22 ∷ 0x3a ∷ 0x31 ∷ 0x7d ∷ [])
    ≡ refused
unfolding parse behind Text-discrete
parse_twice = refl

-- `[1,]`, and `01`.
parse_comma : parse scan_ones (0x5b ∷ 0x31 ∷ 0x2c ∷ 0x5d ∷ []) ≡ refused
unfolding parse behind Text-discrete
parse_comma = refl

parse_zero : parse scan_ones (0x30 ∷ 0x31 ∷ []) ≡ refused
unfolding parse behind Text-discrete
parse_zero = refl

-- The escape of a pair.
parse_pair :
    parse scan_ones (
      0x22 ∷ 0x5c ∷ 0x75 ∷ 0x64 ∷ 0x38 ∷ 0x33 ∷ 0x64 ∷ 0x5c ∷ 0x75 ∷ 0x44 ∷ 0x65 ∷ 0x30 ∷ 0x30
      ∷ 0x22 ∷ [])
    ≡ parsed (text (0xf0 ∷ 0x9f ∷ 0x98 ∷ 0x80 ∷ [])) []
unfolding parse behind Text-discrete code_bytes
parse_pair = refl

small-IsWritable : IsWritable small_document
unfolding IsWritable text_ltb
small-IsWritable =
    (((refl, tt), (tt, tt)), (((1, 0, refl, omega arith, omega arith), (tt, tt)), ((tt, tt), tt)))

parse-dump_example :
    parse scan_ones (dump show_ones small_document ++ 0x0a ∷ []) ≡ parsed small_document []
parse-dump_example =
    parse-dump show_ones scan_ones show_ones-IsNumeral scan_ones-show_ones small_document
      small-IsWritable

parse-total_example :
    (parse scan_ones (0x7b ∷ 0x5b ∷ []) ≡ refused)
    ⊎ ((j : Json) × (parse scan_ones (0x7b ∷ 0x5b ∷ []) ≡ parsed j []))
parse-total_example = parse-total scan_ones (0x7b ∷ 0x5b ∷ [])
