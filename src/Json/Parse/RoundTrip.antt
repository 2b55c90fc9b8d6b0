-- ===== src/Json/Parse/RoundTrip.antt =====
-- `Parser::parse` behind `dump`: a document is read back as it was written.
use pane_dock.Common.{
  ℕ, zero, suc, ◌*◌, ◌≤◌, ◌≡◌, refl, sym, ap, ◌∙◌, Bool, true, false, [], ◌∷◌, ◌++◌, Option, some,
  Text, ◌==◌, length, length-append, arith, ◌⊎◌, inl, inr,
}
use pane_dock.Model.{Double}
use pane_dock.Json.{
  Json, Items, Fields, null, boolean, number, text, array, object, no_items, item, no_fields, field,
}
use pane_dock.Json.Order.{
  IsSorted, push_field, append_fields, emplace_last, append_fields-push_field, AllBefore,
  AllBefore-push_field, AllBefore-nil,
}
use pane_dock.Json.Print.{
  quote, colon, open_bracket, close_bracket, open_brace, close_brace, escape_bytes, escape, dump,
  dump_items, dump_fields,
}
use pane_dock.Json.Parse.{
  parsed, is_space, whitespace, take, behind, string_in, number_in, word_or_number, opened, shape,
  push_item, value, items_in, fields_in, parse,
}
use pane_dock.Json.Parse.Numbers.{IsNumeral, ends_number, lexeme-append, numeral_head}
use pane_dock.Json.Parse.Steps.{
  IsFinite, IsWritable, AreWritable, AreWritableFields, append_items, push_item-append_items,
  push_item_last, push_field_last, string_in-front, value-digit, value-escape, items_in-last,
  items_in-more, fields_in-last, fields_in-more, value-array, value-object,
}
use pane_dock.Json.Parse.Dumped.{
  ends_number-items, ends_number-fields, dump-array, dump_items-item, dump-object,
  dump_fields-field, length-dump_array, length-dump_items, length-dump_fields, length-dump_object,
  dump_no_items, dump_no_fields,
}

module _ (show : Double → Text) (scan : Text → Option Double)
    (numeral : (d : Double) → IsFinite d → IsNumeral (show d))
    (scan-show : (d : Double) → IsFinite d → scan (show d) ≡ some d) where
  number_in-show :
      (d : Double) (rest : Text)
      → IsFinite d
      → ends_number rest ≡ true
      → number_in scan (show d ++ rest) ≡ parsed (number d) rest
  unfolding number_in
  number_in-show d rest h e =
      rw (number_in, lexeme-append (show d) rest (numeral d h) e) (rw (scan-show d h) refl)

  value-show :
      (d : Double) (fuel : ℕ) (rest : Text)
      → IsFinite d
      → 1 ≤ fuel
      → ends_number rest ≡ true
      → value scan fuel (show d ++ rest) ≡ parsed (number d) rest
  value-show d zero rest h f e = absurd (omega arith)
  value-show d (suc fuel) rest h f e =
      let (c, u, w, digit) = numeral_head (show d) (numeral d h) in
      let starts = ap (λ x. x ++ rest) w in
      ap (value scan (suc fuel)) starts
      ∙ value-digit scan fuel c (u ++ rest) digit
      ∙ ap (number_in scan) (sym starts)
      ∙ number_in-show d rest h e

  -- The first character of a document.
  dump_head :
      (j : Json)
      → IsWritable j
      → (c : ℕ) × (u : Text) × (dump show j ≡ c ∷ u)
        × (is_space c ≡ false)
        × ((c == close_bracket) ≡ false)
  unfolding dump IsWritable
  dump_head null h = (0x6e, 0x75 ∷ 0x6c ∷ 0x6c ∷ [], refl, refl, refl)
  dump_head (boolean true) h = (0x74, 0x72 ∷ 0x75 ∷ 0x65 ∷ [], refl, refl, refl)
  dump_head (boolean false) h = (0x66, 0x61 ∷ 0x6c ∷ 0x73 ∷ 0x65 ∷ [], refl, refl, refl)
  dump_head (number d) h =
      let (c, u, w, digit) = numeral_head (show d) (numeral d h) in
      (c, u, w, ground arith, ground arith)
  dump_head (text t) h = (quote, escape_bytes t ++ quote ∷ [], refl, refl, refl)
  dump_head (array items) h =
      (open_bracket, dump_items show true items ++ close_bracket ∷ [], refl, refl, refl)
  dump_head (object fields) h =
      (open_brace, dump_fields show true fields ++ close_brace ∷ [], refl, refl, refl)

  -- The values of one piece.
  value-word :
      (fuel : ℕ) (j : Json) (b : Bool) (rest : Text)
      → j ≡ boolean b ⊎ (j ≡ null)
      → 1 ≤ fuel
      → value scan fuel (dump show j ++ rest) ≡ parsed j rest
  unfolding dump value whitespace shape word_or_number behind
  value-word zero j b rest w f = absurd (omega arith)
  value-word (suc fuel) j true rest (inl w) f = rw w refl
  value-word (suc fuel) j false rest (inl w) f = rw w refl
  value-word (suc fuel) j b rest (inr w) f = rw w refl

  value-empty_array :
      (fuel : ℕ) (rest : Text)
      → value scan (suc fuel) (dump show (array no_items) ++ rest) ≡ parsed (array no_items) rest
  unfolding dump dump_items value whitespace shape opened take
  value-empty_array fuel rest = refl

  value-empty_object :
      (fuel : ℕ) (rest : Text)
      → value scan (suc fuel) (dump show (object no_fields) ++ rest)
        ≡ parsed (object no_fields) rest
  unfolding dump dump_fields value whitespace shape opened take
  value-empty_object fuel rest = refl

  value-number :
      (d : Double) (fuel : ℕ) (rest : Text)
      → IsFinite d
      → 1 ≤ fuel
      → ends_number rest ≡ true
      → value scan fuel (dump show (number d) ++ rest) ≡ parsed (number d) rest
  unfolding dump
  value-number = value-show

  value-text :
      (s : Text) (fuel : ℕ) (rest : Text)
      → 1 ≤ fuel
      → value scan fuel (dump show (text s) ++ rest) ≡ parsed (text s) rest
  unfolding dump
  value-text = value-escape scan

  length-dump : (j : Json) → IsWritable j → 1 ≤ length (dump show j)
  length-dump j h = let (c, u, w, s, x) = dump_head j h in rw w omega arith

  mutual
    unfolding IsWritable append_items append_fields

    value-dump :
        (j : Json)
        → IsWritable j
        → (fuel : ℕ) (rest : Text) → length (dump show j) ≤ fuel
        → ends_number rest ≡ true
        → value scan fuel (dump show j ++ rest) ≡ parsed j rest
    value-dump null h fuel rest f e =
        value-word fuel null true rest (inr refl) (omega (arith, length-dump null h))
    value-dump (boolean b) h fuel rest f e =
        value-word fuel (boolean b) b rest (inl refl) (omega (arith, length-dump (boolean b) h))
    value-dump (number d) h fuel rest f e =
        value-number d fuel rest h (omega (arith, length-dump (number d) h)) e
    value-dump (text t) h fuel rest f e =
        value-text t fuel rest (omega (arith, length-dump (text t) h))
    value-dump (array no_items) h zero rest f e =
        absurd (omega (arith, length-dump (array no_items) h))
    value-dump (array no_items) h (suc fuel) rest f e = value-empty_array fuel rest
    value-dump (array (item j items)) h zero rest f e =
        absurd (omega (arith, length-dump_array show j items))
    value-dump (array (item j items)) h (suc zero) rest f e =
        absurd (omega (arith, length-dump_array show j items))
    value-dump (array (item j items)) h (suc (suc fuel)) rest f e =
        let long = length-dump_array show j items in
        let behind = dump_items show false items ++ close_bracket ∷ rest in
        let (c, u, w, s, x) = dump_head j h.0 in
        ap (value scan (suc (suc fuel))) (dump-array show j items rest)
        ∙ value-array scan (suc fuel) (dump show j ++ behind) c (u ++ behind)
            (ap (λ t. t ++ behind) w) s x
        ∙ items_in-dump items h.1 fuel no_items (dump show j ++ behind) rest j (omega arith)
            (value-dump j h.0 fuel behind (omega arith) (ends_number-items show items rest))
    value-dump (object no_fields) h zero rest f e =
        absurd (omega (arith, length-dump (object no_fields) h))
    value-dump (object no_fields) h (suc fuel) rest f e = value-empty_object fuel rest
    value-dump (object (field k v more)) h zero rest f e =
        absurd (omega (arith, length-dump_object show (field k v more)))
    value-dump (object (field k v more)) h (suc zero) rest f e =
        absurd (omega (arith, length-dump_object show (field k v more)))
    value-dump (object (field k v more)) h (suc (suc fuel)) rest f e =
        let long = length-dump_object show (field k v more) in
        let parts = length-dump_fields show true k v more in
        let behind = dump_fields show false more ++ close_brace ∷ rest in
        let entry = colon ∷ (dump show v ++ behind) in
        ap (value scan (suc (suc fuel))) (dump-object show k v more rest)
        ∙ value-object scan (suc fuel) (escape_bytes k ++ quote ∷ [] ++ entry)
        ∙ fields_in-dump more h.1.1 fuel no_fields (escape k ++ entry) (dump show v ++ behind) rest
            k v (omega arith) h.0 (AllBefore-nil (field k v more))
            (string_in-front (suc (length (escape k ++ entry))) k entry (omega arith))
            (value-dump v h.1.0 fuel behind (omega arith) (ends_number-fields show more rest))

    items_in-dump :
        (items : Items)
        → AreWritable items
        → (fuel : ℕ) (known : Items) (t rest : Text) (j : Json)
        → length (dump_items show false items) ≤ fuel
        → value scan fuel t ≡ parsed j (dump_items show false items ++ close_bracket ∷ rest)
        → items_in scan (suc fuel) known t ≡ parsed (array (append_items known (item j items))) rest
    items_in-dump no_items h fuel known t rest j f e =
        items_in-last scan fuel known t rest j (e ∙ ap (parsed j) (dump_no_items show rest))
        ∙ ap (λ k. parsed (array k) rest) (push_item_last known j)
    items_in-dump (item i items) h zero known t rest j f e =
        absurd (omega (arith, length-dump_items show i items))
    items_in-dump (item i items) h (suc fuel) known t rest j f e =
        let long = length-dump_items show i items in
        let behind = dump_items show false items ++ close_bracket ∷ rest in
        items_in-more scan (suc fuel) known t (dump show i ++ behind) j
          (e ∙ ap (parsed j) (dump_items-item show i items rest))
        ∙ items_in-dump items h.1 fuel (push_item known j) (dump show i ++ behind) rest i
            (omega arith)
            (value-dump i h.0 fuel behind (omega arith) (ends_number-items show items rest))
        ∙ ap (λ k. parsed (array k) rest) (push_item-append_items known (item i items) j)

    fields_in-dump :
        (fields : Fields)
        → AreWritableFields fields
        → (fuel : ℕ) (known : Fields) (t at rest : Text) (k : Text) (v : Json)
        → length (dump_fields show false fields) ≤ fuel
        → IsSorted (field k v fields)
        → AllBefore known (field k v fields)
        → string_in (suc (length t)) t ≡ parsed k (colon ∷ at)
        → value scan fuel at ≡ parsed v (dump_fields show false fields ++ close_brace ∷ rest)
        → fields_in scan (suc fuel) known t
          ≡ parsed (object (append_fields known (field k v fields))) rest
    fields_in-dump no_fields h fuel known t at rest k v f s b w e =
        fields_in-last scan fuel known (push_field k v known) t at rest k v w
          (e ∙ ap (parsed v) (dump_no_fields show rest)) (emplace_last k v known b.0)
        ∙ ap (λ m. parsed (object m) rest) (push_field_last known k v)
    fields_in-dump (field l u more) h zero known t at rest k v f s b w e =
        absurd (omega (arith, length-dump_fields show false l u more))
    fields_in-dump (field l u more) h (suc fuel) known t at rest k v f s b w e =
        let parts = length-dump_fields show false l u more in
        let behind = dump_fields show false more ++ close_brace ∷ rest in
        let entry = colon ∷ (dump show u ++ behind) in
        fields_in-more scan (suc fuel) known (push_field k v known) t at (escape l ++ entry) k v w
          (e ∙ ap (parsed v) (dump_fields-field show l u more rest)) (emplace_last k v known b.0)
        ∙ fields_in-dump more h.1 fuel (push_field k v known) (escape l ++ entry)
            (dump show u ++ behind) rest l u (omega arith) s.1
            (AllBefore-push_field k v known (field l u more) b.1 s.0)
            (string_in-front (suc (length (escape l ++ entry))) l entry (omega arith))
            (value-dump u h.0 fuel behind (omega arith) (ends_number-fields show more rest))
        ∙ ap (λ m. parsed (object m) rest) (append_fields-push_field k v known (field l u more))

  -- A document of finite numbers, with the keys of every object in order and each once, is read back
  -- from its characters and a line end as it was, given that a finite number is written as a numeral
  -- and scanned as it was written.
  pub parse-dump : (j : Json) → IsWritable j → parse scan (dump show j ++ 0x0a ∷ []) ≡ parsed j []
  unfolding parse whitespace
  parse-dump j h =
      rw
        (value-dump j h (suc (2 * length (dump show j ++ 0x0a ∷ []))) (0x0a ∷ [])
          (omega (arith, length-append (dump show j) (0x0a ∷ []))) refl)
        refl
