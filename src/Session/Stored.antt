-- ===== src/Session/Stored.antt =====
-- The codec of the session's files: `deserialize_session` behind `serialize_session`, and the other way round.
use pane_dock.Common.{
  ◌≡◌, refl, sym, ap, subst, ◌∙◌, true, [], Option, some, Text, Bool-cases, ◌⊎◌, inl, inr,
}
use pane_dock.Ids.{is_empty}
use pane_dock.Model.{Double}
use pane_dock.Json.{object, no_fields, find_field}
use pane_dock.SessionFiles.{SessionCodec}
use pane_dock.Json.Parse.Numbers.{IsNumeral}
use pane_dock.Json.Parse.Steps.{IsFinite, IsWritable}
use pane_dock.Json.Parse.RoundTrip.{parse-dump}
use pane_dock.Json.Parse.Kept.{parse-IsWritable}
use pane_dock.Session.Fields.{object_or_empty}
use pane_dock.Session.Encode.{encode}
use pane_dock.Session.Dumpable.{encode-IsWritable}
use pane_dock.Session.RoundTrip.{IsRootObject, points-IsInt, decode-encode}
use pane_dock.Session.Read.{decode-IsRootObject}
use pane_dock.Session.Pinned.{decode-IsStorable}
use pane_dock.Session.Ratios.{decode-HasFiniteRatios}
use pane_dock.Session.Writable.{object-IsWritable, no_fields-IsWritable}
use pane_dock.Json.Parse.Fuel.{parse-total}
use pane_dock.Session.Document.{
  preserved_root, serialize_session, deserialize_session, read_back, deserialize_session-parsed,
  preserved_root-parsed, preserved_root-none, deserialize_session-some, SessionDocument,
  IsStorableDocument,
}

module _ (show : Double → Text) (scan : Text → Option Double)
    (numeral : (d : Double) → IsFinite d → IsNumeral (show d))
    (scan-show : (d : Double) → IsFinite d → scan (show d) ≡ some d)
    (finite_only : (t : Text) (d : Double) → scan t ≡ some d → IsFinite d) where
  preserved_root-IsWritable : (t : Text) → IsWritable (preserved_root show scan t)
  preserved_root-IsWritable t =
      let nothing : IsWritable (object no_fields) =
        object-IsWritable no_fields no_fields-IsWritable in
      elim (Bool-cases (is_empty t)) [
        | inl e ↦ subst IsWritable (sym (preserved_root-none show scan t (inl e))) nothing
        | inr e ↦ elim (parse-total scan t) [
          | inl f ↦ subst IsWritable (sym (preserved_root-none show scan t (inr f))) nothing
          | inr (root, f) ↦
              subst IsWritable (sym (preserved_root-parsed show scan t root e f))
                (parse-IsWritable scan finite_only t root [] f)
        ]
      ]

  preserved_root-IsRootObject :
      (t : Text)
      → (is_empty t ≡ true)
        ⊎ ((before : SessionDocument) × (deserialize_session show scan t ≡ some before))
      → IsRootObject (object_or_empty (some (preserved_root show scan t)))
  preserved_root-IsRootObject t p =
      let nothing : IsRootObject no_fields = unfold find_field in (tt, tt) in
      let empty : is_empty t ≡ true
          → IsRootObject (object_or_empty (some (preserved_root show scan t))) =
        λ e.
          subst (λ j. IsRootObject (object_or_empty (some j)))
            (sym (preserved_root-none show scan t (inl e))) nothing in
      elim p [
        | inl e ↦ empty e
        | inr (before, h) ↦ elim (Bool-cases (is_empty t)) [
          | inl e ↦ empty e
          | inr e ↦
              let (root, f, g, same) = deserialize_session-some show scan t before h in
              subst (λ j. IsRootObject (object_or_empty (some j)))
                (sym (preserved_root-parsed show scan t root e f))
                (decode-IsRootObject root before.application g)
        ]
      ]

  -- A document that a file can hold is read back as it was written, without the histories of its tabs, given
  -- that finite numbers are written as numerals and scanned back, and that only finite ones are scanned.
  pub deserialize_session-serialize_session :
      (d : SessionDocument)
      → IsStorableDocument show scan d
      → deserialize_session show scan (serialize_session show scan d) ≡ some (read_back show scan d)
  unfolding serialize_session
  deserialize_session-serialize_session d h =
      let root =
        encode d.application (preserved_root show scan d.preserved_json) d.clean_shutdown in
      let (state, flag) =
        decode-encode d.application (preserved_root show scan d.preserved_json) d.clean_shutdown
          h.application (preserved_root-IsRootObject d.preserved_json h.preserved) in
      let i = h.application.placement in
      let w =
        encode-IsWritable d.application (preserved_root show scan d.preserved_json) d.clean_shutdown
          i h.application.sidebar (points-IsInt d.application.list_font_points h.application.points)
          h.ratios (preserved_root-IsWritable d.preserved_json) in
      deserialize_session-parsed show scan (serialize_session show scan d) root
        (parse-dump show scan numeral scan-show root w)
      ∙ rw (state, flag) refl

  -- The codec of the session's files.
  abbrev pub session_codec : SessionCodec SessionDocument
  session_codec = record {
    serialize = serialize_session show scan;
    deserialize = deserialize_session show scan;
    read_back = read_back show scan;
    IsStorable = IsStorableDocument show scan;
    deserialize-serialize = deserialize_session-serialize_session;
  }

  -- A document that was read from any text at all has a valid state and is one that a file can hold: written
  -- again and read again it has the same state and the same flag, with the new text to preserve, given the
  -- same of numbers.
  pub deserialize_session-IsStorableDocument :
      (t : Text) (d : SessionDocument)
      → deserialize_session show scan t ≡ some d
      → IsStorableDocument show scan d
        × (deserialize_session show scan (serialize_session show scan d)
            ≡ some (record d { preserved_json = serialize_session show scan d }))
  deserialize_session-IsStorableDocument t d h =
      let (root, e, f, same) = deserialize_session-some show scan t d h in
      let (storable, fresh) = decode-IsStorable root d.application f in
      let good : IsStorableDocument show scan d = record {
        application = storable;
        ratios =
            decode-HasFiniteRatios root d.application f
              (parse-IsWritable scan finite_only t root [] e);
        preserved =
            inr (
              d,
              subst (λ x. deserialize_session show scan x.preserved_json ≡ some d) (sym same) h,
            );
      } in
      (
        good,
        deserialize_session-serialize_session d good
            ∙ ap
                (λ a.
                  some
                    (record d { application = a; preserved_json = serialize_session show scan d }))
                fresh,
      )
