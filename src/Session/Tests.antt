-- ===== src/Session/Tests.antt =====
-- The state written over a document with a field of another version, and read again.
use pane_dock.Common.{refl, ◌≡◌, true, false, [], ◌∷◌, some, Text-discrete}
use pane_dock.Json.{Json, boolean, object, no_fields, field, find_field}
use pane_dock.Json.Samples.{
  show_ones, show_ones-IsNumeral, scan_doubles, scan_doubles-show_ones, scan_doubles-IsFinite,
}
use pane_dock.Session.Encode.{encode}
use pane_dock.Session.Unknown.{encode-keeps}
use pane_dock.Session.Fields.{object_or_empty}
use pane_dock.Session.Decode.{decode}
use pane_dock.Session.Forgotten.{state_without_history}
use pane_dock.Session.RoundTrip.{decode-encode}
use pane_dock.Session.Document.{
  serialize_session, deserialize_session, read_back, IsStorableDocument,
}
use pane_dock.Session.Stored.{
  deserialize_session-serialize_session, deserialize_session-IsStorableDocument,
}
use pane_dock.Session.Samples.{
  stored, stored-IsStorable, stored_document, stored_document-IsStorable,
}

-- Another version's document.
abbrev later_root : Json
later_root = object (field (0x7a ∷ []) (boolean true) no_fields)

encode-keeps_example :
    find_field (0x7a ∷ []) (object_or_empty (some (encode stored later_root false)))
    ≡ find_field (0x7a ∷ []) (object_or_empty (some later_root))
encode-keeps_example =
    encode-keeps stored later_root false (0x7a ∷ []) (unfold Text-discrete in refl)

-- The same document, decoded.
later_decoded : decode (encode stored later_root false) ≡ some (state_without_history stored)
later_decoded =
    (decode-encode stored later_root false stored-IsStorable
      (unfold find_field Text-discrete in (tt, tt))).0

deserialize_session-serialize_session_example :
    deserialize_session show_ones scan_doubles
      (serialize_session show_ones scan_doubles stored_document)
    ≡ some (read_back show_ones scan_doubles stored_document)
deserialize_session-serialize_session_example =
    deserialize_session-serialize_session show_ones scan_doubles show_ones-IsNumeral
      scan_doubles-show_ones scan_doubles-IsFinite stored_document stored_document-IsStorable

-- Read from the text that was written.
deserialize_session-IsStorableDocument_example :
    IsStorableDocument show_ones scan_doubles (read_back show_ones scan_doubles stored_document)
    × (deserialize_session show_ones scan_doubles (
          serialize_session show_ones scan_doubles
            (read_back show_ones scan_doubles stored_document))
        ≡ some (record (read_back show_ones scan_doubles stored_document) {
          preserved_json =
              serialize_session show_ones scan_doubles
                (read_back show_ones scan_doubles stored_document);
        }))
deserialize_session-IsStorableDocument_example =
    deserialize_session-IsStorableDocument show_ones scan_doubles show_ones-IsNumeral
      scan_doubles-show_ones scan_doubles-IsFinite
      (serialize_session show_ones scan_doubles stored_document)
      (read_back show_ones scan_doubles stored_document)
      deserialize_session-serialize_session_example
