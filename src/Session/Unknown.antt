-- ===== src/Session/Unknown.antt =====
-- The fields of another version in the document that was read are still there when it is written.
use pane_dock.Common.{◌≡◌, Bool, false, List, [], ◌∷◌, some, Text, text_eq, any, arith}
use pane_dock.Model.{ApplicationState}
use pane_dock.Json.{Json, find_field}
use pane_dock.Session.Words.{
  schema_version_key, active_group_id_key, groups_key, pinned_locations_key, clean_shutdown_key,
  window_placement_key, sidebar_width_key, list_font_points_key,
}
use pane_dock.Session.Fields.{object_or_empty}
use pane_dock.Session.Encode.{encode}
use pane_dock.Session.Lookup.{find_field-assign}
use pane_dock.Session.RoundTrip.{encode-object}

-- The keys of the document that this version knows.
abbrev pub document_keys : List Text
document_keys =
    schema_version_key ∷ active_group_id_key ∷ groups_key ∷ pinned_locations_key
    ∷ clean_shutdown_key ∷ window_placement_key ∷ sidebar_width_key ∷ list_font_points_key ∷ []

-- Where a key is none of the document's own, a write keeps what the document that was read has under it.
pub encode-keeps :
    (a : ApplicationState) (root : Json) (clean : Bool) (k : Text)
    → any (text_eq k) document_keys ≡ false
    → find_field k (object_or_empty (some (encode a root clean)))
      ≡ find_field k (object_or_empty (some root))
encode-keeps a root clean k h =
    let e0 : text_eq k schema_version_key ≡ false = ground arith in
    let e1 : text_eq k active_group_id_key ≡ false = ground arith in
    let e2 : text_eq k groups_key ≡ false = ground arith in
    let e3 : text_eq k pinned_locations_key ≡ false = ground arith in
    let e4 : text_eq k clean_shutdown_key ≡ false = ground arith in
    let e5 : text_eq k window_placement_key ≡ false = ground arith in
    let e6 : text_eq k sidebar_width_key ≡ false = ground arith in
    let e7 : text_eq k list_font_points_key ≡ false = ground arith in
    rw (encode-object a root clean) (simp (find_field-assign, e0, e1, e2, e3, e4, e5, e6, e7))
