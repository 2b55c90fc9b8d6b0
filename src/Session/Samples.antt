-- ===== src/Session/Samples.antt =====
-- A state with a pinned location inside a namespace, and a document with it.
use pane_dock.Common.{refl, true, false, [], ◌∷◌, some, arith, inl}
use pane_dock.Model.{ShellLocation, ApplicationState, half}
use pane_dock.Model.Valid.{is_valid_iff}
use pane_dock.Model.Samples.{place, application, application-IsValid}
use pane_dock.Groups.{can_pin_location}
use pane_dock.Json.Samples.{show_ones, scan_doubles}
use pane_dock.Session.Decode.{valid_list_font_points}
use pane_dock.Session.RoundTrip.{IsStorable}
use pane_dock.Session.Document.{SessionDocument, IsStorableDocument}

abbrev pub pinned_place : ShellLocation
pinned_place = record (place 40) {
  navigation_parent = some (record {
    parsing_name = 0x20ac ∷ [];
    known_folder_identity = [];
    fallback_path = [];
    namespace_location = true;
  });
}

abbrev pub stored : ApplicationState
stored = record application { pinned_locations = pinned_place ∷ [] }

pub stored-IsStorable : IsStorable stored
unfolding can_pin_location valid_list_font_points
stored-IsStorable = record {
  valid = (is_valid_iff stored).1 (record {
    unique = application-IsValid.unique;
    groups_valid = application-IsValid.groups_valid;
    none_active = application-IsValid.none_active;
    one_active = application-IsValid.one_active;
  });
  groups_stored = ground arith;
  locations_stored = ground arith;
  pinned = ground arith;
  placement = ground arith;
  sidebar = omega arith;
  points = refl;
}

abbrev pub stored_document : SessionDocument
stored_document = record { application = stored; preserved_json = []; clean_shutdown = false }

pub stored_document-IsStorable : IsStorableDocument show_ones scan_doubles stored_document
unfolding half
stored_document-IsStorable = record {
  application = stored-IsStorable;
  ratios = (((1, 1073, refl, omega arith, omega arith), tt), (tt, tt));
  preserved = inl refl;
}
