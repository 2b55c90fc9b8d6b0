-- ===== src/Session/Locations.antt =====
-- The fields of a location in an object, and `decode_shell_location` on them.
use pane_dock.Common.{
  ◌<◌, ◌≡◌, refl, ◌∙◌, Bool, true, false, Option, none, some, Text, Text-discrete, if◌then◌else◌,
  All, ◌⊎◌,
}
use pane_dock.Ids.{is_empty}
use pane_dock.Model.{ShellLocationParent, ShellLocation}
use pane_dock.Unicode.{utf8}
use pane_dock.Unicode.RoundTrip.{wide-utf8}
use pane_dock.Json.{Json, Fields, boolean, text, object, find_field}
use pane_dock.Session.Words.{
  parsing_name_key, known_folder_identity_key, fallback_path_key, namespace_location_key,
  navigation_parent_key,
}
use pane_dock.Session.Fields.{field_as}
use pane_dock.Session.Encode.{identity, encode_location_identity, without_identity}
use pane_dock.Session.Decode.{
  field_name, field_flag, has_field, has_identity, decode_identity, decode_known_parent,
  decode_parent, decode_shell_location,
}
use pane_dock.Session.Lookup.{find_field-assign, find_field-erase_field}

-- A name in memory is UTF-16 units.
abbrev pub IsName : Text → Type 0
IsName t = All (λ u. u < 0x10000) t

abbrev pub IsIdentity : ShellLocationParent → Type 0
IsIdentity p = IsName p.parsing_name × IsName p.known_folder_identity × IsName p.fallback_path

-- The fields of an identity, found in an object.
pub record HasIdentity (place : Fields) (p : ShellLocationParent) : Type 0 where
  pub parsing : find_field parsing_name_key place ≡ some (text (utf8 p.parsing_name))
  pub known :
      find_field known_folder_identity_key place ≡ some (text (utf8 p.known_folder_identity))
  pub fallback : find_field fallback_path_key place ≡ some (text (utf8 p.fallback_path))
  pub flag : find_field namespace_location_key place ≡ some (boolean p.namespace_location)

pub encode_location_identity-HasIdentity :
    (old : Fields) (p : ShellLocationParent) → HasIdentity (encode_location_identity old p) p
unfolding encode_location_identity Text-discrete
encode_location_identity-HasIdentity old p = record {
  parsing = simp find_field-assign;
  known = simp find_field-assign;
  fallback = simp find_field-assign;
  flag = simp find_field-assign;
}

pub field_name-utf8 :
    (key : Text) (place : Fields) (t : Text)
    → find_field key place ≡ some (text (utf8 t))
    → IsName t
    → field_name key place ≡ some t
unfolding field_name field_as
field_name-utf8 key place t e h = rw (field_name, e) (wide-utf8 t h)

field_flag-boolean :
    (key : Text) (place : Fields) (b : Bool)
    → find_field key place ≡ some (boolean b)
    → field_flag key place ≡ some b
unfolding field_flag
field_flag-boolean key place b e = rw (field_flag, e) refl

field_flag-missing :
    (key : Text) (place : Fields) → find_field key place ≡ none → field_flag key place ≡ some false
unfolding field_flag
field_flag-missing key place e = rw (field_flag, e) refl

decode_identity-HasIdentity :
    (place : Fields) (p : ShellLocationParent)
    → HasIdentity place p
    → IsIdentity p
    → decode_identity place ≡ some p
unfolding decode_identity
decode_identity-HasIdentity place p h n =
    rw
      (
        decode_identity,
        field_name-utf8 parsing_name_key place p.parsing_name h.parsing n.0,
        field_name-utf8 known_folder_identity_key place p.known_folder_identity h.known n.1,
        field_name-utf8 fallback_path_key place p.fallback_path h.fallback n.2,
        field_flag-boolean namespace_location_key place p.namespace_location h.flag,
      )
      refl

-- A location that a file can hold: names of units, and a parent that is named.
abbrev pub IsStorableParent : Option ShellLocationParent → Type 0
IsStorableParent none = Unit
IsStorableParent (some p) = IsIdentity p × (is_empty p.parsing_name ≡ false)

abbrev pub IsStorableLocation : ShellLocation → Type 0
IsStorableLocation l = IsIdentity (identity l) × IsStorableParent l.navigation_parent

-- An object that a location may be written over: where it has a parent, that is an object.
abbrev pub IsLocationObject : Fields → Type 0
IsLocationObject old =
    (find_field navigation_parent_key old ≡ none)
    ⊎ ((q : Fields) × (find_field navigation_parent_key old ≡ some (object q)))

decode_known_parent-named :
    (place : Fields) (p : ShellLocationParent)
    → decode_identity place ≡ some p
    → is_empty p.parsing_name ≡ false
    → decode_known_parent place ≡ some (some p)
unfolding decode_known_parent
decode_known_parent-named place p e h = rw (decode_known_parent, e) (rw h refl)

decode_parent-object :
    (place : Fields) (b : Bool)
    → field_flag namespace_location_key place ≡ some b
    → decode_parent (some (object place))
      ≡ (if has_identity place then decode_known_parent place else some none)
unfolding decode_parent has_identity decode_known_parent decode_identity
decode_parent-object place b e = rw (decode_parent, e) refl

pub has_field-found :
    (key : Text) (place : Fields) (j : Json)
    → find_field key place ≡ some j
    → has_field key place ≡ true
unfolding has_field
has_field-found key place j e = rw (has_field, e) refl

has_field-missing :
    (key : Text) (place : Fields) → find_field key place ≡ none → has_field key place ≡ false
unfolding has_field
has_field-missing key place e = rw (has_field, e) refl

has_identity-HasIdentity :
    (place : Fields) (p : ShellLocationParent) → HasIdentity place p → has_identity place ≡ true
unfolding has_identity
has_identity-HasIdentity place p h =
    rw (has_identity, has_field-found parsing_name_key place (text (utf8 p.parsing_name)) h.parsing)
      refl

without_identity_fields :
    (q : Fields)
    → (find_field parsing_name_key (without_identity q) ≡ none)
      × (find_field known_folder_identity_key (without_identity q) ≡ none)
      × (find_field fallback_path_key (without_identity q) ≡ none)
unfolding without_identity Text-discrete
without_identity_fields q =
    (simp find_field-erase_field, simp find_field-erase_field, simp find_field-erase_field)

has_identity-without_identity : (q : Fields) → has_identity (without_identity q) ≡ false
unfolding has_identity
has_identity-without_identity q =
    let kept = without_identity q in
    let (parsing, known, fallback) = without_identity_fields q in
    rw
      (
        has_identity,
        has_field-missing parsing_name_key kept parsing,
        has_field-missing known_folder_identity_key kept known,
        has_field-missing fallback_path_key kept fallback,
      )
      refl

pub decode_parent-HasIdentity :
    (place : Fields) (p : ShellLocationParent)
    → HasIdentity place p
    → IsStorableParent (some p)
    → decode_parent (some (object place)) ≡ some (some p)
decode_parent-HasIdentity place p h n =
    decode_parent-object place p.namespace_location
      (field_flag-boolean namespace_location_key place p.namespace_location h.flag)
    ∙ rw (has_identity-HasIdentity place p h)
        (decode_known_parent-named place p (decode_identity-HasIdentity place p h n.0) n.1)

without_identity_flag : (q : Fields) → find_field namespace_location_key (without_identity q) ≡ none
unfolding without_identity Text-discrete
without_identity_flag q = simp find_field-erase_field

-- A parent whose known fields were dropped.
pub decode_parent-without_identity :
    (q : Fields) → decode_parent (some (object (without_identity q))) ≡ some none
decode_parent-without_identity q =
    decode_parent-object (without_identity q) false
      (field_flag-missing namespace_location_key (without_identity q) (without_identity_flag q))
    ∙ rw (has_identity-without_identity q) refl

pub decode_parent-none : decode_parent none ≡ some none
unfolding decode_parent
decode_parent-none = refl

pub decode_shell_location-parts :
    (place : Fields) (l : ShellLocation)
    → HasIdentity place (identity l)
    → IsIdentity (identity l)
    → decode_parent (find_field navigation_parent_key place) ≡ some l.navigation_parent
    → decode_shell_location place ≡ some l
unfolding decode_shell_location
decode_shell_location-parts place l h n e =
    rw (decode_shell_location, decode_identity-HasIdentity place (identity l) h n, e) refl
