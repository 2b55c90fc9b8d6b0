-- ===== src/Session/Parents.antt =====
-- The branches of `encode_shell_location`, by the parent that there was and that there is.
use pane_dock.Common.{
  ◌≡◌, refl, sym, ap, subst, ◌∙◌, none, some, Text, Text-discrete, if◌then◌else◌, Bool-cases,
  Option-cases, inl, inr,
}
use pane_dock.Model.{ShellLocationParent, ShellLocation}
use pane_dock.Json.{Json, Fields, object, find_field}
use pane_dock.Session.Words.{navigation_parent_key}
use pane_dock.Session.Fields.{assign, erase_field, object_or_empty}
use pane_dock.Session.Encode.{
  no_entries, identity, encode_location_identity, without_identity, encode_shell_location,
}
use pane_dock.Session.Decode.{decode_parent, decode_shell_location}
use pane_dock.Session.Lookup.{text_eq-same, find_field-assign, find_field-erase_field}
use pane_dock.Session.Locations.{
  encode_location_identity-HasIdentity, IsStorableParent, IsStorableLocation, IsLocationObject,
  decode_parent-HasIdentity, decode_parent-without_identity, decode_parent-none,
  decode_shell_location-parts, HasIdentity,
}

-- The parent's field does not stand in the identity's way.
HasIdentity-assign :
    (v : Json) (place : Fields) (p : ShellLocationParent)
    → HasIdentity place p
    → HasIdentity (assign navigation_parent_key v place) p
unfolding Text-discrete
HasIdentity-assign v place p h = record {
  parsing = simp find_field-assign h.parsing;
  known = simp find_field-assign h.known;
  fallback = simp find_field-assign h.fallback;
  flag = simp find_field-assign h.flag;
}

HasIdentity-erase :
    (place : Fields) (p : ShellLocationParent)
    → HasIdentity place p
    → HasIdentity (erase_field navigation_parent_key place) p
unfolding Text-discrete
HasIdentity-erase place p h = record {
  parsing = simp find_field-erase_field h.parsing;
  known = simp find_field-erase_field h.known;
  fallback = simp find_field-erase_field h.fallback;
  flag = simp find_field-erase_field h.flag;
}

-- The branches of `encode_shell_location`.
module _ (old : Fields) (l : ShellLocation) where
  abbrev named : Fields
  named = encode_location_identity old (identity l)

  encode_with_parent :
      (p : ShellLocationParent)
      → l.navigation_parent ≡ some p
      → encode_shell_location old l
        ≡ assign navigation_parent_key
            (object (
              encode_location_identity
                (object_or_empty (find_field navigation_parent_key named))
                p))
            named
  unfolding encode_shell_location
  encode_with_parent p e = rw (encode_shell_location, e) refl

  encode_without_parent :
      l.navigation_parent ≡ none
      → find_field navigation_parent_key named ≡ none
      → encode_shell_location old l ≡ named
  unfolding encode_shell_location
  encode_without_parent e f = rw (encode_shell_location, e) (rw f refl)

  encode_dropped_parent :
      (q : Fields)
      → l.navigation_parent ≡ none
      → find_field navigation_parent_key named ≡ some (object q)
      → encode_shell_location old l ≡ (
          if no_entries (without_identity q)
          then erase_field navigation_parent_key named
          else assign navigation_parent_key (object (without_identity q)) named)
  unfolding encode_shell_location
  encode_dropped_parent q e f = rw (encode_shell_location, e) (rw f refl)

  named_parent : find_field navigation_parent_key named ≡ find_field navigation_parent_key old
  unfolding encode_location_identity Text-discrete
  named_parent = simp find_field-assign

find_assigned : (k : Text) (v : Json) (place : Fields) → find_field k (assign k v place) ≡ some v
find_assigned k v place = find_field-assign k k v place ∙ rw (text_eq-same k) refl

find_erased : (k : Text) (place : Fields) → find_field k (erase_field k place) ≡ none
find_erased k place = find_field-erase_field k k place ∙ rw (text_eq-same k) refl

-- A location is read back from the fields that it was written as, given that the object that it was
-- written over has no other parent than an object.
pub decode_shell_location-encode :
    (old : Fields) (l : ShellLocation)
    → IsStorableLocation l
    → IsLocationObject old
    → decode_shell_location (encode_shell_location old l) ≡ some l
decode_shell_location-encode old l s o =
    let base = encode_location_identity-HasIdentity old (identity l) in
    let place = named old l in
    elim (Option-cases l.navigation_parent) [
      | inr (p, e) ↦
          let parent =
            encode_location_identity (object_or_empty (find_field navigation_parent_key place)) p in
          rw (encode_with_parent old l p e) (
            decode_shell_location-parts (assign navigation_parent_key (object parent) place) l
              (HasIdentity-assign (object parent) place (identity l) base) s.0
              (ap decode_parent (find_assigned navigation_parent_key (object parent) place)
                ∙ decode_parent-HasIdentity parent p
                    (encode_location_identity-HasIdentity
                      (object_or_empty (find_field navigation_parent_key place)) p)
                    (subst IsStorableParent e s.1)
                ∙ ap some (sym e)))
      | inl e ↦ elim o [
        | inl missing ↦
            let found = named_parent old l ∙ missing in
            rw (encode_without_parent old l e found) (
              decode_shell_location-parts place l base s.0
                (ap decode_parent found ∙ decode_parent-none ∙ ap some (sym e)))
        | inr (q, there) ↦
            rw (encode_dropped_parent old l q e (named_parent old l ∙ there))
              (elim (Bool-cases (no_entries (without_identity q))) [
                | inl bare ↦ rw bare (
                    decode_shell_location-parts (erase_field navigation_parent_key place) l
                      (HasIdentity-erase place (identity l) base) s.0
                      (ap decode_parent (find_erased navigation_parent_key place)
                        ∙ decode_parent-none
                        ∙ ap some (sym e)))
                | inr more ↦ rw more (
                    decode_shell_location-parts
                      (assign navigation_parent_key (object (without_identity q)) place) l
                      (HasIdentity-assign (object (without_identity q)) place (identity l) base) s.0
                      (ap decode_parent
                          (find_assigned navigation_parent_key (object (without_identity q)) place)
                        ∙ decode_parent-without_identity q
                        ∙ ap some (sym e)))
              ])
      ]
    ]
