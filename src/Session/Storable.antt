-- ===== src/Session/Storable.antt =====
-- What `decode` reads of a location: its names, its flag and its parent.
use pane_dock.Common.{
  ◌≡◌, subst, true, List, Option, none, some, Text, All, if◌then◌else◌, Bool-cases, inl, inr,
}
use mathlib.Core.Option.{some_inj}
use pane_dock.Ids.{is_empty}
use pane_dock.Model.{ShellLocation, ShellLocationParent}
use pane_dock.Unicode.{wide}
use pane_dock.Unicode.Units.{wide-IsName}
use pane_dock.Json.{Json, Items, Fields, no_items, item, find_field}
use pane_dock.Session.Words.{
  parsing_name_key, known_folder_identity_key, fallback_path_key, namespace_location_key,
  navigation_parent_key,
}
use pane_dock.Session.Fields.{get_text, get_object, field_as}
use pane_dock.Session.Decode.{
  field_flag, decode_identity, has_identity, decode_known_parent, decode_parent,
  decode_shell_location, decode_all, field_name,
}
use pane_dock.Session.Locations.{IsName, IsIdentity, IsStorableParent, IsStorableLocation}
use pane_dock.Session.Read.{bind-some}

-- Every element of a list that is decoded.
pub decode_all-All :
    {A : Type 0} (decode_one : Fields → Option A) (Q : A → Type 0)
    → ((place : Fields) (x : A) → decode_one place ≡ some x → Q x)
    → (items : Items) (xs : List A) → decode_all decode_one items ≡ some xs
    → All Q xs
unfolding decode_all
decode_all-All decode_one Q f no_items xs h = subst (All Q) (some_inj.0 h) tt
decode_all-All decode_one Q f (item j items) xs h =
    let (place, e, h1) = bind-some (get_object j) _ xs h in
    let (x, g, h2) = bind-some (decode_one place) _ xs h1 in
    let (rest, k, h3) = bind-some (decode_all decode_one items) _ xs h2 in
    subst (All Q) (some_inj.0 h3) (f place x g, decode_all-All decode_one Q f items rest k)

pub field_name-IsName :
    (key : Text) (place : Fields) (t : Text) → field_name key place ≡ some t → IsName t
unfolding field_name
field_name-IsName key place t h =
    let (bytes, e, f) = bind-some (field_as get_text key place) wide t h in wide-IsName bytes t f

decode_identity-IsIdentity :
    (place : Fields) (p : ShellLocationParent) → decode_identity place ≡ some p → IsIdentity p
unfolding decode_identity
decode_identity-IsIdentity place p h =
    let (parsing, e1, h1) = bind-some (field_name parsing_name_key place) _ p h in
    let (known, e2, h2) = bind-some (field_name known_folder_identity_key place) _ p h1 in
    let (fallback, e3, h3) = bind-some (field_name fallback_path_key place) _ p h2 in
    let (flag, e4, h4) = bind-some (field_flag namespace_location_key place) _ p h3 in
    subst IsIdentity (some_inj.0 h4) (
      field_name-IsName parsing_name_key place parsing e1,
      field_name-IsName known_folder_identity_key place known e2,
      field_name-IsName fallback_path_key place fallback e3,
    )

decode_known_parent-IsStorableParent :
    (place : Fields) (p : Option ShellLocationParent)
    → decode_known_parent place ≡ some p
    → IsStorableParent p
unfolding decode_known_parent
decode_known_parent-IsStorableParent place p h =
    let (q, e, h1) = bind-some (decode_identity place) _ p h in
    let named : is_empty q.parsing_name ≡ true → IsStorableParent p = λ b.
      let never = subst (λ c. (if c then none else some (some q)) ≡ some p) b h1 in absurd cc in
    elim (Bool-cases (is_empty q.parsing_name)) [
      | inl b ↦ named b
      | inr b ↦
          subst IsStorableParent
            (some_inj.0 (subst (λ c. (if c then none else some (some q)) ≡ some p) b h1))
            (decode_identity-IsIdentity place q e, b)
    ]

decode_parent-IsStorableParent :
    (o : Option Json) (p : Option ShellLocationParent)
    → decode_parent o ≡ some p
    → IsStorableParent p
unfolding decode_parent
decode_parent-IsStorableParent none p h = subst IsStorableParent (some_inj.0 h) tt
decode_parent-IsStorableParent (some j) p h =
    let (parent, e, h1) = bind-some (get_object j) _ p h in
    let (flag, f, h2) = bind-some (field_flag namespace_location_key parent) _ p h1 in
    elim (Bool-cases (has_identity parent)) [
      | inl b ↦
          decode_known_parent-IsStorableParent parent p
            (subst (λ c. (if c then decode_known_parent parent else some none) ≡ some p) b h2)
      | inr b ↦
          subst IsStorableParent
            (some_inj.0
              (subst (λ c. (if c then decode_known_parent parent else some none) ≡ some p) b h2))
            tt
    ]

pub decode_shell_location-IsStorableLocation :
    (place : Fields) (l : ShellLocation)
    → decode_shell_location place ≡ some l
    → IsStorableLocation l
unfolding decode_shell_location
decode_shell_location-IsStorableLocation place l h =
    let (own, e, h1) = bind-some (decode_identity place) _ l h in
    let (parent, f, h2) =
      bind-some (decode_parent (find_field navigation_parent_key place)) _ l h1 in
    subst IsStorableLocation (some_inj.0 h2) (
      decode_identity-IsIdentity place own e,
      decode_parent-IsStorableParent (find_field navigation_parent_key place) parent f,
    )
