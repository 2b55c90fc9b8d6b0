-- ===== src/Session/Placements.antt =====
-- The pinned locations and the window's placement in their fields.
use mathlib.Core.List.{append_assoc, append-nil}
use pane_dock.Common.{◌≡◌, refl, sym, ap, ◌∙◌, true, List, [], ◌∷◌, ◌++◌, some, Text, Text-discrete}
use pane_dock.Common.Int.{ℤ}
use pane_dock.Model.{ShellLocation, WindowPlacement, ApplicationState}
use pane_dock.Groups.{can_pin_location}
use pane_dock.Json.{Fields, boolean, number, find_field}
use pane_dock.Session.Words.{x_key, y_key, width_key, height_key, maximized_key}
use pane_dock.Session.Fields.{get_bool, get_number, of_int, integer}
use pane_dock.Session.Encode.{encode_placement}
use pane_dock.Session.Decode.{pin_all, decode_placement}
use pane_dock.Session.Lookup.{find_field-assign, IsInt, int_of-of_int}
use pane_dock.Session.Tabs.{field_as-found}

-- Locations that were pinned one by one.
abbrev pub ArePinned : List ShellLocation → List ShellLocation → Type 0
ArePinned known [] = Unit
ArePinned known (l ∷ ls) = (can_pin_location known l ≡ true) × ArePinned (known ++ l ∷ []) ls

pub pin_all-ArePinned :
    (a : ApplicationState) (ls : List ShellLocation)
    → ArePinned a.pinned_locations ls
    → pin_all a ls ≡ some (record a { pinned_locations = a.pinned_locations ++ ls })
unfolding pin_all
pin_all-ArePinned a [] h =
    ap (λ ps. some (record a { pinned_locations = ps })) (sym (append-nil a.pinned_locations))
pin_all-ArePinned a (l ∷ ls) h =
    let more = record a { pinned_locations = a.pinned_locations ++ l ∷ [] } in
    rw (pin_all, h.0)
      (pin_all-ArePinned more ls h.1
        ∙ ap (λ ps. some (record a { pinned_locations = ps }))
            (append_assoc a.pinned_locations (l ∷ []) ls))

pub integer-found :
    (key : Text) (place : Fields) (n : ℤ)
    → find_field key place ≡ some (number (of_int n))
    → IsInt n
    → integer key place ≡ some n
unfolding integer
integer-found key place n e h =
    rw (integer, field_as-found get_number key place (number (of_int n)) e) (int_of-of_int n h)

-- A placement of values of `int`.
abbrev pub IsStorablePlacement : WindowPlacement → Type 0
IsStorablePlacement w = IsInt w.x × IsInt w.y × IsInt w.width × IsInt w.height

record HasPlacement (place : Fields) (w : WindowPlacement) : Type 0 where
  x : find_field x_key place ≡ some (number (of_int w.x))
  y : find_field y_key place ≡ some (number (of_int w.y))
  width : find_field width_key place ≡ some (number (of_int w.width))
  height : find_field height_key place ≡ some (number (of_int w.height))
  maximized : find_field maximized_key place ≡ some (boolean w.maximized)

encode_placement-HasPlacement :
    (old : Fields) (w : WindowPlacement) → HasPlacement (encode_placement old w) w
unfolding encode_placement Text-discrete
encode_placement-HasPlacement old w = record {
  x = simp find_field-assign;
  y = simp find_field-assign;
  width = simp find_field-assign;
  height = simp find_field-assign;
  maximized = simp find_field-assign;
}

decode_placement-HasPlacement :
    (place : Fields) (w : WindowPlacement)
    → HasPlacement place w
    → IsStorablePlacement w
    → decode_placement place ≡ some w
unfolding decode_placement
decode_placement-HasPlacement place w h s =
    rw
      (
        decode_placement,
        integer-found x_key place w.x h.x s.0,
        integer-found y_key place w.y h.y s.1,
        integer-found width_key place w.width h.width s.2,
        integer-found height_key place w.height h.height s.3,
        field_as-found get_bool maximized_key place (boolean w.maximized) h.maximized,
      )
      refl

pub decode_placement-encode :
    (old : Fields) (w : WindowPlacement)
    → IsStorablePlacement w
    → decode_placement (encode_placement old w) ≡ some w
decode_placement-encode old w s =
    decode_placement-HasPlacement (encode_placement old w) w (encode_placement-HasPlacement old w) s
