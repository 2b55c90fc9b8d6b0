-- ===== src/FreshNames.antt =====
-- src/core/model.cpp, the names that are made up: `next_group_id`, `next_tab_id`, `next_group_name`, and
-- `normalize_group_name`.
--
-- `decimal` is `std::to_string` and `std::to_wstring`. The loops that look for a free name recur on
-- fuel, one more than the names in use; their counters stay below 2 ^ 64.
pub mod Search
pub mod Fresh
pub mod Trimmed
mod Tests
use mathlib.Core.Option
use pane_dock.Common.{
  ℕ, zero, suc, ◌+◌, ◌-◌, ◌*◌, ◌^◌, ◌%◌, max, Bool, true, false, ◌&&◌, ◌||◌, List, [], ◌∷◌, ◌++◌,
  Option, none, some, Text, text_eq, ltb, leb, ◌==◌, if◌then◌else◌, length, any, map, not,
}
use pane_dock.Ids.{has_id}
use pane_dock.Json.Parse.{behind}
use pane_dock.Model.{GroupState, PaneState, TabState, ApplicationState, group_id, tab_id}

abbrev pub tab_prefix : Text
tab_prefix = 0x74 ∷ 0x61 ∷ 0x62 ∷ 0x2d ∷ []

abbrev pub group_prefix : Text
group_prefix = 0x67 ∷ 0x72 ∷ 0x6f ∷ 0x75 ∷ 0x70 ∷ 0x2d ∷ []

abbrev pub name_prefix : Text
name_prefix = 0x47 ∷ 0x72 ∷ 0x6f ∷ 0x75 ∷ 0x70 ∷ 0x20 ∷ []

-- The first number from `i` on whose name is not taken.
unfoldable pub first_free : (Text → Bool) → (ℕ → Text) → ℕ → ℕ → Option ℕ
first_free taken name zero i = none
first_free taken name (suc fuel) i =
    let rest = first_free taken name fuel (suc i) in if taken (name i) then rest else some i

-- The ids of the tabs in a list of panes.
unfoldable pub tab_ids : List PaneState → List Text
tab_ids [] = []
tab_ids (p ∷ ps) = map tab_id p.tabs ++ tab_ids ps

abbrev pub tab_taken : GroupState → Text → Bool
tab_taken g t = any (λ pane. has_id tab_id t pane.tabs) g.panes

abbrev pub name_taken : ApplicationState → Text → Bool
name_taken a t = any (λ g. text_eq g.name t) a.groups

-- `find_first_not_of` and `substr`, from the front.
unfoldable pub is_blank : ℕ → Bool
is_blank c =
    (c == 0x20)
    || (c == 0x09)
    || (c == 0x0d)
    || (c == 0x0a)
    || (c == 0x0b)
    || (c == 0x0c)
    || (c == 0xa0)
    || (c == 0x3000)

unfoldable pub trim_front : Text → Text
trim_front [] = []
trim_front (c ∷ t) = if is_blank c then trim_front t else c ∷ t

-- `find_last_not_of`: the text up to its last character that is no blank. First, a character in front of
-- what is kept.
unfoldable pub keep_before : ℕ → Text → Text
keep_before c [] = if is_blank c then [] else c ∷ []
keep_before c (d ∷ t) = c ∷ d ∷ t

unfoldable pub trim_back : Text → Text
unfolding keep_before
trim_back [] = []
trim_back (c ∷ t) = keep_before c (trim_back t)

unfoldable pub normalize_group_name : Text → Text
unfolding trim_front trim_back
normalize_group_name name = trim_back (trim_front name)

-- The number that the characters behind the prefix spell, as `std::from_chars` reads a `std::size_t`: none
-- where one of them is no digit, where there is none, and where it is too large.
unfoldable pub number_from : ℕ → Text → Option ℕ
number_from value [] = some value
number_from value (c ∷ t) =
    let rest = number_from (value * 10 + (c - 0x30)) t in
    if leb 0x30 c && leb c 0x39 then rest else none

unfoldable pub in_size_t : Option ℕ → Option ℕ
in_size_t none = none
in_size_t (some n) = if ltb n (2 ^ 64) then some n else none

unfoldable pub id_number : Text → Option ℕ
unfolding number_from in_size_t
id_number [] = none
id_number (c ∷ t) = in_size_t (number_from 0 (c ∷ t))

-- The loop over the groups: the greatest of their numbers, `none` where an id is malformed.
unfoldable pub greatest_number : ℕ → List GroupState → Option ℕ
unfolding id_number
greatest_number maximum [] = some maximum
greatest_number maximum (g ∷ groups) = elim (behind group_prefix g.id) [
  | none ↦ greatest_number maximum groups
  | some suffix ↦ elim (id_number suffix) [
    | none ↦ none
    | some n ↦ greatest_number (max maximum n) groups
  ]
]

module _ (decimal : ℕ → Text) where
  abbrev pub tab_name : ℕ → Text
  tab_name i = tab_prefix ++ decimal i

  -- The id, and the index behind it.
  unfoldable pub next_tab_id : GroupState → ℕ → Option (Text × ℕ)
  unfolding first_free tab_ids
  next_tab_id g index =
      Option.map (λ i. (tab_name i, suc i))
        (first_free (tab_taken g) tab_name (suc (length (tab_ids g.panes))) index)

  abbrev pub group_name : ℕ → Text
  group_name i = name_prefix ++ decimal i

  unfoldable pub next_group_name : ApplicationState → Option Text
  unfolding first_free
  next_group_name a =
      Option.map group_name (first_free (name_taken a) group_name (suc (length a.groups)) 1)

  -- The time stamp, then the time stamp with a number behind it.
  abbrev pub stamped : Text → ℕ → Text
  stamped ticks zero = group_prefix ++ ticks
  stamped ticks (suc n) = (group_prefix ++ ticks) ++ 0x2d ∷ decimal (suc n)

  unfoldable pub stamped_id : ApplicationState → Text → Option Text
  unfolding first_free
  stamped_id a ticks =
      Option.map (stamped ticks)
        (first_free (λ t. has_id group_id t a.groups) (stamped ticks) (suc (length a.groups)) 0)

  -- `ticks` is the clock's time, written out.
  unfoldable pub next_group_id : ApplicationState → Text → Option Text
  unfolding greatest_number stamped_id
  next_group_id a ticks = elim (greatest_number 0 a.groups) [
    | none ↦ stamped_id a ticks
    | some n ↦
        let candidate = group_prefix ++ decimal ((n + 1) % 2 ^ 64) in
        if not (has_id group_id candidate a.groups) then some candidate else stamped_id a ticks
  ]
