-- ===== src/FreshNames/Tests.antt =====
-- Names made up for the sample application. A number is written as ones.
use pane_dock.Common.{
  ℕ, zero, suc, ◌≡◌, ◌≤◌, ◌<◌, refl, sym, ap, ◌∙◌, true, false, [], ◌∷◌, ◌++◌, none, some, Text,
  Text-discrete, length,
}
use pane_dock.Ids.{has_id}
use pane_dock.Model.{ApplicationState, group_id}
use pane_dock.Model.Samples.{first_group, application}
use pane_dock.Json.Parse.{behind}
use pane_dock.FreshNames.{
  group_prefix, tab_taken, tab_name, is_blank, id_number, next_tab_id, next_group_id,
  normalize_group_name,
}
use pane_dock.FreshNames.Fresh.{next_tab_id-IsFresh, next_group_id-IsFresh}

unfoldable ones : ℕ → Text
ones zero = []
ones (suc n) = 0x31 ∷ ones n

length-ones : (n : ℕ) → length (ones n) ≡ n
unfolding ones
length-ones zero = refl
length-ones (suc n) = ap suc (length-ones n)

ones-inj : (i j : ℕ) → ones i ≡ ones j → i ≡ j
ones-inj i j e = sym (length-ones i) ∙ ap length e ∙ length-ones j

-- A group whose id is the greatest number of the type, and one whose id spells none.
abbrev numbered : Text → ApplicationState
numbered suffix = record application {
  groups = record first_group { id = group_prefix ++ suffix } ∷ [];
}

number_too_large :
    id_number (
      0x31 ∷ 0x38 ∷ 0x34 ∷ 0x34 ∷ 0x36 ∷ 0x37 ∷ 0x34 ∷ 0x34 ∷ 0x30 ∷ 0x37 ∷ 0x33 ∷ 0x37 ∷ 0x30
      ∷ 0x39 ∷ 0x35 ∷ 0x35 ∷ 0x31 ∷ 0x36 ∷ 0x31 ∷ 0x36 ∷ [])
    ≡ none
unfolding id_number
number_too_large = refl

-- After `group-11` comes the number twelve, after `group-x` the time stamp.
next_id : next_group_id ones (numbered (0x31 ∷ 0x31 ∷ [])) [] ≡ some (group_prefix ++ ones 12)
unfolding next_group_id ones Text-discrete behind
next_id = refl

stamped_next_id :
    next_group_id ones (numbered (0x78 ∷ [])) (0x39 ∷ []) ≡ some (group_prefix ++ 0x39 ∷ [])
unfolding next_group_id Text-discrete behind
stamped_next_id = refl

-- A space, a letter, a space, a letter, a tab.
abbrev padded : Text
padded = 0x20 ∷ 0x61 ∷ 0x20 ∷ 0x62 ∷ 0x09 ∷ []

normalized : normalize_group_name padded ≡ 0x61 ∷ 0x20 ∷ 0x62 ∷ []
unfolding normalize_group_name is_blank
normalized = refl

next_tab_id-IsFresh_example :
    (k : ℕ) × (next_tab_id ones first_group 1 ≡ some (tab_name ones k, suc k))
    × (1 ≤ k)
    × (tab_taken first_group (tab_name ones k) ≡ false)
    × ((j : ℕ) → 1 ≤ j → j < k → tab_taken first_group (tab_name ones j) ≡ true)
next_tab_id-IsFresh_example = next_tab_id-IsFresh ones ones-inj first_group 1

next_group_id-IsFresh_example :
    (id : Text) × (next_group_id ones (numbered (0x78 ∷ [])) (0x39 ∷ []) ≡ some id)
    × (has_id group_id id (numbered (0x78 ∷ [])).groups ≡ false)
next_group_id-IsFresh_example =
    next_group_id-IsFresh ones ones-inj (numbered (0x78 ∷ [])) (0x39 ∷ [])
