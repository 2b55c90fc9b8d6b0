-- ===== src/BoundedLru/Tests.antt =====
-- Runs on a cache of numbers.
use pane_dock.Common.{◌⊎◌, ℕ, ◌≤◌, ◌<◌, Bool, true, false, [], ◌∷◌, some, ◌≡◌, refl, ◌==◌, arith}
use pane_dock.BoundedLru.{BoundedLru, admit, newest}
use pane_dock.BoundedLru.Laws.{IsBounded, admit-IsBounded}

abbrev held : BoundedLru ℕ
held = record {
  entries = record { value = 1; bytes = 4 } ∷ record { value = 2; bytes = 5 } ∷ [];
  bytes = 9;
  hits = 0;
  evictions = 0;
  limit = 10;
}

held-IsBounded : IsBounded held
held-IsBounded = record { measured = refl; fits = omega arith }

-- The oldest value makes room.
admits : admit held 3 4 ≡ (
  record held {
    entries = record { value = 2; bytes = 5 } ∷ record { value = 3; bytes = 4 } ∷ [];
    evictions = 1;
  },
  true,
)
unfolding admit
admits = refl

admit-IsBounded_example :
    IsBounded (admit held 3 4).0
    × (((4 ≤ held.limit) × ((admit held 3 4).1 ≡ true) × (newest (admit held 3 4).0 ≡ some 3))
        ⊎ ((held.limit < 4) × (admit held 3 4 ≡ (held, false))))
admit-IsBounded_example = admit-IsBounded held 3 4 held-IsBounded

abbrev is_two : ℕ → Bool
is_two n = n == 2
