-- ===== src/SessionFiles/Tests.antt =====
-- Runs on a directory of short texts: a document is a text, written behind a brace.
use pane_dock.Common.{
  ◌≡◌, refl, true, false, [], ◌∷◌, Option, none, some, Text, All, ◌==◌, if◌then◌else◌, ◌⊎◌, inl,
}
use pane_dock.SessionFiles.{
  SessionCodec, Directory, WriteFaults, ReadFaults, from_primary, from_backup, read_file,
  write_session, read_session,
}
use pane_dock.SessionFiles.Atomic.{calm, outcome, Finds, write_session-IsAtomic}
use pane_dock.SessionFiles.Written.{write_session-written}
use pane_dock.SessionFiles.Recovery.{
  Reached, untouched, after_write, IsHarmlessRun, Among, read_session-Reached,
}

abbrev read_braced : Text → Option Text
read_braced [] = none
read_braced (c ∷ t) = if c == 0x7b then some t else none

abbrev braced : SessionCodec Text
braced = record {
  serialize = λ t. 0x7b ∷ t;
  deserialize = read_braced;
  read_back = λ t. t;
  IsStorable = λ t. Unit;
  deserialize-serialize = λ t s. refl;
}

abbrev old_directory : Directory
old_directory = record { primary = some (0x7b ∷ 1 ∷ []); temporary = some (9 ∷ []); backup = none }

abbrev no_faults : WriteFaults
no_faults = record {
  create = false;
  stale = false;
  opening = false;
  partial = [] ∷ (0x7b ∷ 7 ∷ []) ∷ [];
  torn = none;
  durability = false;
  primary_unreadable = false;
  rotate = false;
  publish = false;
  restore = false;
  cleanup = false;
}

-- Neither the last rename nor the one that undoes the first.
abbrev stuck : WriteFaults
stuck = record no_faults { partial = [] ∷ []; publish = true; restore = true }

-- The old document becomes the backup.
written_directory :
    (write_session braced no_faults (2 ∷ []) old_directory).final
    ≡ record { primary = some (0x7b ∷ 2 ∷ []); temporary = none; backup = some (0x7b ∷ 1 ∷ []) }
unfolding write_session
written_directory = refl

-- The newest document stays in the temporary file.
stuck_directory :
    (write_session braced stuck (2 ∷ []) old_directory).final
    ≡ record { primary = none; temporary = some (0x7b ∷ 2 ∷ []); backup = some (0x7b ∷ 1 ∷ []) }
unfolding write_session
stuck_directory = refl

old_primary : read_file braced false old_directory.primary ≡ some (1 ∷ [])
unfolding read_file
old_primary = refl

write_session-IsAtomic_example :
    All
      (λ e. Finds braced (1 ∷ []) e ⊎ Finds braced (2 ∷ []) e)
      (write_session braced no_faults (2 ∷ []) old_directory).seen
write_session-IsAtomic_example =
    write_session-IsAtomic braced no_faults (1 ∷ []) (2 ∷ []) old_directory tt old_primary

returns_true : (write_session braced no_faults (2 ∷ []) old_directory).written ≡ true
unfolding write_session
returns_true = refl

write_session-written_example :
    (read_session braced calm (write_session braced no_faults (2 ∷ []) old_directory).final
      ≡ outcome braced (2 ∷ []) from_primary false)
    × ((write_session braced no_faults (2 ∷ []) old_directory).final.temporary ≡ none)
write_session-written_example =
    write_session-written braced no_faults (2 ∷ []) old_directory tt returns_true

-- The first write gets stuck between the renames, and the second one is cut off behind the removal of the
-- temporary file that the first one left.
abbrev between : Directory
between = record { primary = none; temporary = some (0x7b ∷ 2 ∷ []); backup = some (0x7b ∷ 1 ∷ []) }

abbrev swept : Directory
swept = record between { temporary = none }

harmless : (document : Text) → IsHarmlessRun braced stuck document
harmless document = ((inl refl, tt), λ t e. absurd cc)

swept-Reached : Reached braced old_directory ((3 ∷ []) ∷ (2 ∷ []) ∷ []) swept
unfolding write_session
swept-Reached =
    after_write ((2 ∷ []) ∷ []) between stuck (3 ∷ []) 1 swept
      (after_write [] old_directory stuck (2 ∷ []) 4 between untouched tt (harmless (2 ∷ [])) refl)
      tt (harmless (3 ∷ [])) refl

-- The reader then falls back on the backup: the second document is lost, the first one is not.
swept_reading :
    read_session braced calm swept
    ≡ record (outcome braced (1 ∷ []) from_backup false) { recovered_from_corruption = true }
unfolding read_session
swept_reading = refl

read_session-Reached_example :
    (x : Text) × ((read_session braced calm swept).document ≡ some x)
    × Among braced x ((1 ∷ []) ∷ (3 ∷ []) ∷ (2 ∷ []) ∷ [])
read_session-Reached_example =
    read_session-Reached braced old_directory (1 ∷ []) old_primary ((3 ∷ []) ∷ (2 ∷ []) ∷ []) swept
      swept-Reached

-- A primary that does not parse.
abbrev damaged : Directory
damaged = record { primary = some (5 ∷ []); temporary = none; backup = some (0x7b ∷ 1 ∷ []) }

damaged_primary : read_file braced false damaged.primary ≡ none
unfolding read_file
damaged_primary = refl

-- Neither the primary's test nor the backup's stream works.
abbrev locked : ReadFaults
locked = record calm { primary_status = true; backup_unreadable = true }
