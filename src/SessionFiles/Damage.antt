-- ===== src/SessionFiles/Damage.antt =====
-- A damaged primary, and a reader that finds nothing.
use pane_dock.Common.{
  ◌≡◌, refl, Bool, false, ◌||◌, List, [], ◌∷◌, Option, none, some, Text, All, if◌then◌else◌, true,
}
use pane_dock.SessionFiles.{
  SessionCodec, Directory, WriteFaults, ReadFaults, ReadResult, default_state, from_primary,
  from_backup, interrupted_write, read_file, write_session,
}
use pane_dock.SessionFiles.Passing.{holding, write_session-All}
use pane_dock.SessionFiles.Atomic.{outcome}

module _ {Document : Type 0} (codec : SessionCodec Document) where
  -- A call of `write_session` that cannot read a document from the primary leaves the backup as it was, in
  -- every directory that it passes through.
  pub write_session-backup :
      (faults : WriteFaults) (new : Document) (d : Directory)
      → read_file codec faults.primary_unreadable d.primary ≡ none
      → All (λ e. e.backup ≡ d.backup) (write_session codec faults new d).seen
  write_session-backup faults new d h =
      write_session-All codec (λ e. e.backup ≡ d.backup) faults new d
        (record {
          before = refl;
          clear = refl;
          partly = All-same faults.partial;
          torn = λ t e. refl;
          full = refl;
          published = λ e. refl;
          rotated = λ old e. absurd cc;
        })
    where
      All-same : (ts : List Text) → All (λ t. (holding t d).backup ≡ d.backup) ts
      All-same [] = tt
      All-same (t ∷ ts) = (refl, All-same ts)

  -- What a reader gives, from the test on the directory, the three tries and the default.
  abbrev reads :
      Bool
      → Option Document
      → Option Document
      → Option Document
      → ReadResult Document
      → ReadResult Document
  reads faulty p t b r =
      if faulty
      then record { document = none; source = default_state; recovered_from_corruption = true }
      else elim p [
        | some x ↦ outcome codec x from_primary false
        | none ↦ elim t [
          | some x ↦ outcome codec x interrupted_write false
          | none ↦ elim b [ some x ↦ outcome codec x from_backup true | none ↦ r ]
        ]
      ]

  module _ (faults : ReadFaults) (d : Directory) where
    abbrev in_primary : Option Document
    in_primary = read_file codec (faults.primary_status || faults.primary_unreadable) d.primary

    abbrev in_temporary : Option Document
    in_temporary = read_file codec faults.temporary_unreadable d.temporary

    abbrev in_backup : Option Document
    in_backup = read_file codec (faults.backup_status || faults.backup_unreadable) d.backup
