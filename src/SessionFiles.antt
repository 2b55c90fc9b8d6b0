-- ===== src/SessionFiles.antt =====
-- src/core/session.cpp, `read_file`, `write_session` and `read_session`: the three files of a session.
--
-- A directory holds for each of the names `session.json`, `session.json.tmp` and `session.json.bak` a text
-- or no file. Every operation of the file system can fail; what fails in a run is a record, so that a
-- theorem speaks of every choice of failures. A rename replaces its target in one step or leaves both
-- files as they were. `write_session` gives the directories that it passes through, since a crash can
-- leave any of them. The codec of documents is an interface.
pub mod Passing
pub mod Atomic
pub mod Written
pub mod Recovery
pub mod Damage
mod Tests
use pane_dock.Common.{
  Bool, true, false, ◌&&◌, ◌||◌, List, [], ◌∷◌, ◌++◌, map, Option, none, some, ◌≡◌, Text,
  if◌then◌else◌, not,
}

-- `serialize_session` and `deserialize_session`, on documents of some type. `read_back` is a document as
-- it is read again: its application and its flag, with the text that it was read from to preserve. A file can
-- hold those that are storable.
pub record SessionCodec (Document : Type 0) : Type 1 where
  pub serialize : Document → Text
  pub deserialize : Text → Option Document
  pub read_back : Document → Document
  pub IsStorable : Document → Type 0
  pub deserialize-serialize :
      (d : Document) → IsStorable d → deserialize (serialize d) ≡ some (read_back d)

pub record Directory : Type 0 where
  pub primary : Option Text
  pub temporary : Option Text
  pub backup : Option Text

-- What fails in a call of `write_session`: each operation of the file system in turn, the stream with the
-- text that it leaves, and the hook. `partial` are the texts that the temporary file holds while it
-- is written.
pub record WriteFaults : Type 0 where
  pub create : Bool
  pub stale : Bool
  pub opening : Bool
  pub partial : List Text
  pub torn : Option Text
  pub durability : Bool
  pub primary_unreadable : Bool
  pub rotate : Bool
  pub publish : Bool
  pub restore : Bool
  pub cleanup : Bool

-- The directories that a call passes through up to its end, the last one, and what it returns.
pub record Attempt : Type 0 where
  pub seen : List Directory
  pub final : Directory
  pub written : Bool

abbrev pub stops : Directory → Bool → Attempt
stops d ok = record { seen = d ∷ []; final = d; written = ok }

-- Directories passed before the others.
abbrev pub passing : List Directory → Attempt → Attempt
passing ds a = record a { seen = ds ++ a.seen }

-- The removal of the temporary file on the way out; its own failure is ignored.
abbrev pub cleaned : WriteFaults → Directory → Attempt
cleaned faults d =
    if faults.cleanup
    then stops d false
    else passing (d ∷ []) (stops (record d { temporary = none }) false)

-- `rename(from, to)` of the temporary file to the primary, of the primary to the backup, and back.
abbrev pub publish_temporary : Directory → Directory
publish_temporary d = record d { primary = d.temporary; temporary = none }

abbrev pub rotate_primary : Directory → Directory
rotate_primary d = record d { primary = none; backup = d.primary }

abbrev pub restore_backup : Directory → Directory
restore_backup d = record d { primary = d.backup; backup = none }

-- Which file a document was read from.
pub data SessionSource : Type 0 where
  from_primary interrupted_write from_backup default_state : SessionSource

-- What fails in a call of `read_session`: the tests on the directory and the files, and the streams.
pub record ReadFaults : Type 0 where
  pub directory_status : Bool
  pub primary_status : Bool
  pub backup_status : Bool
  pub temporary_status : Bool
  pub primary_unreadable : Bool
  pub temporary_unreadable : Bool
  pub backup_unreadable : Bool

pub record ReadResult (Document : Type 0) : Type 0 where
  pub document : Option Document
  pub source : SessionSource
  pub recovered_from_corruption : Bool

abbrev pub exists : Option Text → Bool
exists none = false
exists (some t) = true

module _ {Document : Type 0} (codec : SessionCodec Document) where
  -- `unreadable` is a file that does not open or a stream that goes bad.
  unfoldable pub read_file : Bool → Option Text → Option Document
  read_file unreadable none = none
  read_file unreadable (some t) = if unreadable then none else codec.deserialize t

  -- The last rename, with what a failure of it undoes.
  unfoldable pub publish_file : WriteFaults → Bool → Directory → Attempt
  publish_file faults rotated d =
      if not faults.publish
      then stops (publish_temporary d) true
      else if rotated
      then if faults.restore
        then stops d false
        else passing (d ∷ []) (cleaned faults (restore_backup d))
      else cleaned faults d

  -- The renames, once the temporary file is complete and durable.
  unfoldable pub rotate_files : WriteFaults → Directory → Attempt
  unfolding read_file publish_file
  rotate_files faults d = elim (read_file faults.primary_unreadable d.primary) [
    | none ↦ publish_file faults false d
    | some document ↦
        if faults.rotate
        then cleaned faults d
        else passing (d ∷ []) (publish_file faults true (rotate_primary d))
  ]

  -- The stream and the hook.
  unfoldable pub fill_temporary : WriteFaults → Document → Directory → Attempt
  unfolding rotate_files
  fill_temporary faults document d =
      let passed = map (λ t. record d { temporary = some t }) faults.partial in
      let full = record d { temporary = some (codec.serialize document) } in
      elim faults.torn [
        | some left ↦ passing passed (cleaned faults (record d { temporary = some left }))
        | none ↦
            if faults.durability
            then passing passed (cleaned faults full)
            else passing passed (rotate_files faults full)
      ]

  unfoldable pub write_session : WriteFaults → Document → Directory → Attempt
  unfolding fill_temporary
  write_session faults document d =
      let clear = record d { temporary = none } in
      if faults.create || faults.stale
      then stops d false
      else if faults.opening
      then passing (d ∷ []) (stops clear false)
      else passing (d ∷ clear ∷ []) (fill_temporary faults document clear)

  -- The last resort: no document, and whether there was one to lose.
  abbrev pub fall_back : ReadFaults → Directory → ReadResult Document
  fall_back faults d = record {
    document = none;
    source = default_state;
    recovered_from_corruption =
        (not faults.primary_status && exists d.primary)
        || (not faults.backup_status && exists d.backup)
        || (not faults.temporary_status && exists d.temporary)
        || faults.primary_status
        || faults.backup_status
        || faults.temporary_status;
  }

  -- `none` stands for the caller's default.
  unfoldable pub read_session : ReadFaults → Directory → ReadResult Document
  unfolding read_file
  read_session faults d =
      if faults.directory_status
      then record { document = none; source = default_state; recovered_from_corruption = true }
      else elim (read_file (faults.primary_status || faults.primary_unreadable) d.primary) [
        | some document ↦ record {
          document = some document;
          source = from_primary;
          recovered_from_corruption = false;
        }
        | none ↦ elim (read_file faults.temporary_unreadable d.temporary) [
          | some document ↦ record {
            document = some document;
            source = interrupted_write;
            recovered_from_corruption = false;
          }
          | none ↦ elim (read_file (faults.backup_status || faults.backup_unreadable) d.backup) [
            | some document ↦ record {
              document = some document;
              source = from_backup;
              recovered_from_corruption = true;
            }
            | none ↦ fall_back faults d
          ]
        ]
      ]
