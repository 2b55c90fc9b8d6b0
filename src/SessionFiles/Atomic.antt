-- ===== src/SessionFiles/Atomic.antt =====
-- `write_session` against a crash at any point: a reader finds the document from before or the new one.
use pane_dock.Common.{
  ◌≡◌, refl, ap, ◌∙◌, Bool, true, false, List, [], ◌∷◌, none, some, Text, All, ◌⊎◌, inl, inr,
}
use pane_dock.SessionFiles.{
  SessionCodec, Directory, WriteFaults, ReadFaults, ReadResult, SessionSource, from_primary,
  interrupted_write, from_backup, publish_temporary, rotate_primary, restore_backup, read_file,
  write_session, read_session,
}
use pane_dock.SessionFiles.Passing.{cleared, holding, write_session-All}

-- A reader for whom nothing fails.
abbrev pub calm : ReadFaults
calm = record {
  directory_status = false;
  primary_status = false;
  backup_status = false;
  temporary_status = false;
  primary_unreadable = false;
  temporary_unreadable = false;
  backup_unreadable = false;
}

All-same : (P : Text → Type 0) (ts : List Text) → ((t : Text) → P t) → All P ts
All-same P [] h = tt
All-same P (t ∷ ts) h = (h t, All-same P ts h)

module _ {Document : Type 0} (codec : SessionCodec Document) where
  abbrev pub outcome : Document → SessionSource → Bool → ReadResult Document
  outcome document source recovered = record {
    document = some document;
    source = source;
    recovered_from_corruption = recovered;
  }

  pub read_session-primary :
      (d : Directory) (document : Document)
      → read_file codec false d.primary ≡ some document
      → read_session codec calm d ≡ outcome document from_primary false
  unfolding read_session
  read_session-primary d document e = rw (read_session, e) refl

  pub read_session-interrupted :
      (d : Directory) (document : Document)
      → read_file codec false d.primary ≡ none
      → read_file codec false d.temporary ≡ some document
      → read_session codec calm d ≡ outcome document interrupted_write false
  unfolding read_session
  read_session-interrupted d document p e = rw (read_session, p) (rw e refl)

  pub read_session-backup :
      (d : Directory) (document : Document)
      → read_file codec false d.primary ≡ none
      → read_file codec false d.temporary ≡ none
      → read_file codec false d.backup ≡ some document
      → read_session codec calm d ≡ outcome document from_backup true
  unfolding read_session
  read_session-backup d document p t e = rw (read_session, p) (rw t (rw e refl))

  -- What a reader finds without a word to the user.
  abbrev pub Finds : Document → Directory → Type 0
  Finds document d =
      (read_session codec calm d ≡ outcome document from_primary false)
      ⊎ (read_session codec calm d ≡ outcome document interrupted_write false)

  pub read_file-serialize :
      (document : Document)
      → codec.IsStorable document
      → read_file codec false (some (codec.serialize document)) ≡ some (codec.read_back document)
  unfolding read_file
  read_file-serialize document s = codec.deserialize-serialize document s

  pub read_file_missing : (unreadable : Bool) → read_file codec unreadable none ≡ none
  unfolding read_file
  read_file_missing unreadable = refl

  -- Where the primary holds a document, every directory that a call with a document that a file can hold passes
  -- through, whatever fails and whatever the temporary file holds while it is written, gives a reader for whom
  -- nothing fails the old document, or the new one as it is read back, from the primary or as an interrupted
  -- write, with no warning.
  pub write_session-IsAtomic :
      (faults : WriteFaults) (old new : Document) (d : Directory)
      → codec.IsStorable new
      → read_file codec false d.primary ≡ some old
      → All
          (λ e. Finds old e ⊎ Finds (codec.read_back new) e)
          (write_session codec faults new d).seen
  write_session-IsAtomic faults old new d s h =
      let full = holding (codec.serialize new) d in
      let kept : (e : Directory)
          → e.primary ≡ d.primary
          → Finds old e ⊎ Finds (codec.read_back new) e =
        λ e same. inl (inl (read_session-primary e old (ap (read_file codec false) same ∙ h))) in
      write_session-All codec (λ e. Finds old e ⊎ Finds (codec.read_back new) e) faults new d
        (record {
          before = kept d refl;
          clear = kept (cleared d) refl;
          partly =
              All-same (λ t. Finds old (holding t d) ⊎ Finds (codec.read_back new) (holding t d))
                faults.partial (λ t. kept (holding t d) refl);
          torn = λ t e. kept (holding t d) refl;
          full = kept full refl;
          published = λ e. inr (
              inl (
                read_session-primary (publish_temporary full) (codec.read_back new)
                  (read_file-serialize new s)));
          rotated = λ document e. (
            inr (
                inr (
                  read_session-interrupted (rotate_primary full) (codec.read_back new)
                    (read_file_missing false) (read_file-serialize new s))),
            inr (
                inl (
                  read_session-primary (publish_temporary (rotate_primary full))
                    (codec.read_back new) (read_file-serialize new s))),
            kept (restore_backup (rotate_primary full)) refl,
            kept (cleared (restore_backup (rotate_primary d))) refl,
          );
        })
