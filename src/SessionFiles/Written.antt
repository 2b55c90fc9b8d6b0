-- ===== src/SessionFiles/Written.antt =====
-- What the result of `write_session` promises, and what a reader finds behind it.
use pane_dock.Common.{
  ◌≡◌, refl, sym, subst, Bool, true, false, ◌||◌, none, Bool-cases, Option-cases, inl, inr,
}
use pane_dock.SessionFiles.{
  SessionCodec, Directory, WriteFaults, Attempt, cleaned, publish_temporary, rotate_primary,
  restore_backup, read_file, publish_file, rotate_files, fill_temporary, write_session,
  read_session, from_primary,
}
use pane_dock.SessionFiles.Passing.{cleared, holding, rotate_files-kept, rotate_files-rotated}
use pane_dock.SessionFiles.Atomic.{calm, outcome, read_session-primary, read_file-serialize}

-- A call that returns true leaves a directory with some property.
abbrev Promises : (Directory → Type 0) → Attempt → Type 0
Promises P a = a.written ≡ true → P a.final

cleaned-Promises :
    (P : Directory → Type 0) (faults : WriteFaults) (d : Directory) → Promises P (cleaned faults d)
cleaned-Promises P faults d = elim (Bool-cases faults.cleanup) [
  | inl e ↦ rw e λ w. absurd cc
  | inr e ↦ rw e λ w. absurd cc
]

module _ {Document : Type 0} (codec : SessionCodec Document) where
  publish_file-Promises :
      (P : Directory → Type 0) (faults : WriteFaults) (rotated : Bool) (d : Directory)
      → P (publish_temporary d)
      → Promises P (publish_file codec faults rotated d)
  unfolding publish_file
  publish_file-Promises P faults rotated d h = elim (Bool-cases faults.publish) [
    | inr e ↦ rw e λ w. h
    | inl e ↦ elim (Bool-cases rotated) [
      | inr r ↦ rw (e, r) (cleaned-Promises P faults d)
      | inl r ↦ elim (Bool-cases faults.restore) [
        | inl f ↦ rw (e, r, f) λ w. absurd cc
        | inr f ↦ rw (e, r, f) (cleaned-Promises P faults (restore_backup d))
      ]
    ]
  ]

  rotate_files-Promises :
      (P : Directory → Type 0) (faults : WriteFaults) (d : Directory)
      → P (publish_temporary d)
      → P (publish_temporary (rotate_primary d))
      → Promises P (rotate_files codec faults d)
  rotate_files-Promises P faults d h r =
      elim (Option-cases (read_file codec faults.primary_unreadable d.primary)) [
        | inl e ↦
            subst (Promises P) (sym (rotate_files-kept codec faults d e))
              (publish_file-Promises P faults false d h)
        | inr (old, e) ↦
            subst (Promises P) (sym (rotate_files-rotated codec faults d old e))
              (elim (Bool-cases faults.rotate) [
                | inl f ↦ simp f (cleaned-Promises P faults d)
                | inr f ↦ simp f (publish_file-Promises P faults true (rotate_primary d) r)
              ])
      ]

  fill_temporary-Promises :
      (P : Directory → Type 0) (faults : WriteFaults) (new : Document) (d : Directory)
      → P (publish_temporary (holding (codec.serialize new) d))
      → P (publish_temporary (rotate_primary (holding (codec.serialize new) d)))
      → Promises P (fill_temporary codec faults new d)
  unfolding fill_temporary
  fill_temporary-Promises P faults new d h r =
      let full = holding (codec.serialize new) d in
      elim (Option-cases faults.torn) [
        | inr (left, e) ↦ rw e (cleaned-Promises P faults (holding left d))
        | inl e ↦ elim (Bool-cases faults.durability) [
          | inl f ↦ rw (e, f) (cleaned-Promises P faults full)
          | inr f ↦ rw (e, f) (rotate_files-Promises P faults full h r)
        ]
      ]

  write_session-Promises :
      (P : Directory → Type 0) (faults : WriteFaults) (new : Document) (d : Directory)
      → P (publish_temporary (holding (codec.serialize new) d))
      → P (publish_temporary (rotate_primary (holding (codec.serialize new) d)))
      → Promises P (write_session codec faults new d)
  unfolding write_session
  write_session-Promises P faults new d h r = elim (Bool-cases (faults.create || faults.stale)) [
    | inl e ↦ rw e λ w. absurd cc
    | inr e ↦ elim (Bool-cases faults.opening) [
      | inl f ↦ rw (e, f) λ w. absurd cc
      | inr f ↦ rw (e, f) (fill_temporary-Promises P faults new (cleared d) h r)
    ]
  ]

  -- A call of `write_session` with a document that a file can hold that returns true, on any directory and
  -- whatever else failed in it, leaves a directory where a reader for whom nothing fails finds the new document,
  -- as it is read back, in the primary, with no warning, and no temporary file.
  pub write_session-written :
      (faults : WriteFaults) (new : Document) (d : Directory)
      → codec.IsStorable new
      → (write_session codec faults new d).written ≡ true
      → (read_session codec calm (write_session codec faults new d).final
          ≡ outcome codec (codec.read_back new) from_primary false)
        × ((write_session codec faults new d).final.temporary ≡ none)
  write_session-written faults new d s =
      let full = holding (codec.serialize new) (cleared d) in
      write_session-Promises
        (λ e.
          (read_session codec calm e ≡ outcome codec (codec.read_back new) from_primary false)
          × (e.temporary ≡ none))
        faults new d
        (
          read_session-primary codec (publish_temporary full) (codec.read_back new)
              (read_file-serialize codec new s),
          refl,
        )
        (
          read_session-primary codec (publish_temporary (rotate_primary full)) (codec.read_back new)
              (read_file-serialize codec new s),
          refl,
        )
