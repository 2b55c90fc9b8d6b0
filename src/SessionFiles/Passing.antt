-- ===== src/SessionFiles/Passing.antt =====
-- What holds of every directory that `write_session` passes through, reduced to the directories that there
-- can be.
use pane_dock.Common.{
  ◌≡◌, refl, sym, subst, true, false, ◌||◌, List, [], ◌∷◌, map, none, some, Text, if◌then◌else◌,
  All, All-append, Bool-cases, Option-cases, inl, inr,
}
use pane_dock.SessionFiles.{
  SessionCodec, Directory, WriteFaults, passing, cleaned, publish_temporary, rotate_primary,
  restore_backup, read_file, publish_file, rotate_files, fill_temporary, write_session,
}

-- A directory with its temporary file removed, or holding a text.
abbrev pub cleared : Directory → Directory
cleared d = record d { temporary = none }

abbrev pub holding : Text → Directory → Directory
holding t d = record d { temporary = some t }

All-map :
    (P : Directory → Type 0) (f : Text → Directory) (ts : List Text)
    → All (λ t. P (f t)) ts
    → All P (map f ts)
All-map P f [] h = tt
All-map P f (t ∷ ts) h = (h.0, All-map P f ts h.1)

cleaned-All :
    (P : Directory → Type 0) (faults : WriteFaults) (d : Directory)
    → P d
    → P (cleared d)
    → All P (cleaned faults d).seen
cleaned-All P faults d h c = elim (Bool-cases faults.cleanup) [
  | inl e ↦ rw e (h, tt)
  | inr e ↦ rw e (h, (c, tt))
]

module _ {Document : Type 0} (codec : SessionCodec Document) where
  -- A property of the directories of one call, under what the call finds out: a primary that is not
  -- rotated, or one that is.
  pub record Covers (P : Directory → Type 0) (faults : WriteFaults) (document : Document)
      (d : Directory) : Type 0 where
    pub before : P d
    pub clear : P (cleared d)
    pub partly : All (λ t. P (holding t d)) faults.partial
    pub torn : (t : Text) → faults.torn ≡ some t → P (holding t d)
    pub full : P (holding (codec.serialize document) d)
    pub published :
        read_file codec faults.primary_unreadable d.primary ≡ none
        → P (publish_temporary (holding (codec.serialize document) d))
    pub rotated :
        (old : Document)
        → read_file codec faults.primary_unreadable d.primary ≡ some old
        → P (rotate_primary (holding (codec.serialize document) d))
          × P (publish_temporary (rotate_primary (holding (codec.serialize document) d)))
          × P (restore_backup (rotate_primary (holding (codec.serialize document) d)))
          × P (cleared (restore_backup (rotate_primary d)))

  publish_file-All :
      (P : Directory → Type 0) (faults : WriteFaults) (d : Directory)
      → P d
      → P (publish_temporary d)
      → P (cleared d)
      → All P (publish_file codec faults false d).seen
  unfolding publish_file
  publish_file-All P faults d h p c = elim (Bool-cases faults.publish) [
    | inl e ↦ rw e (cleaned-All P faults d h c)
    | inr e ↦ rw e (p, tt)
  ]

  publish_file-rotated :
      (P : Directory → Type 0) (faults : WriteFaults) (d : Directory)
      → P d
      → P (publish_temporary d)
      → P (restore_backup d)
      → P (cleared (restore_backup d))
      → All P (publish_file codec faults true d).seen
  unfolding publish_file
  publish_file-rotated P faults d h p r c = elim (Bool-cases faults.publish) [
    | inr e ↦ rw e (p, tt)
    | inl e ↦ elim (Bool-cases faults.restore) [
      | inl f ↦ rw (e, f) (h, tt)
      | inr f ↦ rw (e, f) (h, cleaned-All P faults (restore_backup d) r c)
    ]
  ]

  pub rotate_files-kept :
      (faults : WriteFaults) (d : Directory)
      → read_file codec faults.primary_unreadable d.primary ≡ none
      → rotate_files codec faults d ≡ publish_file codec faults false d
  unfolding rotate_files
  rotate_files-kept faults d e = rw (rotate_files, e) refl

  pub rotate_files-rotated :
      (faults : WriteFaults) (d : Directory) (old : Document)
      → read_file codec faults.primary_unreadable d.primary ≡ some old
      → rotate_files codec faults d ≡ (
          if faults.rotate
          then cleaned faults d
          else passing (d ∷ []) (publish_file codec faults true (rotate_primary d)))
  unfolding rotate_files
  rotate_files-rotated faults d old e = rw (rotate_files, e) refl

  rotate_files-All :
      (P : Directory → Type 0) (faults : WriteFaults) (document : Document) (d : Directory)
      → Covers P faults document d
      → All P (rotate_files codec faults (holding (codec.serialize document) d)).seen
  rotate_files-All P faults document d c =
      let full = holding (codec.serialize document) d in
      elim (Option-cases (read_file codec faults.primary_unreadable d.primary)) [
        | inl e ↦
            subst (λ a. All P a.seen) (sym (rotate_files-kept faults full e))
              (publish_file-All P faults full c.full (c.published e) c.clear)
        | inr (old, e) ↦
            let (moved, published, restored, after) = c.rotated old e in
            subst (λ a. All P a.seen) (sym (rotate_files-rotated faults full old e))
              (elim (Bool-cases faults.rotate) [
                | inl f ↦ rw f (cleaned-All P faults full c.full c.clear)
                | inr f ↦ simp f (
                  c.full,
                  publish_file-rotated P faults (rotate_primary full) moved published restored
                      after,
                )
              ])
      ]

  fill_temporary-All :
      (P : Directory → Type 0) (faults : WriteFaults) (document : Document) (d : Directory)
      → Covers P faults document d
      → All P (fill_temporary codec faults document (cleared d)).seen
  unfolding fill_temporary
  fill_temporary-All P faults document d c =
      let partial = All-map P (λ t. holding t d) faults.partial c.partly in
      let passed = map (λ t. holding t d) faults.partial in
      let full = holding (codec.serialize document) d in
      elim (Option-cases faults.torn) [
        | inr (left, e) ↦ rw e (
            All-append P passed (cleaned faults (holding left d)).seen partial
              (cleaned-All P faults (holding left d) (c.torn left e) c.clear))
        | inl e ↦ elim (Bool-cases faults.durability) [
          | inl f ↦
              rw (e, f)
                (All-append P passed (cleaned faults full).seen partial
                  (cleaned-All P faults full c.full c.clear))
          | inr f ↦
              rw (e, f)
                (All-append P passed (rotate_files codec faults full).seen partial
                  (rotate_files-All P faults document d c))
        ]
      ]

  pub write_session-All :
      (P : Directory → Type 0) (faults : WriteFaults) (document : Document) (d : Directory)
      → Covers P faults document d
      → All P (write_session codec faults document d).seen
  unfolding write_session
  write_session-All P faults document d c = elim (Bool-cases (faults.create || faults.stale)) [
    | inl e ↦ rw e (c.before, tt)
    | inr e ↦ elim (Bool-cases faults.opening) [
      | inl f ↦ rw (e, f) (c.before, (c.clear, tt))
      | inr f ↦ rw (e, f) (c.before, (c.clear, fill_temporary-All P faults document d c))
    ]
  ]
