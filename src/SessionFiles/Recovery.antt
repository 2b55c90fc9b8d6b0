-- ===== src/SessionFiles/Recovery.antt =====
-- Any number of calls of `write_session`, each of them cut short anywhere: no document is ever lost.
use pane_dock.Common.{
  ℕ, ◌≡◌, refl, ap, Bool, true, false, List, [], ◌∷◌, Option, none, some, Text, All, All-get_elem?,
  get_elem?, ◌⊎◌, inl, inr,
}
use pane_dock.SessionFiles.{
  SessionCodec, Directory, WriteFaults, read_file, write_session, read_session,
}
use pane_dock.SessionFiles.Passing.{holding, Covers, write_session-All}
use pane_dock.SessionFiles.Atomic.{
  calm, read_session-primary, read_session-interrupted, read_session-backup, read_file-serialize,
  read_file_missing,
}

module _ {Document : Type 0} (codec : SessionCodec Document) where
  -- A torn text does not parse, or it is the document but for the line end behind it.
  abbrev pub IsHarmless : Document → Text → Type 0
  IsHarmless document t =
      (codec.deserialize t ≡ none) ⊎ (codec.deserialize t ≡ some (codec.read_back document))

  abbrev pub IsHarmlessRun : WriteFaults → Document → Type 0
  IsHarmlessRun faults document =
      All (IsHarmless document) faults.partial
      × ((t : Text) → faults.torn ≡ some t → IsHarmless document t)

  -- What a directory holds, for documents with some property: one in the primary; or a primary that gives
  -- none, one in the backup, and nothing else in the temporary file.
  abbrev pub Holds : (Document → Type 0) → Option Text → Type 0
  Holds P file = (x : Document) × (read_file codec false file ≡ some x) × P x

  abbrev pub IsSafe : (Document → Type 0) → Directory → Type 0
  IsSafe P d =
      Holds P d.primary
      ⊎ ((read_file codec false d.primary ≡ none)
          × Holds P d.backup
          × ((read_file codec false d.temporary ≡ none) ⊎ Holds P d.temporary))

  unreadable_none :
      (unreadable : Bool) (file : Option Text)
      → read_file codec false file ≡ none
      → read_file codec unreadable file ≡ none
  unfolding read_file
  unreadable_none unreadable none h = refl
  unreadable_none true (some t) h = refl
  unreadable_none false (some t) h = h

  readable_some :
      (unreadable : Bool) (file : Option Text) (x : Document)
      → read_file codec unreadable file ≡ some x
      → read_file codec false file ≡ some x
  unfolding read_file
  readable_some unreadable none x h = absurd cc
  readable_some true (some t) x h = absurd cc
  readable_some false (some t) x h = h

  module _ (P : Document → Type 0) (faults : WriteFaults) (new : Document)
      (s : codec.IsStorable new) (p : P (codec.read_back new)) where
    new-Holds : Holds P (some (codec.serialize new))
    new-Holds = (codec.read_back new, read_file-serialize codec new s, p)

    harmless_temporary :
        (t : Text) → IsHarmless new t → (read_file codec false (some t) ≡ none) ⊎ Holds P (some t)
    unfolding read_file
    harmless_temporary t (inl e) = inl e
    harmless_temporary t (inr e) = inr (codec.read_back new, e, p)

    -- From a primary that holds a document.
    primary-Covers : (d : Directory) → Holds P d.primary → Covers codec (IsSafe P) faults new d
    primary-Covers d h = record {
      before = inl h;
      clear = inl h;
      partly = All-same faults.partial;
      torn = λ t e. inl h;
      full = inl h;
      published = λ e. inl new-Holds;
      rotated = λ old e.
          (inr (read_file_missing codec false, h, inr new-Holds), inl new-Holds, inl h, inl h);
    }
      where
        All-same : (ts : List Text) → All (λ t. IsSafe P (holding t d)) ts
        All-same [] = tt
        All-same (t ∷ ts) = (inl h, All-same ts)

    -- From a backup, with no primary to rotate.
    backup-Covers :
        (d : Directory)
        → read_file codec false d.primary ≡ none
        → Holds P d.backup
        → (read_file codec false d.temporary ≡ none) ⊎ Holds P d.temporary
        → IsHarmlessRun faults new
        → Covers codec (IsSafe P) faults new d
    backup-Covers d n b t h = record {
      before = inr (n, b, t);
      clear = inr (n, b, inl (read_file_missing codec false));
      partly = All-harmless faults.partial h.0;
      torn = λ u e. inr (n, b, harmless_temporary u (h.1 u e));
      full = inr (n, b, inr new-Holds);
      published = λ e. inl new-Holds;
      rotated =
          λ old e. let never = unreadable_none faults.primary_unreadable d.primary n in absurd cc;
    }
      where
        All-harmless :
            (ts : List Text) → All (IsHarmless new) ts → All (λ u. IsSafe P (holding u d)) ts
        All-harmless [] h = tt
        All-harmless (u ∷ ts) h = (inr (n, b, harmless_temporary u h.0), All-harmless ts h.1)

    write_session-IsSafe :
        (d : Directory)
        → IsSafe P d
        → IsHarmlessRun faults new
        → All (IsSafe P) (write_session codec faults new d).seen
    write_session-IsSafe d (inl h) r =
        write_session-All codec (IsSafe P) faults new d (primary-Covers d h)
    write_session-IsSafe d (inr (n, b, t)) r =
        write_session-All codec (IsSafe P) faults new d (backup-Covers d n b t r)

  -- A property that more documents have.
  IsSafe-mono :
      (P Q : Document → Type 0)
      → ((x : Document) → P x → Q x)
      → (d : Directory) → IsSafe P d
      → IsSafe Q d
  IsSafe-mono P Q f d (inl (x, e, p)) = inl (x, e, f x p)
  IsSafe-mono P Q f d (inr (n, (x, e, p), inl t)) = inr (n, (x, e, f x p), inl t)
  IsSafe-mono P Q f d (inr (n, (x, e, p), inr (y, t, q))) =
      inr (n, (x, e, f x p), inr (y, t, f y q))

  read_session-IsSafe :
      (P : Document → Type 0) (d : Directory)
      → IsSafe P d
      → (x : Document) × ((read_session codec calm d).document ≡ some x) × P x
  read_session-IsSafe P d (inl (x, e, p)) =
      (x, ap (λ r. r.document) (read_session-primary codec d x e), p)
  read_session-IsSafe P d (inr (n, b, inr (y, t, q))) =
      (y, ap (λ r. r.document) (read_session-interrupted codec d y n t), q)
  read_session-IsSafe P d (inr (n, (x, e, p), inl t)) =
      (x, ap (λ r. r.document) (read_session-backup codec d x n t e), p)

  -- One of the documents.
  abbrev pub Among : Document → List Document → Type 0
  Among x [] = ⊥
  Among x (y ∷ ys) = (x ≡ y) ⊎ Among x ys

  -- A directory that calls of `write_session` lead to, each one going as far as any of the directories that
  -- it passes through, with the documents that they were given, as those are read back, the last one first.
  pub data Reached (start : Directory) : List Document → Directory → Type 0 where
    untouched : Reached start [] start
    after_write :
        (documents : List Document) (d : Directory) (faults : WriteFaults) (new : Document)
        (reach : ℕ) (e : Directory)
        → Reached start documents d
        → codec.IsStorable new
        → IsHarmlessRun faults new
        → get_elem? (write_session codec faults new d).seen reach ≡ some e
        → Reached start (codec.read_back new ∷ documents) e

  Reached-IsSafe :
      (start : Directory) (first : Document)
      → read_file codec false start.primary ≡ some first
      → (documents : List Document) (d : Directory) → Reached start documents d
      → IsSafe (λ x. Among x (first ∷ documents)) d
  Reached-IsSafe start first h documents d untouched = inl (first, h, inl refl)
  Reached-IsSafe start first h documents d
        (after_write earlier from faults new reach e r s safe at) =
      let known : Document → Type 0 = λ x. Among x (first ∷ codec.read_back new ∷ earlier) in
      let before = Reached-IsSafe start first h earlier from r in
      let kept =
        IsSafe-mono (λ x. Among x (first ∷ earlier)) known
          (λ x a. elim a [ inl same ↦ inl same | inr old ↦ inr (inr old) ]) from before in
      All-get_elem? (IsSafe known) (write_session codec faults new from).seen reach e
        (write_session-IsSafe known faults new s (inr (inl refl)) from kept safe) at

  -- Where the primary held a document at first, any number of calls with documents that a file can hold, each
  -- of them ended by a failure or a crash anywhere, where the texts that torn writes leave do not parse as
  -- another document, leave a directory where a reader for whom nothing fails finds that document or, as it is
  -- read back, one of those that the calls were given.
  pub read_session-Reached :
      (start : Directory) (first : Document)
      → read_file codec false start.primary ≡ some first
      → (documents : List Document) (d : Directory) → Reached start documents d
      → (x : Document) × ((read_session codec calm d).document ≡ some x)
        × Among x (first ∷ documents)
  read_session-Reached start first h documents d r =
      read_session-IsSafe (λ x. Among x (first ∷ documents)) d
        (Reached-IsSafe start first h documents d r)
