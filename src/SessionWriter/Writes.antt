-- ===== src/SessionWriter/Writes.antt =====
-- What a write promises, and what a failed one leaves to be done.
use pane_dock.Common.{
  ℕ, ◌+◌, ◌≡◌, ◌≤◌, refl, sym, ap, subst, ◌∙◌, Bool, true, false, some, Bool-cases, inl, inr,
}
use pane_dock.Model.{ApplicationState}
use pane_dock.SessionFiles.{SessionCodec, write_session}
use pane_dock.Session.Document.{SessionDocument}
use pane_dock.SessionWriter.{
  delay_milliseconds, maximum_dirty_age_milliseconds, SessionWriter, Moment, arm_timer,
  cancel_timer, with_state, write,
}
use pane_dock.SessionWriter.Timer.{
  IsTimed, IsLater, arm_timer-IsTimed, arm_timer-armed, arm_timer-keeps,
}

-- A write that is owed has the timer armed for it.
abbrev pub IsOwed : SessionWriter → Type 0
IsOwed s = s.dirty ≡ true → s.armed ≡ true

module _ (codec : SessionCodec SessionDocument) (m : Moment) (a : ApplicationState) (clean : Bool)
    (owner : ℕ) (s : SessionWriter) where
  -- The document that is written, and the state behind the files.
  abbrev held : SessionWriter
  held = record (with_state codec a clean s) { dirty = true }

  write-written :
      (write_session codec m.faults held.document s.files).written ≡ true
      → write codec m a clean (some owner) s ≡ (
        true,
        cancel_timer (some owner) (record held {
          dirty = false;
          files = (write_session codec m.faults held.document s.files).final;
        }),
      )
  unfolding write
  write-written e = simp (write, e) refl

  write-failed :
      (write_session codec m.faults held.document s.files).written ≡ false
      → write codec m a clean (some owner) s ≡ (
        false,
        (arm_timer m
            (some owner)
            (record held { files = (write_session codec m.faults held.document s.files).final })).1,
      )
  unfolding write
  write-failed e = simp (write, e) refl

  write-armed :
      (write codec m a clean (some owner) s).0 ≡ false
      → m.timer_fails ≡ false
      → ((write codec m a clean (some owner) s).1.dirty ≡ true)
        × ((write codec m a clean (some owner) s).1.armed ≡ true)
  write-armed h f =
      let attempt = write_session codec m.faults held.document s.files in
      let left = record held { files = attempt.final } in
      elim (Bool-cases attempt.written) [
        | inl e ↦ let never = ap (λ r. r.0) (sym (write-written e)) ∙ h in absurd cc
        | inr e ↦
            subst (λ r. (r.1.dirty ≡ true) × (r.1.armed ≡ true)) (sym (write-failed e))
              ((arm_timer-keeps m owner left).0, (arm_timer-armed m owner left f).1)
      ]

  -- A write keeps an armed timer due in time.
  pub write-IsTimed :
      IsLater m s → IsTimed owner s → IsTimed owner (write codec m a clean (some owner) s).1
  unfolding cancel_timer
  write-IsTimed l t =
      let attempt = write_session codec m.faults held.document s.files in
      elim (Bool-cases attempt.written) [
        | inl e ↦ subst (λ r. IsTimed owner r.1) (sym (write-written e)) λ p. absurd cc
        | inr e ↦
            subst (λ r. IsTimed owner r.1) (sym (write-failed e))
              (arm_timer-IsTimed m owner (record held { files = attempt.final }) l t)
      ]

  -- A write by a window that owns the timer, at a moment within 64 bits not before `dirty_since`, of a writer whose timer is in
  -- time if it is armed: where the write returns false and `SetTimer` does not fail, the write stays owed, the
  -- flag of the timer is set, and the window's timer is due, at most ten minutes and one delay behind the
  -- `dirty_since` of the writer.
  pub write-owed :
      IsLater m s
      → IsTimed owner s
      → (write codec m a clean (some owner) s).0 ≡ false
      → m.timer_fails ≡ false
      → ((write codec m a clean (some owner) s).1.dirty ≡ true)
        × ((write codec m a clean (some owner) s).1.armed ≡ true)
        × ((due : ℕ) × ((write codec m a clean (some owner) s).1.timer_due owner ≡ some due)
            × (due
                ≤ (write codec m a clean (some owner) s).1.dirty_since
                  + (maximum_dirty_age_milliseconds + delay_milliseconds)))
  write-owed l t h f =
      let (dirty, armed) = write-armed h f in (dirty, armed, write-IsTimed l t armed)

  pub write-keeps :
      ((write codec m a clean (some owner) s).1.timer_owner ≡ s.timer_owner)
      × ((write codec m a clean (some owner) s).1.application ≡ s.application)
  unfolding cancel_timer
  write-keeps =
      let attempt = write_session codec m.faults held.document s.files in
      let Kept : Bool × SessionWriter → Type 0 =
        λ r. (r.1.timer_owner ≡ s.timer_owner) × (r.1.application ≡ s.application) in
      elim (Bool-cases attempt.written) [
        | inl e ↦ subst Kept (sym (write-written e)) (refl, refl)
        | inr e ↦
            let kept = arm_timer-keeps m owner (record held { files = attempt.final }) in
            subst Kept (sym (write-failed e)) (kept.2, kept.3)
      ]

  write-clean :
      (write codec m a clean (some owner) s).0 ≡ true
      → (write codec m a clean (some owner) s).1.dirty ≡ false
  unfolding cancel_timer
  write-clean h = elim (Bool-cases (write_session codec m.faults held.document s.files).written) [
    | inl e ↦ subst (λ r. r.1.dirty ≡ false) (sym (write-written e)) refl
    | inr e ↦ let never = ap (λ r. r.0) (sym (write-failed e)) ∙ h in absurd cc
  ]

  -- A write that succeeds owes nothing, and one that fails has its timer armed.
  pub write-IsOwed : m.timer_fails ≡ false → IsOwed (write codec m a clean (some owner) s).1
  write-IsOwed f = elim (Bool-cases (write codec m a clean (some owner) s).0) [
    | inr e ↦ λ d. (write-armed e f).1
    | inl e ↦ λ d. let never = sym (write-clean e) ∙ d in absurd cc
  ]
