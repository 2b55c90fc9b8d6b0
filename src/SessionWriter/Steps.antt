-- ===== src/SessionWriter/Steps.antt =====
-- Histories of a writer between its window's creation and its end, and the timer that they leave.
use pane_dock.Common.{
  ℕ, ◌+◌, ◌≡◌, ◌≤◌, refl, sym, ap, subst, ◌∙◌, Bool, true, false, List, [], ◌∷◌, Option, none, some,
  All, Bool-cases, inl, inr, if◌then◌else◌,
}
use pane_dock.Model.{ApplicationState}
use pane_dock.SessionFiles.{SessionCodec}
use pane_dock.Session.Document.{SessionDocument}
use pane_dock.SessionWriter.{
  delay_milliseconds, maximum_dirty_age_milliseconds, SessionWriter, Moment, arm_timer,
  cancel_timer, write, save_now, schedule, write_clean_marker, timer_message,
}
use pane_dock.SessionWriter.Timer.{
  IsTimed, IsLater, arm_timer-IsTimed, arm_timer-armed, arm_timer-keeps, arm_timer-IsLater,
  arm_timer-dirty_since,
}
use pane_dock.SessionWriter.Writes.{IsOwed, write-IsTimed, write-keeps, write-IsOwed}

module _ (codec : SessionCodec SessionDocument) where
  -- Calls on a writer, each at a moment not before `dirty_since`, but for the clean marker's, which does not read
  -- the clock; the bound model changes at will.
  pub data Run (start : SessionWriter) : List Moment → SessionWriter → Type 0 where
    started : Run start [] start
    changed :
        (ms : List Moment) (s : SessionWriter) (a : ApplicationState)
        → Run start ms s
        → Run start ms (record s { application = some a })
    scheduled :
        (ms : List Moment) (s : SessionWriter) (m : Moment)
        → Run start ms s
        → IsLater m s
        → Run start (m ∷ ms) (schedule codec m s)
    saved :
        (ms : List Moment) (s : SessionWriter) (m : Moment) (clean : Bool)
        → Run start ms s
        → IsLater m s
        → Run start (m ∷ ms) (save_now codec m clean s).1
    fired :
        (ms : List Moment) (s : SessionWriter) (m : Moment)
        → Run start ms s
        → IsLater m s
        → Run start (m ∷ ms) (timer_message codec m s)
    marked :
        (ms : List Moment) (s : SessionWriter) (m : Moment) (a : ApplicationState)
        → Run start ms s
        → Run start (m ∷ ms) (write_clean_marker codec m a s).1

  -- A writer with its window and its model.
  pub record IsBound (owner : ℕ) (s : SessionWriter) : Type 0 where
    pub owned : s.timer_owner ≡ some owner
    pub bound : (a : ApplicationState) × (s.application ≡ some a)

  module _ (m : Moment) (owner : ℕ) (s : SessionWriter) where
    save_now-bound :
        (clean : Bool) (a : ApplicationState)
        → s.timer_owner ≡ some owner
        → s.application ≡ some a
        → save_now codec m clean s ≡ write codec m a clean (some owner) (record s { dirty = true })
    unfolding save_now
    save_now-bound clean a o e =
        ap
          (λ x. elim x [
            | none ↦ (false, s)
            | some b ↦ write codec m b clean s.timer_owner (record s { dirty = true })
          ])
          e
        ∙ ap (λ w. write codec m a clean w (record s { dirty = true })) o

  -- A bound writer whose timer is in time; where the call's timer does not fail, no write is owed without it.
  abbrev Leaves : Moment → ℕ → SessionWriter → Type 0
  Leaves m owner s = IsBound owner s × IsTimed owner s × (m.timer_fails ≡ false → IsOwed s)

  save_now-Leaves :
      (m : Moment) (owner : ℕ) (s : SessionWriter) (clean : Bool)
      → IsBound owner s
      → IsLater m s
      → IsTimed owner s
      → Leaves m owner (save_now codec m clean s).1
  save_now-Leaves m owner s clean b l t =
      let (a, e) = b.bound in
      let next = record s { dirty = true } in
      let kept = write-keeps codec m a clean owner next in
      subst (λ r. Leaves m owner r.1) (sym (save_now-bound m owner s clean a b.owned e))
        (
          record { owned = kept.0 ∙ b.owned; bound = (a, kept.1 ∙ e) },
          write-IsTimed codec m a clean owner next l t,
          write-IsOwed codec m a clean owner next,
        )

  schedule-owned :
      (m : Moment) (owner : ℕ) (s : SessionWriter)
      → s.timer_owner ≡ some owner
      → schedule codec m s ≡ (
          let armed = arm_timer m (some owner) (record s { dirty = true }) in
          if armed.0 then armed.1 else (save_now codec m false armed.1).1)
  unfolding schedule
  schedule-owned m owner s o =
      let marked = record s { dirty = true } in
      ap
        (λ w. elim w [
          | none ↦ marked
          | some h ↦
              let armed = arm_timer m (some h) marked in
              if armed.0 then armed.1 else (save_now codec m false armed.1).1
        ])
        o

  schedule-Leaves :
      (m : Moment) (owner : ℕ) (s : SessionWriter)
      → IsBound owner s
      → IsLater m s
      → IsTimed owner s
      → Leaves m owner (schedule codec m s)
  schedule-Leaves m owner s b l t =
      let marked = record s { dirty = true } in
      let armed = arm_timer m (some owner) marked in
      let kept = arm_timer-keeps m owner marked in
      let bound : IsBound owner armed.1 = record {
        owned = kept.2 ∙ b.owned;
        bound = (b.bound.0, kept.3 ∙ b.bound.1);
      } in
      let timed = arm_timer-IsTimed m owner marked l t in
      subst (Leaves m owner) (sym (schedule-owned m owner s b.owned)) (elim (Bool-cases armed.0) [
        | inl e ↦
            subst (λ c. Leaves m owner (if c then armed.1 else (save_now codec m false armed.1).1))
              (sym e) (bound, timed, λ f d. (arm_timer-armed m owner marked f).1)
        | inr e ↦
            subst (λ c. Leaves m owner (if c then armed.1 else (save_now codec m false armed.1).1))
              (sym e)
              (save_now-Leaves m owner armed.1 false bound (arm_timer-IsLater m owner marked l)
                timed)
      ])

  cancel_timer-stops :
      (m : Moment) (owner : ℕ) (window : Option ℕ) (s : SessionWriter)
      → IsBound owner s
      → IsLater m s
      → IsBound owner (cancel_timer window s)
        × IsLater m (cancel_timer window s)
        × ((cancel_timer window s).armed ≡ false)
  unfolding cancel_timer
  cancel_timer-stops m owner none s b l = (record { owned = b.owned; bound = b.bound }, l, refl)
  cancel_timer-stops m owner (some window) s b l =
      (record { owned = b.owned; bound = b.bound }, l, refl)

  timer_message-Leaves :
      (m : Moment) (owner : ℕ) (s : SessionWriter)
      → IsBound owner s
      → IsLater m s
      → Leaves m owner (timer_message codec m s)
  unfolding timer_message cancel_timer
  timer_message-Leaves m owner s b l =
      let stopped = cancel_timer s.timer_owner s in
      let (bound, later, off) : IsBound owner stopped
          × IsLater m stopped
          × (stopped.armed ≡ false) =
        cancel_timer-stops m owner s.timer_owner s b l in
      elim (Bool-cases stopped.dirty) [
        | inl e ↦
            subst (λ c. Leaves m owner (if c then (save_now codec m false stopped).1 else stopped))
              (sym e) (save_now-Leaves m owner stopped false bound later λ p. absurd cc)
        | inr e ↦
            subst (λ c. Leaves m owner (if c then (save_now codec m false stopped).1 else stopped))
              (sym e) (bound, (λ p. absurd cc), λ f d. absurd cc)
      ]

  run-Leaves :
      (start : SessionWriter) (owner : ℕ)
      → IsBound owner start
      → IsTimed owner start
      → IsOwed start
      → (ms : List Moment) (s : SessionWriter) → Run start ms s
      → IsBound owner s × IsTimed owner s × (All (λ m. m.timer_fails ≡ false) ms → IsOwed s)
  unfolding write_clean_marker
  run-Leaves start owner b t o ms s started = (b, t, λ f. o)
  run-Leaves start owner b t o ms s (changed before from a r) =
      let (bound, timed, owed) = run-Leaves start owner b t o before from r in
      (record { owned = bound.owned; bound = (a, refl) }, timed, owed)
  run-Leaves start owner b t o ms s (scheduled before from m r l) =
      let (bound, timed, owed) = run-Leaves start owner b t o before from r in
      let (c, u, v) = schedule-Leaves m owner from bound l timed in (c, u, λ f. v f.0)
  run-Leaves start owner b t o ms s (saved before from m clean r l) =
      let (bound, timed, owed) = run-Leaves start owner b t o before from r in
      let (c, u, v) = save_now-Leaves m owner from clean bound l timed in (c, u, λ f. v f.0)
  run-Leaves start owner b t o ms s (fired before from m r l) =
      let (bound, timed, owed) = run-Leaves start owner b t o before from r in
      let (c, u, v) = timer_message-Leaves m owner from bound l in (c, u, λ f. v f.0)
  run-Leaves start owner b t o ms s (marked before from m a r) =
      let (bound, timed, owed) = run-Leaves start owner b t o before from r in
      (record { owned = bound.owned; bound = bound.bound }, timed, λ f. owed f.1)

  -- Where the timer is armed and can be set, one more change leaves the moment from which the writer counts.
  schedule-dirty_since :
      (m : Moment) (owner : ℕ) (s : SessionWriter)
      → s.timer_owner ≡ some owner
      → s.armed ≡ true
      → m.timer_fails ≡ false
      → (schedule codec m s).dirty_since ≡ s.dirty_since
  schedule-dirty_since m owner s o e f =
      let marked = record s { dirty = true } in
      let armed = arm_timer m (some owner) marked in
      ap (λ r. r.dirty_since) (schedule-owned m owner s o)
      ∙ ap (λ c. (if c then armed.1 else (save_now codec m false armed.1).1).dirty_since)
          (arm_timer-armed m owner marked f).0
      ∙ arm_timer-dirty_since m owner marked e

  -- From a writer with its window and its model whose timer is in time if it is armed, and which owes a write
  -- only where it is armed, after any schedules, immediate saves, timer messages and clean markers, whatever fails
  -- in the files, where `SetTimer` does not fail and each moment but the clean markers' is within 64 bits and not
  -- before `dirty_since`: if a write is owed, the window's timer is due, at most ten minutes and one delay behind
  -- `dirty_since`, the moment from which the writer counts; and one more schedule, at a moment where `SetTimer`
  -- does not fail, does not move that moment.
  pub run-due :
      (start : SessionWriter) (owner : ℕ)
      → IsBound owner start
      → IsTimed owner start
      → IsOwed start
      → (ms : List Moment) (s : SessionWriter) → Run start ms s
      → All (λ m. m.timer_fails ≡ false) ms
      → s.dirty ≡ true
      → (next : Moment) → next.timer_fails ≡ false
      → ((due : ℕ) × (s.timer_due owner ≡ some due)
          × (due ≤ s.dirty_since + (maximum_dirty_age_milliseconds + delay_milliseconds)))
        × ((schedule codec next s).dirty_since ≡ s.dirty_since)
  run-due start owner b t o ms s r f d next g =
      let (bound, timed, owed) = run-Leaves start owner b t o ms s r in
      (timed (owed f d), schedule-dirty_since next owner s bound.owned (owed f d) g)
