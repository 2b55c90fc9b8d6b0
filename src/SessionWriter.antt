-- ===== src/SessionWriter.antt =====
-- src/app_shell/session_writer.h and .cpp, `SessionWriter`: when and whether the session file is written.
--
-- The state holds the writer's members and what they act on: the three files of its directory, and for
-- every window when its debounce timer is due. `application` is the bound model as it is when an operation
-- reads it. A moment is what an operation meets: the tick count, whether `SetTimer` fails, and what fails in
-- the files; all that one call asks for meets the same moment. A `ULONGLONG` difference wraps at
-- 2 ^ 64. That an assignment throws is not modelled.
pub mod Timer
pub mod Writes
pub mod Steps
mod Tests
use pane_dock.Common.{
  ℕ, ◌+◌, ◌-◌, ◌%◌, ◌^◌, Bool, true, false, ◌&&◌, Option, none, some, leb, not, ◌==◌, if◌then◌else◌,
}
use pane_dock.Model.{ApplicationState}
use pane_dock.SessionFiles.{SessionCodec, Directory, WriteFaults, write_session}
use pane_dock.Session.Document.{SessionDocument}

-- `kDelayMilliseconds` and `kMaximumDirtyAgeMilliseconds`.
abbrev pub delay_milliseconds : ℕ
delay_milliseconds = 60000

abbrev pub maximum_dirty_age_milliseconds : ℕ
maximum_dirty_age_milliseconds = 600000

pub record SessionWriter : Type 0 where
  pub document : SessionDocument
  pub application : Option ApplicationState
  pub timer_owner : Option ℕ
  pub dirty_since : ℕ
  pub dirty : Bool
  pub armed : Bool
  pub files : Directory
  pub timer_due : ℕ → Option ℕ

pub record Moment : Type 0 where
  pub now : ℕ
  pub timer_fails : Bool
  pub faults : WriteFaults

-- A timer of one window.
abbrev pub set_due : ℕ → Option ℕ → (ℕ → Option ℕ) → ℕ → Option ℕ
set_due owner due timers window = if window == owner then due else timers window

-- `SetTimer`, behind the tests of `arm_timer`.
unfoldable pub set_timer : Moment → ℕ → SessionWriter → Bool × SessionWriter
set_timer m owner s = if m.timer_fails then (false, s) else (
  true,
  record s {
    armed = true;
    timer_due = set_due owner (some (m.now + delay_milliseconds)) s.timer_due;
  },
)

unfoldable pub arm_timer : Moment → Option ℕ → SessionWriter → Bool × SessionWriter
unfolding set_timer
arm_timer m none s = (false, s)
arm_timer m (some owner) s =
    if not s.armed
    then set_timer m owner (record s { dirty_since = m.now })
    else if leb maximum_dirty_age_milliseconds ((m.now + 2 ^ 64 - s.dirty_since) % 2 ^ 64)
    then (true, s)
    else set_timer m owner s

unfoldable pub cancel_timer : Option ℕ → SessionWriter → SessionWriter
cancel_timer none s = record s { armed = false }
cancel_timer (some owner) s = record s { armed = false; timer_due = set_due owner none s.timer_due }

module _ (codec : SessionCodec SessionDocument) where
  -- The document with a state to write, and the write of it.
  abbrev pub with_state : ApplicationState → Bool → SessionWriter → SessionWriter
  with_state a clean s = record s {
    document = record s.document { application = a; clean_shutdown = clean };
  }

  unfoldable pub write :
      Moment → ApplicationState → Bool → Option ℕ → SessionWriter → Bool × SessionWriter
  unfolding arm_timer cancel_timer write_session
  write m a clean owner s =
      let held = record (with_state a clean s) { dirty = true } in
      let attempt = write_session codec m.faults held.document s.files in
      if attempt.written
      then (true, cancel_timer owner (record held { dirty = false; files = attempt.final }))
      else (false, (arm_timer m owner (record held { files = attempt.final })).1)

  unfoldable pub save_now : Moment → Bool → SessionWriter → Bool × SessionWriter
  unfolding write
  save_now m clean s = elim s.application [
    | none ↦ (false, s)
    | some a ↦ write m a clean s.timer_owner (record s { dirty = true })
  ]

  unfoldable pub schedule : Moment → SessionWriter → SessionWriter
  unfolding arm_timer save_now
  schedule m s =
      let marked = record s { dirty = true } in
      elim s.timer_owner [
        | none ↦ marked
        | some owner ↦
            let armed = arm_timer m (some owner) marked in
            if armed.0 then armed.1 else (save_now m false armed.1).1
      ]

  unfoldable pub write_clean_marker :
      Moment → ApplicationState → SessionWriter → Bool × SessionWriter
  unfolding write_session
  write_clean_marker m a s =
      let held = with_state a true s in
      let attempt = write_session codec m.faults held.document s.files in
      (attempt.written, record held { files = attempt.final })

  -- The timer's message in the window that owns it, outside a Shell call.
  unfoldable pub timer_message : Moment → SessionWriter → SessionWriter
  unfolding cancel_timer save_now
  timer_message m s =
      let stopped = cancel_timer s.timer_owner s in
      if stopped.dirty then (save_now m false stopped).1 else stopped
