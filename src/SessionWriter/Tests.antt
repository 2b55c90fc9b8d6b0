-- ===== src/SessionWriter/Tests.antt =====
-- A writer on an empty directory, with the codec of the session's files.
use pane_dock.Common.{ℕ, ◌≡◌, ◌≤◌, ◌+◌, refl, true, false, [], ◌∷◌, none, some, arith}
use pane_dock.SessionFiles.{SessionCodec, WriteFaults, write_session}
use pane_dock.Json.Samples.{
  show_ones, show_ones-IsNumeral, scan_doubles, scan_doubles-show_ones, scan_doubles-IsFinite,
}
use pane_dock.Session.Samples.{stored, stored_document}
use pane_dock.Session.Document.{SessionDocument}
use pane_dock.Session.Stored.{session_codec}
use pane_dock.SessionWriter.{
  delay_milliseconds, maximum_dirty_age_milliseconds, SessionWriter, Moment, arm_timer, write,
  schedule,
}
use pane_dock.SessionWriter.Writes.{write-owed}
use pane_dock.SessionWriter.Steps.{Run, started, scheduled, run-due}

abbrev codec : SessionCodec SessionDocument
codec =
    session_codec show_ones scan_doubles show_ones-IsNumeral scan_doubles-show_ones
      scan_doubles-IsFinite

abbrev writer : SessionWriter
writer = record {
  document = stored_document;
  application = some stored;
  timer_owner = some 7;
  dirty_since = 0;
  dirty = false;
  armed = false;
  files = record { primary = none; temporary = none; backup = none };
  timer_due = λ window. none;
}

abbrev all_well : WriteFaults
all_well = record {
  create = false;
  stale = false;
  opening = false;
  partial = [] ∷ [];
  torn = none;
  durability = false;
  primary_unreadable = false;
  rotate = false;
  publish = false;
  restore = false;
  cleanup = false;
}

abbrev moment : ℕ → Moment
moment now = record { now = now; timer_fails = false; faults = all_well }

-- A directory that cannot be made.
abbrev full_disk : ℕ → Moment
full_disk now = record (moment now) { faults = record all_well { create = true } }

failed_now : (write codec (full_disk 1000) stored false (some 7) writer).0 ≡ false
unfolding write write_session
failed_now = refl

write-owed_example :
    let left = (write codec (full_disk 1000) stored false (some 7) writer).1 in
    (left.dirty ≡ true)
    × (left.armed ≡ true)
    × ((due : ℕ) × (left.timer_due 7 ≡ some due)
        × (due ≤ left.dirty_since + (maximum_dirty_age_milliseconds + delay_milliseconds)))
write-owed_example =
    write-owed codec (full_disk 1000) stored false 7 writer (omega arith, omega arith)
      (λ a. absurd cc) failed_now refl

-- A change, and a second one that puts the timer off; past the ceiling a third one does not.
abbrev after_one : SessionWriter
after_one = schedule codec (moment 1000) writer

abbrev after_two : SessionWriter
after_two = schedule codec (moment 51000) after_one

put_off :
    (after_one.timer_due 7 ≡ some 61000)
    × (after_two.timer_due 7 ≡ some 111000)
    × (after_two.dirty_since ≡ 1000)
unfolding schedule arm_timer
put_off = (refl, refl, refl)

ceiling : (schedule codec (moment 601000) after_two).timer_due 7 ≡ some 111000
unfolding schedule arm_timer
ceiling = refl

two_changes : Run codec writer (moment 51000 ∷ moment 1000 ∷ []) after_two
unfolding schedule
two_changes =
    scheduled (moment 1000 ∷ []) after_one (moment 51000)
      (scheduled [] writer (moment 1000) started (omega arith, omega arith))
      (omega arith, omega arith)

still_dirty : after_two.dirty ≡ true
unfolding schedule
still_dirty = refl

run-due_example :
    ((due : ℕ) × (after_two.timer_due 7 ≡ some due)
      × (due ≤ after_two.dirty_since + (maximum_dirty_age_milliseconds + delay_milliseconds)))
    × ((schedule codec (moment 52000) after_two).dirty_since ≡ after_two.dirty_since)
run-due_example =
    run-due codec writer 7 (record { owned = refl; bound = (stored, refl) }) (λ a. absurd cc)
      (λ d. absurd cc) (moment 51000 ∷ moment 1000 ∷ []) after_two two_changes (refl, (refl, tt))
      still_dirty (moment 52000) refl
