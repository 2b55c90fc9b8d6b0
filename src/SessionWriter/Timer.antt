-- ===== src/SessionWriter/Timer.antt =====
-- The writer's timer: what `SetTimer` and `arm_timer` do to a window's timer and to the moment from which the
-- writer counts.
use pane_dock.Common.{
  ℕ, ◌+◌, ◌-◌, ◌%◌, ◌^◌, ◌≡◌, ◌≤◌, ◌<◌, refl, sym, ap, subst, ◌∙◌, Bool, true, false, Option, some,
  leb, not, Bool-cases, arith, inl, inr, if◌then◌else◌,
}
use pane_dock.SessionWriter.{
  delay_milliseconds, maximum_dirty_age_milliseconds, set_due, SessionWriter, Moment, set_timer,
  arm_timer,
}

-- An armed timer of the window is due, no later than the longest age of a change and one delay behind
-- `dirty_since`, the moment from which the writer counts.
abbrev pub IsTimed : ℕ → SessionWriter → Type 0
IsTimed owner s =
    s.armed ≡ true
    → (due : ℕ) × (s.timer_due owner ≡ some due)
      × (due ≤ s.dirty_since + (maximum_dirty_age_milliseconds + delay_milliseconds))

-- A moment that is not before `dirty_since`, within 64 bits.
abbrev pub IsLater : Moment → SessionWriter → Type 0
IsLater m s = (s.dirty_since ≤ m.now) × (m.now < 2 ^ 64)

pub set_due-same :
    (owner : ℕ) (due : Option ℕ) (timers : ℕ → Option ℕ) → set_due owner due timers owner ≡ due
set_due-same owner due timers = ground arith

-- `SetTimer` keeps what is not the timer's, and fails or arms it.
set_timer-IsTimed :
    (m : Moment) (owner : ℕ) (s : SessionWriter)
    → m.now ≤ s.dirty_since + maximum_dirty_age_milliseconds
    → IsTimed owner s
    → IsTimed owner (set_timer m owner s).1
unfolding set_timer
set_timer-IsTimed m owner s h t = elim (Bool-cases m.timer_fails) [
  | inl e ↦ simp e t
  | inr e ↦ simp e λ a. (
    m.now + delay_milliseconds,
    set_due-same owner (some (m.now + delay_milliseconds)) s.timer_due,
    omega arith,
  )
]

set_timer-armed :
    (m : Moment) (owner : ℕ) (s : SessionWriter)
    → m.timer_fails ≡ false
    → ((set_timer m owner s).0 ≡ true) × ((set_timer m owner s).1.armed ≡ true)
unfolding set_timer
set_timer-armed m owner s e = simp e (refl, refl)

young :
    (now since : ℕ)
    → since ≤ now
    → now < 2 ^ 64
    → leb maximum_dirty_age_milliseconds ((now + 2 ^ 64 - since) % 2 ^ 64) ≡ false
    → now ≤ since + maximum_dirty_age_milliseconds
young now since l w e =
    let small : (now + 2 ^ 64 - since) % 2 ^ 64 ≡ now - since = omega arith in ground (arith, small)

-- The three ways through `arm_timer`.
module _ (m : Moment) (owner : ℕ) (s : SessionWriter) where
  abbrev restarted : SessionWriter
  restarted = record s { dirty_since = m.now }

  abbrev is_old : Bool
  is_old = leb maximum_dirty_age_milliseconds ((m.now + 2 ^ 64 - s.dirty_since) % 2 ^ 64)

  arm_timer-fresh : s.armed ≡ false → arm_timer m (some owner) s ≡ set_timer m owner restarted
  unfolding arm_timer
  arm_timer-fresh e =
      ap
        (λ b.
          if not b
          then set_timer m owner restarted
          else if is_old
          then (true, s)
          else set_timer m owner s)
        e

  arm_timer-old : s.armed ≡ true → is_old ≡ true → arm_timer m (some owner) s ≡ (true, s)
  unfolding arm_timer
  arm_timer-old e o =
      ap
        (λ b.
          if not b
          then set_timer m owner restarted
          else if is_old
          then (true, s)
          else set_timer m owner s)
        e
      ∙ ap (λ b. if b then (true, s) else set_timer m owner s) o

  arm_timer-young :
      s.armed ≡ true → is_old ≡ false → arm_timer m (some owner) s ≡ set_timer m owner s
  unfolding arm_timer
  arm_timer-young e o =
      ap
        (λ b.
          if not b
          then set_timer m owner restarted
          else if is_old
          then (true, s)
          else set_timer m owner s)
        e
      ∙ ap (λ b. if b then (true, s) else set_timer m owner s) o

  pub arm_timer-IsTimed :
      IsLater m s → IsTimed owner s → IsTimed owner (arm_timer m (some owner) s).1
  arm_timer-IsTimed l t = elim (Bool-cases s.armed) [
    | inr e ↦
        subst (λ r. IsTimed owner r.1) (sym (arm_timer-fresh e))
          (set_timer-IsTimed m owner restarted (omega arith) (λ a. absurd cc))
    | inl e ↦ elim (Bool-cases is_old) [
      | inl o ↦ subst (λ r. IsTimed owner r.1) (sym (arm_timer-old e o)) t
      | inr o ↦
          subst (λ r. IsTimed owner r.1) (sym (arm_timer-young e o))
            (set_timer-IsTimed m owner s (young m.now s.dirty_since l.0 l.1 o) t)
    ]
  ]

  -- Where `SetTimer` does not fail, the timer is armed, and that is what the call returns.
  pub arm_timer-armed :
      m.timer_fails ≡ false
      → ((arm_timer m (some owner) s).0 ≡ true) × ((arm_timer m (some owner) s).1.armed ≡ true)
  arm_timer-armed f = elim (Bool-cases s.armed) [
    | inr e ↦
        subst (λ r. (r.0 ≡ true) × (r.1.armed ≡ true)) (sym (arm_timer-fresh e))
          (set_timer-armed m owner restarted f)
    | inl e ↦ elim (Bool-cases is_old) [
      | inl o ↦ subst (λ r. (r.0 ≡ true) × (r.1.armed ≡ true)) (sym (arm_timer-old e o)) (refl, e)
      | inr o ↦
          subst (λ r. (r.0 ≡ true) × (r.1.armed ≡ true)) (sym (arm_timer-young e o))
            (set_timer-armed m owner s f)
    ]
  ]

  set_timer-dirty_since : (x : SessionWriter) → (set_timer m owner x).1.dirty_since ≡ x.dirty_since
  unfolding set_timer
  set_timer-dirty_since x = elim (Bool-cases m.timer_fails) [
    | inl e ↦ simp e refl
    | inr e ↦ simp e refl
  ]

  -- While the timer is armed, the moment from which the writer counts stays.
  pub arm_timer-dirty_since :
      s.armed ≡ true → (arm_timer m (some owner) s).1.dirty_since ≡ s.dirty_since
  arm_timer-dirty_since e = elim (Bool-cases is_old) [
    | inl o ↦ ap (λ r. r.1.dirty_since) (arm_timer-old e o)
    | inr o ↦ ap (λ r. r.1.dirty_since) (arm_timer-young e o) ∙ set_timer-dirty_since s
  ]

  set_timer-IsLater : (x : SessionWriter) → IsLater m x → IsLater m (set_timer m owner x).1
  unfolding set_timer
  set_timer-IsLater x l = elim (Bool-cases m.timer_fails) [ inl e ↦ simp e l | inr e ↦ simp e l ]

  pub arm_timer-IsLater : IsLater m s → IsLater m (arm_timer m (some owner) s).1
  arm_timer-IsLater l = elim (Bool-cases s.armed) [
    | inr e ↦
        subst (λ r. IsLater m r.1) (sym (arm_timer-fresh e))
          (set_timer-IsLater restarted (omega arith, l.1))
    | inl e ↦ elim (Bool-cases is_old) [
      | inl o ↦ subst (λ r. IsLater m r.1) (sym (arm_timer-old e o)) l
      | inr o ↦ subst (λ r. IsLater m r.1) (sym (arm_timer-young e o)) (set_timer-IsLater s l)
    ]
  ]

  -- What `arm_timer` does not touch.
  set_timer-keeps :
      (x : SessionWriter)
      → ((set_timer m owner x).1.dirty ≡ x.dirty)
        × ((set_timer m owner x).1.files ≡ x.files)
        × ((set_timer m owner x).1.timer_owner ≡ x.timer_owner)
        × ((set_timer m owner x).1.application ≡ x.application)
        × ((set_timer m owner x).1.document ≡ x.document)
  unfolding set_timer
  set_timer-keeps x = elim (Bool-cases m.timer_fails) [
    | inl e ↦ simp e (refl, refl, refl, refl, refl)
    | inr e ↦ simp e (refl, refl, refl, refl, refl)
  ]

  pub arm_timer-keeps :
      ((arm_timer m (some owner) s).1.dirty ≡ s.dirty)
      × ((arm_timer m (some owner) s).1.files ≡ s.files)
      × ((arm_timer m (some owner) s).1.timer_owner ≡ s.timer_owner)
      × ((arm_timer m (some owner) s).1.application ≡ s.application)
      × ((arm_timer m (some owner) s).1.document ≡ s.document)
  arm_timer-keeps =
      let Kept : Bool × SessionWriter → Type 0 = λ r.
        (r.1.dirty ≡ s.dirty)
        × (r.1.files ≡ s.files)
        × (r.1.timer_owner ≡ s.timer_owner)
        × (r.1.application ≡ s.application)
        × (r.1.document ≡ s.document) in
      elim (Bool-cases s.armed) [
        | inr e ↦ subst Kept (sym (arm_timer-fresh e)) (set_timer-keeps restarted)
        | inl e ↦ elim (Bool-cases is_old) [
          | inl o ↦ subst Kept (sym (arm_timer-old e o)) (refl, refl, refl, refl, refl)
          | inr o ↦ subst Kept (sym (arm_timer-young e o)) (set_timer-keeps s)
        ]
      ]
