-- ===== src/Reentry/Held.antt =====
-- The queue holds no message twice.
use pane_dock.Common.{
  ℕ, ◌≡◌, Bool, true, false, List, [], ◌∷◌, ◌++◌, arith, ◌==◌, if◌then◌else◌, any, All, All-append,
  ap, ◌∙◌, Bool-cases, inl, inr,
}
use pane_dock.Reentry.{DeferredMessage, same_message, same_key, overwrite, hold_deferred_message}

-- A later entry is another message; with a kind whose payload is replaced, for another key.
abbrev pub IsNew : (ℕ → Bool) → DeferredMessage → DeferredMessage → Type 0
IsNew replaces a b = (if replaces a.message then same_key a b else same_message a b) ≡ false

abbrev pub IsQueue : (ℕ → Bool) → List DeferredMessage → Type 0
IsQueue replaces [] = Unit {0}
IsQueue replaces (m ∷ ms) = All (IsNew replaces m) ms × IsQueue replaces ms

module _ (replaces : ℕ → Bool) where
  IsNew-of_key :
      (m message : DeferredMessage)
      → replaces message.message ≡ true
      → same_key m message ≡ false
      → IsNew replaces m message
  IsNew-of_key m message r k = elim (Bool-cases (replaces m.message)) [
    | inl kind ↦ ground (arith)
    | inr other ↦ ground (arith)
  ]

  IsNew-of_message :
      (m message : DeferredMessage)
      → replaces message.message ≡ false
      → same_message m message ≡ false
      → IsNew replaces m message
  IsNew-of_message m message r k = elim (Bool-cases (replaces m.message)) [
    | inl kind ↦ elim (Bool-cases (m.message == message.message)) [
      | inl same ↦
          let e : replaces m.message ≡ replaces message.message = ap replaces (ground arith) in
          absurd (cc)
      | inr differs ↦ ground arith
    ]
    | inr other ↦ ground arith
  ]

  All-IsNew_of_key :
      (held : List DeferredMessage) (message : DeferredMessage)
      → replaces message.message ≡ true
      → any (λ entry. same_key entry message) held ≡ false
      → All (λ m. IsNew replaces m message) held
  All-IsNew_of_key [] message r h = tt
  All-IsNew_of_key (m ∷ held) message r h =
      (IsNew-of_key m message r (ground arith), All-IsNew_of_key held message r (ground arith))

  All-IsNew_of_message :
      (held : List DeferredMessage) (message : DeferredMessage)
      → replaces message.message ≡ false
      → any (λ entry. same_message entry message) held ≡ false
      → All (λ m. IsNew replaces m message) held
  All-IsNew_of_message [] message r h = tt
  All-IsNew_of_message (m ∷ held) message r h = (
    IsNew-of_message m message r (ground arith),
    All-IsNew_of_message held message r (ground arith),
  )

  IsQueue-append :
      (held : List DeferredMessage) (message : DeferredMessage)
      → IsQueue replaces held
      → All (λ m. IsNew replaces m message) held
      → IsQueue replaces (held ++ message ∷ [])
  IsQueue-append [] message q h = (tt, tt)
  IsQueue-append (m ∷ held) message q h = (
    All-append (IsNew replaces m) held (message ∷ []) q.0 (h.0, tt),
    IsQueue-append held message q.1 h.1,
  )

  any-append :
      (held : List DeferredMessage) (message : DeferredMessage)
      → any (λ entry. same_message entry message) (held ++ message ∷ []) ≡ true
  any-append [] message = ground arith
  any-append (m ∷ held) message = ground (arith, any-append held message)

  IsNew-renewed :
      (m entry message : DeferredMessage)
      → replaces message.message ≡ true
      → same_key entry message ≡ true
      → IsNew replaces m entry
      → IsNew replaces m (record entry { wparam = message.wparam; lparam = message.lparam })
  IsNew-renewed m entry message r k h = elim (Bool-cases (replaces m.message)) [
    | inl kind ↦ ground arith
    | inr other ↦ elim (Bool-cases (m.message == entry.message)) [
      | inl same ↦
          let e : replaces m.message ≡ replaces message.message = ap replaces (ground arith) in
          absurd cc
      | inr differs ↦ ground arith
    ]
  ]

  renewed-IsNew :
      (m entry message : DeferredMessage)
      → replaces message.message ≡ true
      → same_key entry message ≡ true
      → IsNew replaces entry m
      → IsNew replaces (record entry { wparam = message.wparam; lparam = message.lparam }) m
  renewed-IsNew m entry message r k h =
      let e : replaces entry.message ≡ true = ap replaces (ground arith) ∙ r in ground arith

  All-renewed :
      (entry message : DeferredMessage)
      → replaces message.message ≡ true
      → same_key entry message ≡ true
      → (held : List DeferredMessage) → All (IsNew replaces entry) held
      → All
          (IsNew replaces (record entry { wparam = message.wparam; lparam = message.lparam }))
          held
  All-renewed entry message r k [] h = tt
  All-renewed entry message r k (m ∷ held) h =
      (renewed-IsNew m entry message r k h.0, All-renewed entry message r k held h.1)

  All-overwrite :
      (m message : DeferredMessage)
      → replaces message.message ≡ true
      → (held : List DeferredMessage) → All (IsNew replaces m) held
      → All (IsNew replaces m) (overwrite message held)
  unfolding overwrite
  All-overwrite m message r [] h = tt
  All-overwrite m message r (entry ∷ held) h = elim (Bool-cases (same_key entry message)) [
    | inl same ↦ rw same (IsNew-renewed m entry message r same h.0, h.1)
    | inr differs ↦ rw differs (h.0, All-overwrite m message r held h.1)
  ]

  IsQueue-overwrite :
      (message : DeferredMessage)
      → replaces message.message ≡ true
      → (held : List DeferredMessage) → IsQueue replaces held
      → IsQueue replaces (overwrite message held)
  unfolding overwrite
  IsQueue-overwrite message r [] q = tt
  IsQueue-overwrite message r (entry ∷ held) q = elim (Bool-cases (same_key entry message)) [
    | inl same ↦ rw same (All-renewed entry message r same held q.0, q.1)
    | inr differs ↦
        rw differs (All-overwrite entry message r held q.0, IsQueue-overwrite message r held q.1)
  ]

  any-overwrite :
      (message : DeferredMessage) (held : List DeferredMessage)
      → any (λ entry. same_key entry message) held ≡ true
      → any (λ entry. same_message entry message) (overwrite message held) ≡ true
  unfolding overwrite
  any-overwrite message [] h = cc
  any-overwrite message (entry ∷ held) h = elim (Bool-cases (same_key entry message)) [
    | inl same ↦ ground arith
    | inr differs ↦ ground (arith, any-overwrite message held (ground arith))
  ]

  -- A queue without repeats stays one when a message is held, with `replaces` as its kind says. The
  -- message is in it afterwards.
  pub hold_deferred_message-IsQueue :
      (held : List DeferredMessage) (message : DeferredMessage)
      → IsQueue replaces held
      → let (after, is_new) = hold_deferred_message held message (replaces message.message) in
        IsQueue replaces after × (any (λ entry. same_message entry message) after ≡ true)
  unfolding hold_deferred_message
  hold_deferred_message-IsQueue held message q = elim (Bool-cases (replaces message.message)) [
    | inl r ↦ elim (Bool-cases (any (λ entry. same_key entry message) held)) [
      | inl found ↦
          rw (r, found) (IsQueue-overwrite message r held q, any-overwrite message held found)
      | inr fresh ↦
          rw (r, fresh)
            (
              IsQueue-append held message q (All-IsNew_of_key held message r fresh),
              any-append held message,
            )
    ]
    | inr r ↦ elim (Bool-cases (any (λ entry. same_message entry message) held)) [
      | inl found ↦ rw (r, found) (q, found)
      | inr fresh ↦
          rw (r, fresh)
            (
              IsQueue-append held message q (All-IsNew_of_message held message r fresh),
              any-append held message,
            )
    ]
  ]
