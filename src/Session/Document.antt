-- ===== src/Session/Document.antt =====
-- src/core/session.cpp, `serialize_session` and `deserialize_session`: a document as a text, and back.
--
-- `show` is a number written to a stream at a precision of 17 digits, and `scan` is `std::from_chars` with
-- the test that the result is finite.
use pane_dock.Common.{
  ◌≡◌, refl, sym, subst, ◌∙◌, Bool, true, false, [], ◌∷◌, ◌++◌, Option, none, some, Text,
  if◌then◌else◌, All, Bool-cases, ◌⊎◌, inl, inr,
}
use pane_dock.Ids.{is_empty}
use pane_dock.Model.{Double, ApplicationState}
use pane_dock.Json.{Json, object, no_fields}
use pane_dock.Json.Print.{dump}
use pane_dock.Json.Parse.{parsed, refused, starved, parse}
use pane_dock.Session.Fields.{◌>>=◌}
use pane_dock.Session.Encode.{encode}
use pane_dock.Session.Decode.{decode, decode_clean_shutdown}
use pane_dock.Session.Forgotten.{state_without_history}
use pane_dock.Session.Dumpable.{HasFiniteRatios}
use pane_dock.Session.RoundTrip.{IsStorable}
use pane_dock.Session.Read.{bind-some}
use pane_dock.Json.Parse.Fuel.{parse-total}
use mathlib.Core.Option.{some_inj}

-- `SessionDocument`, with the text that it was read from.
pub record SessionDocument : Type 0 where
  pub application : ApplicationState
  pub preserved_json : Text
  pub clean_shutdown : Bool

module _ (show : Double → Text) (scan : Text → Option Double) where
  -- The document that a state is written over.
  unfoldable pub preserved_root : Text → Json
  unfolding parse
  preserved_root t = if is_empty t then object no_fields else elim (parse scan t) [
    | parsed root rest ↦ root
    | refused ↦ object no_fields
    | starved ↦ object no_fields
  ]

  unfoldable pub serialize_session : SessionDocument → Text
  unfolding dump encode preserved_root
  serialize_session d =
      dump show (encode d.application (preserved_root d.preserved_json) d.clean_shutdown)
      ++ 0x0a ∷ []

  unfoldable pub deserialize_session : Text → Option SessionDocument
  unfolding parse decode decode_clean_shutdown
  deserialize_session t = elim (parse scan t) [
    | parsed root rest ↦ do
      a ← decode root
      some (record {
        application = a;
        preserved_json = t;
        clean_shutdown = decode_clean_shutdown root;
      })
    | refused ↦ none
    | starved ↦ none
  ]

  -- A document as it is read again.
  abbrev pub read_back : SessionDocument → SessionDocument
  read_back d = record d {
    application = state_without_history d.application;
    preserved_json = serialize_session d;
  }

  -- A document that a file can hold: with a state that one can hold, over no text or one that was read.
  pub record IsStorableDocument (d : SessionDocument) : Type 0 where
    pub application : IsStorable d.application
    pub ratios : All HasFiniteRatios d.application.groups
    pub preserved :
        (is_empty d.preserved_json ≡ true)
        ⊎ ((before : SessionDocument) × (deserialize_session d.preserved_json ≡ some before))

-- A document, with the text that it was read from and the values in it.
abbrev pub document_of : Text → Json → ApplicationState → SessionDocument
document_of t root a = record {
  application = a;
  preserved_json = t;
  clean_shutdown = decode_clean_shutdown root;
}

module _ (show : Double → Text) (scan : Text → Option Double) where
  pub deserialize_session-parsed :
      (t : Text) (root : Json)
      → parse scan t ≡ parsed root []
      → deserialize_session show scan t ≡ (decode root >>= λ a. some (document_of t root a))
  unfolding deserialize_session
  deserialize_session-parsed t root e = rw (deserialize_session, e) refl

  deserialize_session-refused :
      (t : Text) → parse scan t ≡ refused → deserialize_session show scan t ≡ none
  unfolding deserialize_session
  deserialize_session-refused t e = rw (deserialize_session, e) refl

  pub preserved_root-parsed :
      (t : Text) (root : Json)
      → is_empty t ≡ false
      → parse scan t ≡ parsed root []
      → preserved_root show scan t ≡ root
  unfolding preserved_root
  preserved_root-parsed t root e f = rw (preserved_root, e) (rw f refl)

  pub preserved_root-none :
      (t : Text)
      → (is_empty t ≡ true) ⊎ (parse scan t ≡ refused)
      → preserved_root show scan t ≡ object no_fields
  unfolding preserved_root
  preserved_root-none t (inl e) = rw (preserved_root, e) refl
  preserved_root-none t (inr e) = elim (Bool-cases (is_empty t)) [
    | inl f ↦ rw (preserved_root, f) refl
    | inr f ↦ rw (preserved_root, f) (rw e refl)
  ]

  -- A document that was read, and the values that it was read from.
  pub deserialize_session-some :
      (t : Text) (d : SessionDocument)
      → deserialize_session show scan t ≡ some d
      → (root : Json) × (parse scan t ≡ parsed root [])
        × (decode root ≡ some d.application)
        × (d ≡ document_of t root d.application)
  deserialize_session-some t d h = elim (parse-total scan t) [
    | inl e ↦ let never = sym (deserialize_session-refused t e) ∙ h in absurd cc
    | inr (root, e) ↦
        let (a, f, g) =
          bind-some (decode root) (λ a. some (document_of t root a)) d
            (sym (deserialize_session-parsed t root e) ∙ h) in
        let same : document_of t root a ≡ d = some_inj.0 g in
        subst
          (λ x.
            (root : Json) × (parse scan t ≡ parsed root [])
            × (decode root ≡ some x.application)
            × (x ≡ document_of t root x.application))
          same (root, e, f, refl)
  ]
