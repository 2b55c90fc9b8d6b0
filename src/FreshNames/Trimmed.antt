-- ===== src/FreshNames/Trimmed.antt =====
-- `normalize_group_name` takes the blanks off both ends, and nothing else.
use mathlib.Core.List.{append_assoc}
use pane_dock.Common.{
  ℕ, ◌≡◌, refl, sym, ap, ◌∙◌, Bool, true, false, [], ◌∷◌, ◌++◌, Text, all, Bool-cases, ◌⊎◌, inl,
  inr,
}
use pane_dock.FreshNames.{is_blank, trim_front, trim_back, keep_before, normalize_group_name}

-- A blank at the front, and at the end.
abbrev pub starts_blank : Text → Bool
starts_blank [] = false
starts_blank (c ∷ t) = is_blank c

abbrev pub ends_blank : Text → Bool
ends_blank [] = false
ends_blank (c ∷ []) = is_blank c
ends_blank (c ∷ d ∷ t) = ends_blank (d ∷ t)

trim_front-parts :
    (t : Text)
    → (front : Text) × (t ≡ front ++ trim_front t)
      × (all is_blank front ≡ true)
      × (starts_blank (trim_front t) ≡ false)
unfolding trim_front
trim_front-parts [] = ([], refl, refl, refl)
trim_front-parts (c ∷ t) = elim (Bool-cases (is_blank c)) [
  | inl e ↦
      let (front, w, b, s) = trim_front-parts t in
      (c ∷ front, rw e (ap (λ u. c ∷ u) w), rw (e, b) refl, rw e s)
  | inr e ↦ ([], rw e refl, refl, rw e e)
]

keep_before-parts :
    (c : ℕ) (t : Text)
    → ends_blank t ≡ false
    → (ends_blank (keep_before c t) ≡ false)
      × ((keep_before c t ≡ c ∷ t) ⊎ ((t ≡ []) × (keep_before c t ≡ []) × (is_blank c ≡ true)))
unfolding keep_before
keep_before-parts c [] h = elim (Bool-cases (is_blank c)) [
  | inl e ↦ rw e (refl, inr (refl, refl, refl))
  | inr e ↦ rw e (e, inl refl)
]
keep_before-parts c (d ∷ t) h = (h, inl refl)

trim_back-parts :
    (t : Text)
    → (back : Text) × (t ≡ trim_back t ++ back)
      × (all is_blank back ≡ true)
      × (ends_blank (trim_back t) ≡ false)
unfolding trim_back
trim_back-parts [] = ([], refl, refl, refl)
trim_back-parts (c ∷ t) =
    let (back, w, b, s) = trim_back-parts t in
    let (ends, kept) = keep_before-parts c (trim_back t) s in
    elim kept [
      | inl k ↦ (back, rw k (ap (λ u. c ∷ u) w), b, ends)
      | inr (n, k, blank) ↦
          (c ∷ back, rw k (ap (λ u. c ∷ u) (w ∙ rw n refl)), rw (blank, b) refl, ends)
    ]

trim_back-starts : (t : Text) → starts_blank t ≡ false → starts_blank (trim_back t) ≡ false
unfolding trim_back
trim_back-starts [] h = refl
trim_back-starts (c ∷ t) h =
    let (back, w, b, s) = trim_back-parts t in
    let (ends, kept) = keep_before-parts c (trim_back t) s in
    elim kept [ inl k ↦ rw k h | inr (n, k, blank) ↦ rw k refl ]

-- A normalized name is what stands between blanks at both ends of the name, and has no blank at either
-- end itself.
pub normalize_group_name-IsTrimmed :
    (name : Text)
    → (front : Text) × (back : Text) × (name ≡ front ++ normalize_group_name name ++ back)
      × (all is_blank front ≡ true)
      × (all is_blank back ≡ true)
      × (starts_blank (normalize_group_name name) ≡ false)
      × (ends_blank (normalize_group_name name) ≡ false)
unfolding normalize_group_name
normalize_group_name-IsTrimmed name =
    let (front, w, b, s) = trim_front-parts name in
    let (back, v, c, e) = trim_back-parts (trim_front name) in
    (
      front,
      back,
      w ∙ ap (λ u. front ++ u) v ∙ sym (append_assoc front (trim_back (trim_front name)) back),
      b,
      c,
      trim_back-starts (trim_front name) s,
      e,
    )
