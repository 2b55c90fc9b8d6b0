-- ===== src/FreshNames/Search.antt =====
-- A search for a free name among names that are told apart ends within one step more than the names in use.
use pane_dock.Common.{
  ℕ, zero, suc, ◌≤◌, ◌<◌, ◌≡◌, ◌≢◌, refl, sym, subst, ◌∙◌, Bool, true, false, List, [], ◌∷◌, some,
  Text, Text-discrete, text_eq, if◌then◌else◌, leb, leb→le, length, any, holds-true, holds_of_not,
  arith, Bool-cases, inl, inr,
}
use pane_dock.FreshNames.{first_free}

-- A name among those in use.
abbrev pub listed : Text → List Text → Bool
listed t names = any (λ n. text_eq n t) names

remove : Text → List Text → List Text
remove t [] = []
remove t (n ∷ names) = let rest = remove t names in if text_eq n t then names else n ∷ rest

length-remove :
    (t : Text) (names : List Text)
    → listed t names ≡ true
    → suc (length (remove t names)) ≡ length names
unfolding remove
length-remove t [] h = absurd cc
length-remove t (n ∷ names) h = elim (Bool-cases (text_eq n t)) [
  | inl e ↦ rw e refl
  | inr e ↦ ground (arith, length-remove t names)
]

listed-remove :
    (s t : Text) (names : List Text)
    → s ≢ t
    → listed s names ≡ true
    → listed s (remove t names) ≡ true
unfolding remove
listed-remove s t [] d h = absurd cc
listed-remove s t (n ∷ names) d h = elim (Bool-cases (text_eq n t)) [
  | inl e ↦
      let other : text_eq n s ≡ false =
        holds_of_not (Text-discrete n s) λ same. d (sym same ∙ holds-true (Text-discrete n t) e) in
      rw e ground (arith, other)
  | inr e ↦ rw e ground (arith, listed-remove s t names d)
]

module _ (taken : Text → Bool) (name : ℕ → Text) (apart : (i j : ℕ) → name i ≡ name j → i ≡ j) where
  pub first_free-finds :
      (fuel i : ℕ) (names : List Text)
      → length names < fuel
      → ((j : ℕ) → i ≤ j → taken (name j) ≡ true → listed (name j) names ≡ true)
      → (k : ℕ) × (first_free taken name fuel i ≡ some k)
        × (i ≤ k)
        × (taken (name k) ≡ false)
        × ((j : ℕ) → i ≤ j → j < k → taken (name j) ≡ true)
  unfolding first_free
  first_free-finds zero i names h covers = absurd (omega arith)
  first_free-finds (suc fuel) i names h covers = elim (Bool-cases (taken (name i))) [
    | inr free ↦ (i, rw free refl, omega arith, free, λ j l m. absurd (omega arith))
    | inl used ↦
        let shorter = length-remove (name i) names (covers i (omega arith) used) in
        let (k, found, after, free, before) =
          first_free-finds fuel (suc i) (remove (name i) names) (omega arith) λ j l t.
            listed-remove (name j) (name i) names (λ same. absurd (omega (arith, apart j i same)))
              (covers j (omega arith) t) in
        (k, rw used found, omega arith, free, λ j l m. first_or j l used (before j) m)
  ]
    where
      first_or :
          {k : ℕ} (j : ℕ)
          → i ≤ j
          → taken (name i) ≡ true
          → (suc i ≤ j → j < k → taken (name j) ≡ true)
          → j < k
          → taken (name j) ≡ true
      first_or j l used later m = elim (Bool-cases (leb (suc i) j)) [
        | inl after ↦ later (leb→le (suc i) j after) m
        | inr here ↦ let same : i ≡ j = ground arith in subst (λ n. taken (name n) ≡ true) same used
      ]
