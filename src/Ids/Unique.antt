-- ===== src/Ids/Unique.antt =====
-- Unique, non-empty ids as a predicate, the test that decides it, and what keeps it.
use pane_dock.Common.{
  ℕ, zero, suc, ◌≡◌, ◌≢◌, ◌↔◌, refl, sym, true, false, List, [], ◌∷◌, ◌++◌, Text, text_eq, any,
  arith, insert_at,
}
use pane_dock.Ids.{is_empty, has_id, unique_from, has_unique_ids, erase_id}

pub is_empty_iff : (t : Text) → (is_empty t ≡ true) ↔ (t ≡ [])
is_empty_iff [] = (λ h. refl, λ h. refl)
is_empty_iff (c ∷ t) = (λ h. cc, λ h. cc)

module _ {A : Type 0} (id_of : A → Text) where
  -- `t` is the id of no element.
  abbrev pub Fresh : Text → List A → Type 0
  Fresh t [] = Unit {0}
  Fresh t (x ∷ xs) = (id_of x ≢ t) × Fresh t xs

  abbrev pub UniqueIds : List A → Type 0
  UniqueIds [] = Unit {0}
  UniqueIds (x ∷ xs) = (id_of x ≢ []) × Fresh (id_of x) xs × UniqueIds xs

  pub Fresh-of_has_id : (t : Text) (xs : List A) → has_id id_of t xs ≡ false → Fresh t xs
  Fresh-of_has_id t [] h = tt
  Fresh-of_has_id t (x ∷ xs) h = ground (arith, Fresh-of_has_id t xs)

  pub has_id_of_Fresh : (t : Text) (xs : List A) → Fresh t xs → has_id id_of t xs ≡ false
  has_id_of_Fresh t [] h = refl
  has_id_of_Fresh t (x ∷ xs) h = ground (arith, has_id_of_Fresh t xs h.1)

  pub Fresh-erase_id : (t u : Text) (xs : List A) → Fresh t xs → Fresh t (erase_id id_of u xs)
  Fresh-erase_id t u [] h = tt
  Fresh-erase_id t u (x ∷ xs) h = ground (arith, Fresh-erase_id t u xs h.1)

  pub UniqueIds-erase_id : (u : Text) (xs : List A) → UniqueIds xs → UniqueIds (erase_id id_of u xs)
  UniqueIds-erase_id u [] h = tt
  UniqueIds-erase_id u (x ∷ xs) h =
      ground (arith, UniqueIds-erase_id u xs h.2, Fresh-erase_id (id_of x) u xs h.1)

  -- Erasing the one element with an id leaves the id free.
  pub Fresh-erase_id_self : (t : Text) (xs : List A) → UniqueIds xs → Fresh t (erase_id id_of t xs)
  Fresh-erase_id_self t [] h = tt
  Fresh-erase_id_self t (x ∷ xs) h = ground (arith, Fresh-erase_id_self t xs h.2)

  pub Fresh-append_one :
      (t : Text) (xs : List A) (x : A) → Fresh t xs → id_of x ≢ t → Fresh t (xs ++ x ∷ [])
  Fresh-append_one t [] x h k = (k, tt)
  Fresh-append_one t (y ∷ ys) x h k = (h.0, Fresh-append_one t ys x h.1 k)

  pub UniqueIds-append_one :
      (xs : List A) (x : A)
      → UniqueIds xs
      → id_of x ≢ []
      → Fresh (id_of x) xs
      → UniqueIds (xs ++ x ∷ [])
  UniqueIds-append_one [] x u k f = (k, tt, tt)
  UniqueIds-append_one (y ∷ ys) x u k f = (
    u.0,
    Fresh-append_one (id_of y) ys x u.1 (λ e. f.0 (sym e)),
    UniqueIds-append_one ys x u.2 k f.1,
  )

  pub Fresh-insert_at :
      (t : Text) (n : ℕ) (x : A) (xs : List A)
      → Fresh t xs
      → id_of x ≢ t
      → Fresh t (insert_at n x xs)
  Fresh-insert_at t zero x xs h k = (k, h)
  Fresh-insert_at t (suc n) x [] h k = (k, tt)
  Fresh-insert_at t (suc n) x (y ∷ ys) h k = (h.0, Fresh-insert_at t n x ys h.1 k)

  pub UniqueIds-insert_at :
      (n : ℕ) (x : A) (xs : List A)
      → UniqueIds xs
      → id_of x ≢ []
      → Fresh (id_of x) xs
      → UniqueIds (insert_at n x xs)
  UniqueIds-insert_at zero x xs u k f = (k, f, u)
  UniqueIds-insert_at (suc n) x [] u k f = (k, tt, tt)
  UniqueIds-insert_at (suc n) x (y ∷ ys) u k f = (
    u.0,
    Fresh-insert_at (id_of y) n x ys u.1 (λ e. f.0 (sym e)),
    UniqueIds-insert_at n x ys u.2 k f.1,
  )

  -- The loop's set and the predicate say the same.
  abbrev Unseen : List Text → List A → Type 0
  Unseen [] xs = Unit {0}
  Unseen (s ∷ ss) xs = Fresh s xs × Unseen ss xs

  Unseen-cons :
      (seen : List Text) (x : A) (xs : List A)
      → Unseen seen (x ∷ xs) ↔ ((any (λ s. text_eq s (id_of x)) seen ≡ false) × Unseen seen xs)
  Unseen-cons [] x xs = ground arith
  Unseen-cons (s ∷ ss) x xs =
      let ih = Unseen-cons ss x xs in (λ h. ground (arith, ih.0), λ h. ground (arith, ih.1))

  Unseen-nil : (seen : List Text) → Unseen seen []
  Unseen-nil [] = tt
  Unseen-nil (s ∷ ss) = (tt, Unseen-nil ss)

  unique_from_iff :
      (seen : List Text) (xs : List A)
      → (unique_from id_of seen xs ≡ true) ↔ (Unseen seen xs × UniqueIds xs)
  unfolding unique_from
  unique_from_iff seen [] = (λ h. (Unseen-nil seen, tt), λ h. refl)
  unique_from_iff seen (x ∷ xs) =
      let ih = unique_from_iff (id_of x ∷ seen) xs in
      let e = is_empty_iff (id_of x) in
      let u = Unseen-cons seen x xs in
      (λ h. ground (arith, ih.0, e.0, e.1, u.0, u.1), λ h. ground (arith, ih.1, e.0, e.1, u.0, u.1))

  -- `has_unique_ids` decides that the ids are non-empty and pairwise distinct.
  pub has_unique_ids_iff : (xs : List A) → (has_unique_ids id_of xs ≡ true) ↔ UniqueIds xs
  unfolding has_unique_ids
  has_unique_ids_iff xs =
      let (to, from) = unique_from_iff [] xs in (λ h. (to h).1, λ h. from (tt, h))
