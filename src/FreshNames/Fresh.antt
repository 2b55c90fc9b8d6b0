-- ===== src/FreshNames/Fresh.antt =====
-- The names that are made up are free, and the searches for them end.
use mathlib.Core.Option
use pane_dock.Common.{
  ℕ, zero, suc, ◌+◌, ◌≤◌, ◌<◌, ◌≡◌, ◌≢◌, refl, sym, ap, ◌∙◌, true, false, ◌||◌, List, [], ◌∷◌, ◌++◌,
  none, some, Text, ◌%◌, ◌^◌, text_eq, length, length-append, Option-cases, any, map, arith,
  Bool-cases, inl, inr,
}
use pane_dock.Ids.{has_id}
use pane_dock.Model.{GroupState, PaneState, TabState, ApplicationState, tab_id, group_id}
use pane_dock.FreshNames.{
  tab_prefix, name_prefix, group_prefix, stamped, stamped_id, greatest_number, next_group_id,
  tab_ids, tab_taken, name_taken, tab_name, group_name, next_tab_id, next_group_name,
}
use pane_dock.FreshNames.Search.{listed, first_free-finds}

tail_of : Text → Text
tail_of [] = []
tail_of (c ∷ t) = t

append-inj : (p s t : Text) → p ++ s ≡ p ++ t → s ≡ t
append-inj [] s t e = e
append-inj (c ∷ p) s t e = append-inj p s t (unfold tail_of in ap tail_of e)

listed-append : (t : Text) (xs ys : List Text) → listed t (xs ++ ys) ≡ (listed t xs || listed t ys)
listed-append t [] ys = refl
listed-append t (x ∷ xs) ys = ground (arith, listed-append t xs ys)

listed-tabs : (t : Text) (tabs : List TabState) → listed t (map tab_id tabs) ≡ has_id tab_id t tabs
listed-tabs t [] = refl
listed-tabs t (x ∷ tabs) = ap (λ b. text_eq x.id t || b) (listed-tabs t tabs)

listed-tab_ids :
    (t : Text) (panes : List PaneState)
    → listed t (tab_ids panes) ≡ any (λ pane. has_id tab_id t pane.tabs) panes
unfolding tab_ids
listed-tab_ids t [] = refl
listed-tab_ids t (p ∷ panes) =
    listed-append t (map tab_id p.tabs) (tab_ids panes)
    ∙ rw (listed-tabs t p.tabs, listed-tab_ids t panes) refl

listed-names :
    (t : Text) (groups : List GroupState)
    → listed t (map (λ g. g.name) groups) ≡ any (λ g. text_eq g.name t) groups
listed-names t [] = refl
listed-names t (g ∷ groups) = ap (λ b. text_eq g.name t || b) (listed-names t groups)

length-map : (groups : List GroupState) → length (map (λ g. g.name) groups) ≡ length groups
length-map [] = refl
length-map (g ∷ groups) = ap suc (length-map groups)

listed-ids :
    (t : Text) (groups : List GroupState)
    → listed t (map group_id groups) ≡ has_id group_id t groups
listed-ids t [] = refl
listed-ids t (g ∷ groups) = ap (λ b. text_eq g.id t || b) (listed-ids t groups)

length-ids : (groups : List GroupState) → length (map group_id groups) ≡ length groups
length-ids [] = refl
length-ids (g ∷ groups) = ap suc (length-ids groups)

longer : (s t : Text) → s ≢ s ++ 0x2d ∷ t
longer s t e = let lengths = ap length e in absurd (omega (arith, length-append s (0x2d ∷ t)))

-- The branches of `next_group_id`.
module _ (decimal : ℕ → Text) (a : ApplicationState) (ticks : Text) where
  next_group_id-malformed :
      greatest_number 0 a.groups ≡ none → next_group_id decimal a ticks ≡ stamped_id decimal a ticks
  unfolding next_group_id
  next_group_id-malformed e = rw (next_group_id, e) refl

  next_group_id-free :
      (n : ℕ)
      → greatest_number 0 a.groups ≡ some n
      → has_id group_id (group_prefix ++ decimal ((n + 1) % 2 ^ 64)) a.groups ≡ false
      → next_group_id decimal a ticks ≡ some (group_prefix ++ decimal ((n + 1) % 2 ^ 64))
  unfolding next_group_id
  next_group_id-free n e free = rw (next_group_id, e) (rw free refl)

  next_group_id-used :
      (n : ℕ)
      → greatest_number 0 a.groups ≡ some n
      → has_id group_id (group_prefix ++ decimal ((n + 1) % 2 ^ 64)) a.groups ≡ true
      → next_group_id decimal a ticks ≡ stamped_id decimal a ticks
  unfolding next_group_id
  next_group_id-used n e used = rw (next_group_id, e) (rw used refl)

module _ (decimal : ℕ → Text) (decimal_inj : (i j : ℕ) → decimal i ≡ decimal j → i ≡ j) where
  -- A search for a tab id ends with one that no tab of the group has, and with the index behind its number;
  -- from the index on it is the first one that is free, given that numbers are written apart.
  pub next_tab_id-IsFresh :
      (g : GroupState) (index : ℕ)
      → (k : ℕ) × (next_tab_id decimal g index ≡ some (tab_name decimal k, suc k))
        × (index ≤ k)
        × (tab_taken g (tab_name decimal k) ≡ false)
        × ((j : ℕ) → index ≤ j → j < k → tab_taken g (tab_name decimal j) ≡ true)
  unfolding next_tab_id
  next_tab_id-IsFresh g index =
      let (k, found, after, free, before) =
        first_free-finds (tab_taken g) (tab_name decimal)
          (λ i j e. decimal_inj i j (append-inj tab_prefix (decimal i) (decimal j) e))
          (suc (length (tab_ids g.panes))) index (tab_ids g.panes) (omega arith)
          (λ j l t. listed-tab_ids (tab_name decimal j) g.panes ∙ t) in
      (k, ap (Option.map (λ i. (tab_name decimal i, suc i))) found, after, free, before)

  -- A search for a group name ends with the first of the numbered names that no group has, given that
  -- numbers are written apart.
  pub next_group_name-IsFresh :
      (a : ApplicationState)
      → (k : ℕ) × (next_group_name decimal a ≡ some (group_name decimal k))
        × (1 ≤ k)
        × (name_taken a (group_name decimal k) ≡ false)
        × ((j : ℕ) → 1 ≤ j → j < k → name_taken a (group_name decimal j) ≡ true)
  unfolding next_group_name
  next_group_name-IsFresh a =
      let (k, found, after, free, before) =
        first_free-finds (name_taken a) (group_name decimal)
          (λ i j e. decimal_inj i j (append-inj name_prefix (decimal i) (decimal j) e))
          (suc (length a.groups)) 1 (map (λ g. g.name) a.groups)
          (omega (arith, length-map a.groups))
          (λ j l t. listed-names (group_name decimal j) a.groups ∙ t) in
      (k, ap (Option.map (group_name decimal)) found, after, free, before)

  stamped-inj : (ticks : Text) (i j : ℕ) → stamped decimal ticks i ≡ stamped decimal ticks j → i ≡ j
  stamped-inj ticks zero zero e = refl
  stamped-inj ticks zero (suc j) e = absurd (longer (group_prefix ++ ticks) (decimal (suc j)) e)
  stamped-inj ticks (suc i) zero e =
      absurd (longer (group_prefix ++ ticks) (decimal (suc i)) (sym e))
  stamped-inj ticks (suc i) (suc j) e = decimal_inj (suc i) (suc j) (
      append-inj (0x2d ∷ []) (decimal (suc i)) (decimal (suc j))
        (append-inj (group_prefix ++ ticks) (0x2d ∷ decimal (suc i)) (0x2d ∷ decimal (suc j)) e))

  stamped_id-IsFresh :
      (a : ApplicationState) (ticks : Text)
      → (id : Text) × (stamped_id decimal a ticks ≡ some id) × (has_id group_id id a.groups ≡ false)
  unfolding stamped_id
  stamped_id-IsFresh a ticks =
      let (k, found, after, free, before) =
        first_free-finds (λ t. has_id group_id t a.groups) (stamped decimal ticks)
          (stamped-inj ticks) (suc (length a.groups)) 0 (map group_id a.groups)
          (omega (arith, length-ids a.groups))
          (λ j l t. listed-ids (stamped decimal ticks j) a.groups ∙ t) in
      (stamped decimal ticks k, ap (Option.map (stamped decimal ticks)) found, free)

  -- The id made up for a new group, whatever the ids in use spell and whatever the clock shows, is there and
  -- is no group's, given that numbers are written apart.
  pub next_group_id-IsFresh :
      (a : ApplicationState) (ticks : Text)
      → (id : Text) × (next_group_id decimal a ticks ≡ some id)
        × (has_id group_id id a.groups ≡ false)
  next_group_id-IsFresh a ticks =
      let (stamp, made, new) = stamped_id-IsFresh a ticks in
      elim (Option-cases (greatest_number 0 a.groups)) [
        | inl e ↦ (stamp, next_group_id-malformed decimal a ticks e ∙ made, new)
        | inr (n, e) ↦
            let candidate = group_prefix ++ decimal ((n + 1) % 2 ^ 64) in
            elim (Bool-cases (has_id group_id candidate a.groups)) [
              | inr free ↦ (candidate, next_group_id-free decimal a ticks n e free, free)
              | inl used ↦ (stamp, next_group_id-used decimal a ticks n e used ∙ made, new)
            ]
      ]
