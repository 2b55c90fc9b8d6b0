-- ===== src/Panes/Valid.antt =====
-- Every tab operation keeps a pane valid.
use pane_dock.Common.{
  ℕ, ◌<◌, ◌≡◌, ◌≢◌, ◌↔◌, refl, true, false, List, [], ◌∷◌, ◌++◌, none, some, Text, arith, length,
  insert_at, length-insert_at, length-append, All, All-append, All-insert_at, ◌==◌, Option-cases,
  Bool-cases, inl, inr, ◌⊎◌,
}
use pane_dock.Ids.{has_id, find_id, erase_id, update_id}
use pane_dock.Ids.Unique.{
  UniqueIds, is_empty_iff, Fresh-of_has_id, Fresh-erase_id_self, UniqueIds-erase_id,
  UniqueIds-append_one, UniqueIds-insert_at,
}
use pane_dock.Ids.Places.{
  has_id-insert_at, has_id-append_one, has_id_of_find, has_id-erase_ne, length-erase_id,
  next_id-has_id,
}
use pane_dock.Model.{ShellLocation, TabState, PaneState, tab_id, has_valid_history}
use pane_dock.Model.Valid.{IsValidPane, has_valid_history_iff}
use pane_dock.Panes.{add_tab, reorder_tab, reset_tab, without_tab, close_tab}

abbrev pub Histories : List TabState → Type 0
Histories = All (λ t. has_valid_history t ≡ true)

pub Histories-erase_id :
    (t : Text) (xs : List TabState) → Histories xs → Histories (erase_id tab_id t xs)
Histories-erase_id t [] h = tt
Histories-erase_id t (x ∷ xs) h = ground (arith, Histories-erase_id t xs h.1)

pub Histories-find :
    (t : Text) (xs : List TabState) (x : TabState)
    → Histories xs
    → find_id tab_id t xs ≡ some x
    → has_valid_history x ≡ true
Histories-find t [] x h f = cc
Histories-find t (y ∷ ys) x h f = ground (arith, Histories-find t ys x h.1)

pub UniqueIds-find :
    (t : Text) (xs : List TabState) (x : TabState)
    → UniqueIds tab_id xs
    → find_id tab_id t xs ≡ some x
    → x.id ≢ []
UniqueIds-find t [] x u f = cc
UniqueIds-find t (y ∷ ys) x u f = ground (arith, UniqueIds-find t ys x u.2)

pub reset_tab-valid :
    (home : ShellLocation) (t : TabState) → has_valid_history (reset_tab home t) ≡ true
unfolding reset_tab
reset_tab-valid home t = (has_valid_history_iff _).1 (inl refl)

-- A tab is added exactly when its id is neither empty nor taken, and then it stands last.
pub add_tab_iff :
    (p : PaneState) (t : TabState) (q : PaneState)
    → (add_tab p t ≡ some q) ↔ (
        (t.id ≢ [])
        × (has_id tab_id t.id p.tabs ≡ false)
        × (q ≡ record p { tabs = p.tabs ++ t ∷ [] }))
unfolding add_tab
add_tab_iff p t q =
    let e = is_empty_iff t.id in (λ h. ground (arith, e.1), λ h. ground (arith, e.0))

appended-IsValidPane :
    (p : PaneState) (t : TabState)
    → IsValidPane p
    → has_valid_history t ≡ true
    → t.id ≢ []
    → has_id tab_id t.id p.tabs ≡ false
    → IsValidPane (record p { tabs = p.tabs ++ t ∷ [] })
appended-IsValidPane p t v h named fresh = record {
  inhabited = omega (arith, length-append p.tabs (t ∷ []));
  unique =
      UniqueIds-append_one tab_id p.tabs t v.unique named
        (Fresh-of_has_id tab_id t.id p.tabs fresh);
  active = ground (arith, has_id-append_one tab_id p.active_tab_id p.tabs t, v.active);
  histories = All-append _ p.tabs (t ∷ []) v.histories (h, tt);
}

-- A tab with a valid history that a valid pane accepts leaves the pane valid.
pub add_tab-IsValidPane :
    (p : PaneState) (t : TabState) {q : PaneState}
    → IsValidPane p
    → has_valid_history t ≡ true
    → add_tab p t ≡ some q
    → IsValidPane q
add_tab-IsValidPane p t {q} v h added =
    let (named, fresh, e) = (add_tab_iff p t q).0 added in
    rw e (appended-IsValidPane p t v h named fresh)

-- A tab moves within its pane exactly when the pane has it and the target is in range.
pub reorder_tab_iff :
    (p : PaneState) (t : Text) (target : ℕ) (q : PaneState)
    → (reorder_tab p t target ≡ some q) ↔ (
        (moved : TabState) × (find_id tab_id t p.tabs ≡ some moved)
        × (target < length p.tabs)
        × (q ≡ record p { tabs = insert_at target moved (erase_id tab_id t p.tabs) }))
unfolding reorder_tab
reorder_tab_iff p t target q =
    (λ h. inversion (Option-cases (find_id tab_id t p.tabs)) h, λ (m, f, l, e). ground arith)
  where
    inversion :
        (find_id tab_id t p.tabs ≡ none)
          ⊎ ((moved : TabState) × (find_id tab_id t p.tabs ≡ some moved))
        → reorder_tab p t target ≡ some q
        → (moved : TabState) × (find_id tab_id t p.tabs ≡ some moved)
          × (target < length p.tabs)
          × (q ≡ record p { tabs = insert_at target moved (erase_id tab_id t p.tabs) })
    inversion (inl e) h = absurd (ground arith)
    inversion (inr (m, e)) h = (m, e, ground arith, ground arith)

-- The tabs after one was erased and inserted elsewhere.
moved-IsValidPane :
    (p : PaneState) (t : Text) (n : ℕ) (x : TabState)
    → IsValidPane p
    → find_id tab_id t p.tabs ≡ some x
    → IsValidPane (record p { tabs = insert_at n x (erase_id tab_id t p.tabs) })
moved-IsValidPane p t n x v found =
    let rest = erase_id tab_id t p.tabs in
    let (has, e) = has_id_of_find tab_id t p.tabs x found in
    record {
      inhabited = omega (arith, length-insert_at n x rest);
      unique =
          UniqueIds-insert_at tab_id n x rest (UniqueIds-erase_id tab_id t p.tabs v.unique)
            (UniqueIds-find t p.tabs x v.unique found)
            (rw e (Fresh-erase_id_self tab_id t p.tabs v.unique));
      active = ground (
        arith,
        has_id-insert_at tab_id p.active_tab_id n x rest,
        has_id-erase_ne tab_id p.active_tab_id t p.tabs,
        v.active,
        e,
      );
      histories =
          All-insert_at _ n x rest (Histories-find t p.tabs x v.histories found)
            (Histories-erase_id t p.tabs v.histories);
    }

-- A reorder that a valid pane accepts leaves the pane valid.
pub reorder_tab-IsValidPane :
    (p : PaneState) (t : Text) (target : ℕ) {q : PaneState}
    → IsValidPane p
    → reorder_tab p t target ≡ some q
    → IsValidPane q
reorder_tab-IsValidPane p t target {q} v moved =
    let (x, found, _, e) = (reorder_tab_iff p t target q).0 moved in
    rw e (moved-IsValidPane p t target x v found)

pub without_tab-IsValidPane :
    (p : PaneState) (t : Text)
    → IsValidPane p
    → has_id tab_id t p.tabs ≡ true
    → 1 < length p.tabs
    → IsValidPane (without_tab p t)
unfolding without_tab
without_tab-IsValidPane p t v has many = record {
  inhabited = omega (arith, length-erase_id tab_id t p.tabs has);
  unique = UniqueIds-erase_id tab_id t p.tabs v.unique;
  active = ground (
    arith,
    next_id-has_id tab_id t p.tabs has many,
    has_id-erase_ne tab_id p.active_tab_id t p.tabs,
    v.active,
  );
  histories = Histories-erase_id t p.tabs v.histories;
}

pub one-updated :
    (t : Text) (f : TabState → TabState) (xs : List TabState)
    → has_id tab_id t xs ≡ true
    → length xs ≡ 1
    → (x : TabState) × (xs ≡ x ∷ []) × (x.id ≡ t) × (update_id tab_id t f xs ≡ f x ∷ [])
one-updated t f [] h k = cc
one-updated t f (x ∷ []) h k = (x, refl, ground arith, ground arith)
one-updated t f (x ∷ y ∷ ys) h k = absurd (omega arith)

-- A pane whose only tab was reset, under an id of its own.
pub reset-IsValidPane :
    (p : PaneState) (t new : Text) (home : ShellLocation)
    → has_id tab_id t p.tabs ≡ true
    → length p.tabs ≡ 1
    → new ≢ []
    → IsValidPane (record p {
      tabs = update_id tab_id t (λ x. record (reset_tab home x) { id = new }) p.tabs;
      active_tab_id = new;
    })
reset-IsValidPane p t new home has one named =
    let (x, e, i, u) = one-updated t (λ x. record (reset_tab home x) { id = new }) p.tabs has one in
    rw u (record {
      inhabited = omega arith;
      unique = (named, tt, tt);
      active = ground arith;
      histories = (renamed x, tt);
    })
  where
    renamed : (x : TabState) → has_valid_history (record (reset_tab home x) { id = new }) ≡ true
    renamed x = (has_valid_history_iff _).1 (unfold reset_tab in inl refl)

-- The pane that `close_tab` leaves where it has one tab only.
kept-IsValidPane :
    (p : PaneState) (t : Text) (home : ShellLocation)
    → IsValidPane p
    → has_id tab_id t p.tabs ≡ true
    → length p.tabs ≡ 1
    → IsValidPane (record p { tabs = update_id tab_id t (reset_tab home) p.tabs })
unfolding reset_tab
kept-IsValidPane p t home v has one =
    let (x, e, i, u) = one-updated t (reset_tab home) p.tabs has one in
    let unique : UniqueIds tab_id (x ∷ []) = rw e at v.unique in
    let active : has_id tab_id p.active_tab_id (x ∷ []) ≡ true = rw e at v.active in
    rw u (record {
      inhabited = omega arith;
      unique = unique;
      active = active;
      histories = (reset_tab-valid home x, tt);
    })

-- Closing a tab keeps the pane valid: it never becomes empty, and its active tab is still one of its
-- tabs. It is refused exactly where the pane does not have the tab.
pub close_tab-IsValidPane :
    (p : PaneState) (t : Text) (home : ShellLocation)
    → IsValidPane p
    → ((has_id tab_id t p.tabs ≡ false) × (close_tab p t home ≡ none))
      ⊎ ((q : PaneState) × (close_tab p t home ≡ some q) × IsValidPane q)
unfolding close_tab
close_tab-IsValidPane p t home v = elim (Bool-cases (has_id tab_id t p.tabs)) [
  | inr missing ↦ inl (missing, ground arith)
  | inl has ↦ elim (Bool-cases (length p.tabs == 1)) [
    | inl one ↦ inr (
      record p { tabs = update_id tab_id t (reset_tab home) p.tabs },
      ground arith,
      kept-IsValidPane p t home v has (ground arith),
    )
    | inr many ↦ inr (
      without_tab p t,
      ground arith,
      without_tab-IsValidPane p t v has (ground (arith, v.inhabited)),
    )
  ]
]
