-- ===== src/History/Laws.antt =====
-- The history as a line of visits: what each move keeps, and how the moves undo one another.
use pane_dock.Common.{
  ℕ, zero, suc, ◌+◌, ◌-◌, ◌≤◌, ◌<◌, ◌≡◌, ◌≢◌, ◌↔◌, refl, true, false, List, [], ◌∷◌, ◌++◌, none,
  some, arith, length, get_elem?, take, length-append, length-take, get_elem?-append_last, ◌⊎◌, inl,
  inr,
}
use pane_dock.Model.{ShellLocation, TabState}
use pane_dock.Model.Valid.{IsValidTab}
use pane_dock.History.{
  seeded, pushed, record_navigation, can_navigate_tab_back, can_navigate_tab_forward, go_to,
  navigate_tab_back, navigate_tab_forward, restore_tab_history_index, step_from,
  history_step_target,
}

get_elem?-lt : {A : Type 0} (xs : List A) (i : ℕ) (x : A) → get_elem? xs i ≡ some x → i < length xs
get_elem?-lt [] i x h = cc
get_elem?-lt (y ∷ ys) zero x h = omega arith
get_elem?-lt (y ∷ ys) (suc i) x h = omega (arith, get_elem?-lt ys i x h)

get_elem?-of_lt :
    {A : Type 0} (xs : List A) (i : ℕ) → i < length xs → (x : A) × (get_elem? xs i ≡ some x)
get_elem?-of_lt [] i h = absurd (omega arith)
get_elem?-of_lt (y ∷ ys) zero h = (y, refl)
get_elem?-of_lt (y ∷ ys) (suc i) h = get_elem?-of_lt ys i (omega arith)

get_elem?-take_append :
    {A : Type 0} (n : ℕ) (xs ys : List A) (i : ℕ)
    → i < n
    → i < length xs
    → get_elem? (take n xs ++ ys) i ≡ get_elem? xs i
get_elem?-take_append zero xs ys i h k = absurd (omega arith)
get_elem?-take_append (suc n) [] ys i h k = absurd (omega arith)
get_elem?-take_append (suc n) (x ∷ xs) ys zero h k = refl
get_elem?-take_append (suc n) (x ∷ xs) ys (suc i) h k =
    get_elem?-take_append n xs ys i (omega arith) (omega arith)

abbrev IsAt : TabState → Type 0
IsAt t = get_elem? t.history t.history_index ≡ some t.location

seeded-IsAt : (t : TabState) → IsValidTab t → IsAt (seeded t) × ((seeded t).location ≡ t.location)
unfolding seeded
seeded-IsAt t v = ground arith

record Pushes (t : TabState) (l : ShellLocation) (u : TabState) : Type 0 where
  grown : length u.history ≡ t.history_index + 2
  index : u.history_index ≡ t.history_index + 1
  last : get_elem? u.history (t.history_index + 1) ≡ some l
  before : (i : ℕ) → i ≤ t.history_index → get_elem? u.history i ≡ get_elem? t.history i
  here : u.location ≡ l

pushed-Pushes : (t : TabState) (l : ShellLocation) → IsAt t → Pushes t l (pushed t l)
unfolding pushed
pushed-Pushes t l at =
    let n = t.history_index + 1 in
    let lt = get_elem?-lt t.history t.history_index t.location at in
    let len : length (take n t.history) ≡ n = length-take n t.history (omega arith) in
    let total = length-append (take n t.history) (l ∷ []) in
    record {
      grown = omega (arith, len, total);
      index = omega (arith, len, total);
      last = rw len at (get_elem?-append_last (take n t.history) l);
      before = λ i h. get_elem?-take_append n t.history (l ∷ []) i (omega arith) (omega arith);
      here = refl;
    }

record_navigation-pushed :
    (t : TabState) (l : ShellLocation)
    → l ≢ t.location
    → record_navigation t l ≡ pushed (seeded t) l
unfolding record_navigation
record_navigation-pushed t l fresh = ground arith

-- A new visit, in a valid tab, is the current entry of a valid history, has nothing after it, and
-- Back from it returns to where the tab was, again in a valid tab.
pub record_navigation-visits :
    (t : TabState) (l : ShellLocation)
    → IsValidTab t
    → l ≢ t.location
    → let u = record_navigation t l in
      IsValidTab u
      × (u.location ≡ l)
      × (can_navigate_tab_forward u ≡ false)
      × ((b : TabState) × (navigate_tab_back u ≡ some b) × (b.location ≡ t.location) × IsValidTab b)
unfolding can_navigate_tab_forward navigate_tab_back
record_navigation-visits t l v fresh =
    let (at, same) = seeded-IsAt t v in
    let p = pushed-Pushes (seeded t) l at in
    let e = record_navigation-pushed t l fresh in
    let n = (seeded t).history_index in
    let u = pushed (seeded t) l in
    rw e (
      inr (ground (arith, p.index, p.last, p.here)),
      p.here,
      ground (arith, p.grown, p.index),
      (
        record u { location = t.location; history_index = n },
        ground (arith, p.grown, p.index, p.before n, at, same),
        refl,
        inr (ground (arith, p.before n, at, same)),
      ),
    )

-- Repeating the current location changes nothing.
pub record_navigation-same :
    (t : TabState) (l : ShellLocation) → l ≡ t.location → record_navigation t l ≡ t
unfolding record_navigation
record_navigation-same t l e = ground arith

go_to-IsAt :
    (t : TabState) (i : ℕ) {u : TabState} → go_to t i ≡ some u → IsAt u × (u.history_index ≡ i)
unfolding go_to
go_to-IsAt t i h = ground arith

go_to_total : (t : TabState) (i : ℕ) → i < length t.history → (u : TabState) × (go_to t i ≡ some u)
unfolding go_to
go_to_total t i h =
    let (l, e) = get_elem?-of_lt t.history i h in
    (record t { location = l; history_index = i }, ground arith)

go_to-go_to :
    (t : TabState) (i : ℕ) {u : TabState}
    → IsAt t
    → go_to t i ≡ some u
    → go_to u t.history_index ≡ some t
unfolding go_to
go_to-go_to t i at h = ground arith

-- Back and Forward undo one another. In a valid tab that can go back, Back succeeds in a valid tab,
-- one entry earlier, and Forward from there restores the tab as it was; so does the index that a
-- refused move is restored by.
pub navigate_tab_back-forward :
    (t : TabState)
    → IsValidTab t
    → can_navigate_tab_back t ≡ true
    → (b : TabState) × (navigate_tab_back t ≡ some b)
      × IsValidTab b
      × (suc b.history_index ≡ t.history_index)
      × (navigate_tab_forward b ≡ some t)
      × (restore_tab_history_index b t.history_index ≡ some t)
unfolding navigate_tab_back navigate_tab_forward restore_tab_history_index can_navigate_tab_back
    can_navigate_tab_forward go_to
navigate_tab_back-forward t v can =
    let i = t.history_index - 1 in
    let at : IsAt t = ground arith in
    let lt = get_elem?-lt t.history t.history_index t.location at in
    let e : i + 1 ≡ t.history_index = ground arith in
    let (l, found) = get_elem?-of_lt t.history i (omega arith) in
    (
      record t { location = l; history_index = i },
      ground arith,
      inr found,
      ground arith,
      ground arith,
      ground arith,
    )

-- A press while an earlier history move is loading steps from that move's target: back to the entry
-- before it, forward to the one after it, and to none exactly where the history ends.
pub history_step_target-pending :
    (t : TabState) (p j : ℕ)
    → p < length t.history
    → ((history_step_target t (some p) true ≡ some j) ↔ (p ≡ suc j))
      × ((history_step_target t (some p) false ≡ some j) ↔ ((j ≡ suc p) × (j < length t.history)))
unfolding history_step_target step_from
history_step_target-pending t p j h =
    ((λ e. ground arith, λ e. ground arith), (λ e. ground arith, λ e. ground arith))

-- A press with nothing loading targets the entry that Back or Forward moves to, in a valid tab, and
-- has no target exactly where they refuse.
pub history_step_target-navigate :
    (t : TabState) (j : ℕ)
    → IsValidTab t
    → ((history_step_target t none true ≡ some j)
        ↔ ((u : TabState) × (navigate_tab_back t ≡ some u) × (u.history_index ≡ j)))
      × ((history_step_target t none false ≡ some j)
          ↔ ((u : TabState) × (navigate_tab_forward t ≡ some u) × (u.history_index ≡ j)))
unfolding history_step_target navigate_tab_back navigate_tab_forward can_navigate_tab_back
    can_navigate_tab_forward go_to step_from
history_step_target-navigate t j v = (
  (
    λ h.
        let (l, e) = get_elem?-of_lt t.history j (ground (arith, lt)) in
        (record t { location = l; history_index = j }, ground (arith, lt), refl),
    λ (u, e, i). ground (arith, lt),
  ),
  (
    λ h.
        let (l, e) = get_elem?-of_lt t.history j (ground (arith, lt)) in
        (record t { location = l; history_index = j }, ground (arith, lt), refl),
    λ (u, e, i). ground (arith, lt),
  ),
)
  where
    reach : IsValidTab t → (length t.history ≡ 0) ⊎ (t.history_index < length t.history)
    reach (inl e) = inl (rw e)
    reach (inr e) = inr (get_elem?-lt t.history t.history_index t.location e)

    lt : (length t.history ≡ 0) ⊎ (t.history_index < length t.history)
    lt = reach v
