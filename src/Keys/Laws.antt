-- ===== src/Keys/Laws.antt =====
-- What a key never does.
use native.Mathlib.Nat.{mod-lt, mod-eq_of_lt, mod_self, add-mod_right}
use pane_dock.Common.{
  ◌⊎◌, ℕ, ◌+◌, ◌-◌, ◌%◌, ◌<◌, ◌≡◌, ap, ◌∙◌, Bool, true, false, arith, ◌==◌, if◌then◌else◌, inl, inr,
  Bool-cases,
}
use pane_dock.Keys.{
  key_down, KeyAction, focus_next_pane, focus_previous_pane, delete_items, delete_permanently,
  KeyInput, KeyRouting, resolve_list_key, step_pane, resolve_window_key, or_else, resolve_key,
  virtual_key_delete,
}

abbrev pub is_focus : KeyAction → Bool
is_focus focus_next_pane = true
is_focus focus_previous_pane = true
is_focus _ = false

abbrev pub is_delete : KeyAction → Bool
is_delete delete_items = true
is_delete delete_permanently = true
is_delete _ = false

-- A routing to a pane names one of `count` panes; any other routing names none.
abbrev pub NamesPane : ℕ → KeyRouting → Type 0
NamesPane count r = if is_focus r.action then r.target_pane < count else (r.target_pane ≡ 0)

step_pane-NamesPane : (i : KeyInput) (reverse : Bool) → NamesPane i.pane_count (step_pane i reverse)
unfolding step_pane
step_pane-NamesPane i reverse = elim (Bool-cases (i.pane_count == 0)) [
  | inl none_there ↦ ground arith
  | inr some_there ↦ ground (
    arith,
    mod-lt (i.active_pane + i.pane_count - 1) {m = i.pane_count} (ground arith),
    mod-lt (i.active_pane + 1) {m = i.pane_count} (ground arith),
  )
]

list_key-quiet : (i : KeyInput) → is_focus (resolve_list_key i) ≡ false
unfolding resolve_list_key
list_key-quiet i = ground arith

-- Only a plain Delete deletes.
abbrev pub IsPlainDelete : KeyInput → Type 0
IsPlainDelete i =
    (i.message ≡ key_down)
    × (i.virtual_key ≡ virtual_key_delete)
    × (i.control ≡ false)
    × (i.alt ≡ false)

list_key-delete : (i : KeyInput) → is_delete (resolve_list_key i) ≡ true → IsPlainDelete i
unfolding resolve_list_key
list_key-delete i h = ground arith

-- A routing that names a pane names one of `count`, and that deletes nothing.
record IsHarmless (count : ℕ) (r : KeyRouting) : Type 0 where
  named : NamesPane count r
  kept : is_delete r.action ≡ false

step_pane-IsHarmless :
    (i : KeyInput) (reverse : Bool) → IsHarmless i.pane_count (step_pane i reverse)
unfolding step_pane
step_pane-IsHarmless i reverse = record {
  named = step_pane-NamesPane i reverse;
  kept = ground arith;
}

window_key-IsHarmless : (i : KeyInput) → IsHarmless i.pane_count (resolve_window_key i)
unfolding resolve_window_key
window_key-IsHarmless i =
    let cycle = step_pane-IsHarmless i i.shift in
    record { named = ground (arith, cycle.named); kept = ground (arith, cycle.kept) }

-- A key that names a pane to focus names one that the group has, and any other key names none. A key
-- deletes items only when it went to the list and is Delete without Ctrl and Alt.
pub resolve_key-guards :
    (i : KeyInput)
    → NamesPane i.pane_count (resolve_key i)
      × ((is_delete (resolve_key i).action ≡ false) ⊎ ((i.list_focused ≡ true) × IsPlainDelete i))
unfolding resolve_key or_else
resolve_key-guards i =
    let w = window_key-IsHarmless i in
    ground (arith, w.named, w.kept, list_key-quiet i, list_key-delete i)

forward_back : (a n : ℕ) → a < n → (((a + 1) % n) + n - 1) % n ≡ a
forward_back a n h = elim (Bool-cases (a + 1 == n)) [
  | inl last ↦
      let wrap : (a + 1) % n ≡ 0 = ap (λ (k : ℕ). k % n) (ground arith) ∙ mod_self n in
      ap (λ (k : ℕ). (k + n - 1) % n) wrap ∙ ap (λ (k : ℕ). k % n) (ground arith) ∙ mod-eq_of_lt h
  | inr inner ↦
      let stay : (a + 1) % n ≡ a + 1 = mod-eq_of_lt (ground arith) in
      ap (λ (k : ℕ). (k + n - 1) % n) stay
      ∙ ap (λ (k : ℕ). k % n) (omega arith)
      ∙ add-mod_right a n
      ∙ mod-eq_of_lt h
]

back_forward : (a n : ℕ) → a < n → (((a + n - 1) % n) + 1) % n ≡ a
back_forward a n h = elim (Bool-cases (a == 0)) [
  | inl first ↦
      let wrap : (a + n - 1) % n ≡ n - 1 =
        ap (λ (k : ℕ). k % n) (ground arith) ∙ mod-eq_of_lt (omega arith) in
      ap (λ (k : ℕ). (k + 1) % n) wrap
      ∙ ap (λ (k : ℕ). k % n) (omega arith)
      ∙ mod_self n
      ∙ ground arith
  | inr inner ↦
      let stay : (a + n - 1) % n ≡ a - 1 =
        ap (λ (k : ℕ). k % n) (ground arith)
        ∙ add-mod_right (a - 1) n
        ∙ mod-eq_of_lt (omega arith) in
      ap (λ (k : ℕ). (k + 1) % n) stay ∙ ap (λ (k : ℕ). k % n) (ground arith) ∙ mod-eq_of_lt h
]

-- From a pane that the group has, cycling forward and then back comes home, and so does cycling back
-- and then forward.
pub step_pane-home :
    (i : KeyInput)
    → i.active_pane < i.pane_count
    → let next = (step_pane i false).target_pane in
      let previous = (step_pane i true).target_pane in
      ((step_pane (record i { active_pane = next }) true).target_pane ≡ i.active_pane)
      × ((step_pane (record i { active_pane = previous }) false).target_pane ≡ i.active_pane)
unfolding step_pane
step_pane-home i h =
    ground
      (arith, forward_back i.active_pane i.pane_count h, back_forward i.active_pane i.pane_count h)
