-- ===== src/Layouts/NewPanes.antt =====
-- The panes that a layout switch adds: how many, their ids and their validity.
use pane_dock.Common.{
  suc, ◌≡◌, ◌≢◌, refl, sym, ap, true, List, [], ◌∷◌, ◌++◌, Text, arith, length, All, inl,
}
use pane_dock.Ids.Unique.{Fresh, UniqueIds}
use pane_dock.Model.{ShellLocation, PaneState, pane_id, is_valid_pane}
use pane_dock.Model.Valid.{is_valid_pane_iff, has_valid_history_iff}
use pane_dock.Layouts.{new_pane, new_panes}

pub length-new_panes :
    (home : ShellLocation) (ps ts : List Text)
    → length ps ≡ length ts
    → length (new_panes home ps ts) ≡ length ps
unfolding new_panes
length-new_panes home [] [] h = refl
length-new_panes home [] (t ∷ ts) h = refl
length-new_panes home (p ∷ ps) [] h = absurd (omega arith)
length-new_panes home (p ∷ ps) (t ∷ ts) h = ap suc (length-new_panes home ps ts (omega arith))

new_pane-valid :
    (home : ShellLocation) (p t : Text) → t ≢ [] → is_valid_pane (new_pane home p t) ≡ true
new_pane-valid home p t h = (is_valid_pane_iff (new_pane home p t)).1 record {
  inhabited = omega arith;
  unique = (h, tt, tt);
  active = ground arith;
  histories = ((has_valid_history_iff _).1 (inl refl), tt);
}

pub new_panes-valid :
    (home : ShellLocation) (ps ts : List Text)
    → All (λ t. t ≢ []) ts
    → All (λ p. is_valid_pane p ≡ true) (new_panes home ps ts)
unfolding new_panes
new_panes-valid home [] ts h = tt
new_panes-valid home (p ∷ ps) [] h = tt
new_panes-valid home (p ∷ ps) (t ∷ ts) h =
    (new_pane-valid home p t h.0, new_panes-valid home ps ts h.1)

Fresh-append :
    (t : Text) (xs ys : List PaneState)
    → Fresh pane_id t xs
    → Fresh pane_id t ys
    → Fresh pane_id t (xs ++ ys)
Fresh-append t [] ys h k = k
Fresh-append t (x ∷ xs) ys h k = (h.0, Fresh-append t xs ys h.1 k)

pub UniqueIds-append :
    (xs ys : List PaneState)
    → UniqueIds pane_id xs
    → UniqueIds pane_id ys
    → All (λ x. Fresh pane_id x.id ys) xs
    → UniqueIds pane_id (xs ++ ys)
UniqueIds-append [] ys u v h = v
UniqueIds-append (x ∷ xs) ys u v h =
    (u.0, Fresh-append x.id xs ys u.1 h.0, UniqueIds-append xs ys u.2 v h.1)

Fresh-new_panes :
    (home : ShellLocation) (t : Text) (ps ts : List Text)
    → Fresh (λ (t : Text). t) t ps
    → Fresh pane_id t (new_panes home ps ts)
unfolding new_panes
Fresh-new_panes home t [] ts h = tt
Fresh-new_panes home t (p ∷ ps) [] h = tt
Fresh-new_panes home t (p ∷ ps) (u ∷ ts) h = (h.0, Fresh-new_panes home t ps ts h.1)

pub UniqueIds-new_panes :
    (home : ShellLocation) (ps ts : List Text)
    → UniqueIds (λ (t : Text). t) ps
    → UniqueIds pane_id (new_panes home ps ts)
unfolding new_panes
UniqueIds-new_panes home [] ts h = tt
UniqueIds-new_panes home (p ∷ ps) [] h = tt
UniqueIds-new_panes home (p ∷ ps) (u ∷ ts) h =
    (h.0, Fresh-new_panes home p ps ts h.1, UniqueIds-new_panes home ps ts h.2)

Fresh-flip :
    (x : PaneState) (ps : List Text) (xs : List PaneState)
    → All (λ t. Fresh pane_id t (x ∷ xs)) ps
    → Fresh (λ (t : Text). t) x.id ps × All (λ t. Fresh pane_id t xs) ps
Fresh-flip x [] xs h = (tt, tt)
Fresh-flip x (p ∷ ps) xs h =
    let (a, b) = Fresh-flip x ps xs h.1 in ((λ e. h.0.0 (sym e), a), (h.0.1, b))

pub new_panes-apart :
    (home : ShellLocation) (ps ts : List Text) (xs : List PaneState)
    → All (λ t. Fresh pane_id t xs) ps
    → All (λ x. Fresh pane_id x.id (new_panes home ps ts)) xs
new_panes-apart home ps ts [] h = tt
new_panes-apart home ps ts (x ∷ xs) h =
    let (a, b) = Fresh-flip x ps xs h in
    (Fresh-new_panes home x.id ps ts a, new_panes-apart home ps ts xs b)
