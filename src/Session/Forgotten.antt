-- ===== src/Session/Forgotten.antt =====
-- The histories are not in the session file; a valid state without them is valid.
use pane_dock.Common.{
  suc, ◌<◌, ◌≡◌, refl, sym, ap, subst, ◌∙◌, true, List, [], ◌∷◌, map, Text, length, All, inl,
}
use pane_dock.Ids.{has_id}
use pane_dock.Ids.Unique.{Fresh, UniqueIds}
use pane_dock.Model.{
  PaneState, GroupState, ApplicationState, tab_id, pane_id, group_id, has_valid_history,
  is_valid_pane, is_valid_group, is_valid,
}
use pane_dock.Model.Valid.{
  has_valid_history_iff, is_valid_pane_iff, is_valid_group_iff, is_valid_iff,
}
use pane_dock.Session.Tabs.{without_history, pane_without_history}

module _ {A : Type 0} (f : A → A) where
  pub length-map : (xs : List A) → length (map f xs) ≡ length xs
  length-map [] = refl
  length-map (x ∷ xs) = ap suc (length-map xs)

  pub All-map :
      (P Q : A → Type 0) → ((x : A) → P x → Q (f x)) → (xs : List A) → All P xs → All Q (map f xs)
  All-map P Q h [] a = tt
  All-map P Q h (x ∷ xs) a = (h x a.0, All-map P Q h xs a.1)

  -- A change that keeps the ids.
  module _ (id_of : A → Text) (same : (x : A) → id_of (f x) ≡ id_of x) where
    Fresh-map : (t : Text) (xs : List A) → Fresh id_of t xs → Fresh id_of t (map f xs)
    Fresh-map t [] h = tt
    Fresh-map t (x ∷ xs) h = (λ e. h.0 (sym (same x) ∙ e), Fresh-map t xs h.1)

    pub UniqueIds-map : (xs : List A) → UniqueIds id_of xs → UniqueIds id_of (map f xs)
    UniqueIds-map [] u = tt
    UniqueIds-map (x ∷ xs) u = (
      λ e. u.0 (sym (same x) ∙ e),
      subst (λ t. Fresh id_of t (map f xs)) (sym (same x)) (Fresh-map (id_of x) xs u.1),
      UniqueIds-map xs u.2,
    )

    pub has_id-map : (t : Text) (xs : List A) → has_id id_of t (map f xs) ≡ has_id id_of t xs
    has_id-map t [] = refl
    has_id-map t (x ∷ xs) = rw (same x, has_id-map t xs) refl

abbrev pub group_without_history : GroupState → GroupState
group_without_history g = record g { panes = map pane_without_history g.panes }

abbrev pub state_without_history : ApplicationState → ApplicationState
state_without_history a = record a {
  schema_version = 1;
  groups = map group_without_history a.groups;
}

without_history-valid :
    (p : PaneState) → is_valid_pane p ≡ true → is_valid_pane (pane_without_history p) ≡ true
without_history-valid p h =
    let v = (is_valid_pane_iff p).0 h in
    (is_valid_pane_iff (pane_without_history p)).1 (record {
      inhabited = rw (length-map without_history p.tabs) v.inhabited;
      unique = UniqueIds-map without_history tab_id (λ t. refl) p.tabs v.unique;
      active = has_id-map without_history tab_id (λ t. refl) p.active_tab_id p.tabs ∙ v.active;
      histories =
          All-map without_history (λ t. has_valid_history t ≡ true)
            (λ t. has_valid_history t ≡ true)
            (λ t k. (has_valid_history_iff (without_history t)).1 (inl refl)) p.tabs v.histories;
    })

group_without_history-valid :
    (g : GroupState) → is_valid_group g ≡ true → is_valid_group (group_without_history g) ≡ true
group_without_history-valid g h =
    let v = (is_valid_group_iff g).0 h in
    (is_valid_group_iff (group_without_history g)).1 (record {
      named = v.named;
      covered = rw (length-map pane_without_history g.panes) v.covered;
      bounded = rw (length-map pane_without_history g.panes) v.bounded;
      ratio_count = v.ratio_count;
      ratios = v.ratios;
      unique = UniqueIds-map pane_without_history pane_id (λ p. refl) g.panes v.unique;
      active =
          has_id-map pane_without_history pane_id (λ p. refl) g.active_pane_id g.panes ∙ v.active;
      panes_valid =
          All-map pane_without_history (λ p. is_valid_pane p ≡ true) (λ p. is_valid_pane p ≡ true)
            without_history-valid g.panes v.panes_valid;
    })

map-nil : (gs : List GroupState) → map group_without_history gs ≡ [] → gs ≡ []
map-nil [] e = refl
map-nil (g ∷ gs) e = cc

pub state_without_history-valid :
    (a : ApplicationState) → is_valid a ≡ true → is_valid (state_without_history a) ≡ true
state_without_history-valid a h =
    let v = (is_valid_iff a).0 h in
    (is_valid_iff (state_without_history a)).1 (record {
      unique = UniqueIds-map group_without_history group_id (λ g. refl) a.groups v.unique;
      groups_valid =
          All-map group_without_history (λ g. is_valid_group g ≡ true)
            (λ g. is_valid_group g ≡ true) group_without_history-valid a.groups v.groups_valid;
      none_active = λ e. v.none_active (map-nil a.groups e);
      one_active = λ l.
          has_id-map group_without_history group_id (λ g. refl) a.active_group_id a.groups
          ∙ v.one_active (subst (λ n. 0 < n) (length-map group_without_history a.groups) l);
    })
