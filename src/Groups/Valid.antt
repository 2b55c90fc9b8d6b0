-- ===== src/Groups/Valid.antt =====
-- Every group operation keeps the application valid.
use pane_dock.Common.{
  ℕ, suc, ◌<◌, ◌≡◌, ◌≢◌, refl, sym, ap, ◌∙◌, get_elem?, get_elem?-insert_at, true, false, List, [],
  ◌∷◌, ◌++◌, none, some, Text, text_eq, arith, length, insert_at, length-insert_at, length-append,
  All, All-append, All-insert_at, ◌==◌, if◌then◌else◌, Option-cases, Bool-cases, inl, inr, ◌⊎◌,
}
use pane_dock.Ids.{is_empty, has_id, find_id, erase_id, next_id}
use pane_dock.Ids.Unique.{
  UniqueIds, is_empty_iff, Fresh-of_has_id, has_id_of_Fresh, Fresh-erase_id_self,
  UniqueIds-erase_id, UniqueIds-append_one, UniqueIds-insert_at,
}
use pane_dock.Ids.Places.{
  has_id-insert_at, has_id-append_one, has_id_of_find, has_id-erase_ne, length-erase_id,
  next_id-has_id,
}
use pane_dock.Model.{GroupState, ApplicationState, group_id, is_valid_group}
use pane_dock.Model.Valid.{IsValid, is_valid_group_iff}
use pane_dock.Groups.{add_group, duplicate_group, delete_group, reorder_group}

abbrev Groups : List GroupState → Type 0
Groups = All (λ g. is_valid_group g ≡ true)

Groups-erase_id : (t : Text) (xs : List GroupState) → Groups xs → Groups (erase_id group_id t xs)
Groups-erase_id t [] h = tt
Groups-erase_id t (x ∷ xs) h = ground (arith, Groups-erase_id t xs h.1)

Groups-find :
    (t : Text) (xs : List GroupState) (x : GroupState)
    → Groups xs
    → find_id group_id t xs ≡ some x
    → is_valid_group x ≡ true
Groups-find t [] x h f = cc
Groups-find t (y ∷ ys) x h f = ground (arith, Groups-find t ys x h.1)

-- A group appended at the end.
appended-IsValid :
    (a : ApplicationState) (g : GroupState) (active : Text)
    → IsValid a
    → is_valid_group g ≡ true
    → has_id group_id g.id a.groups ≡ false
    → (active ≡ a.active_group_id) × (0 < length a.groups) ⊎ (active ≡ g.id)
    → IsValid (record a { groups = a.groups ++ g ∷ []; active_group_id = active })
appended-IsValid a g active v h fresh which = record {
  unique =
      UniqueIds-append_one group_id a.groups g v.unique ((is_valid_group_iff g).0 h).named
        (Fresh-of_has_id group_id g.id a.groups fresh);
  groups_valid = All-append _ a.groups (g ∷ []) v.groups_valid (h, tt);
  none_active = λ e. absurd (omega (arith, ap length e, length-append a.groups (g ∷ [])));
  one_active = λ _. ground (arith, has_id-append_one group_id active a.groups g, v.one_active);
}

named_of_has_id :
    (t : Text) (xs : List GroupState)
    → UniqueIds group_id xs
    → has_id group_id t xs ≡ true
    → is_empty t ≡ false
named_of_has_id t [] u h = cc
named_of_has_id t (x ∷ xs) u h = ground (arith, named_of_has_id t xs u.2, (is_empty_iff t).0)

was_active :
    (a : ApplicationState) → IsValid a → is_empty a.active_group_id ≡ (length a.groups == 0)
was_active a v = go a.groups refl
  where
    go : (gs : List GroupState) → a.groups ≡ gs → is_empty a.active_group_id ≡ (length gs == 0)
    go [] e = rw (v.none_active e)
    go (g ∷ gs) e =
        ground (arith, named_of_has_id a.active_group_id a.groups v.unique, v.one_active, e)

length_of_find :
    (t : Text) (xs : List GroupState) (x : GroupState)
    → find_id group_id t xs ≡ some x
    → 0 < length xs
length_of_find t [] x h = cc
length_of_find t (y ∷ ys) x h = omega arith

-- Where one element is left after an erase of none, both ids were its.
only_one :
    (t u : Text) (xs : List GroupState)
    → has_id group_id t xs ≡ true
    → has_id group_id u xs ≡ true
    → length (erase_id group_id t xs) ≡ 0
    → u ≡ t
only_one t u [] h k e = cc
only_one t u (x ∷ []) h k e = ground arith
only_one t u (x ∷ y ∷ ys) h k e = absurd (ground arith)

-- Adding a group to a valid application keeps it valid, with the group last, and active where none
-- was; it is refused exactly where the group is not valid or its id is taken.
pub add_group-IsValid :
    (a : ApplicationState) (g : GroupState)
    → IsValid a
    → (((is_valid_group g ≡ false) ⊎ (has_id group_id g.id a.groups ≡ true))
        × (add_group a g ≡ none))
      ⊎ ((b : ApplicationState) × (add_group a g ≡ some b)
          × IsValid b
          × (b.groups ≡ a.groups ++ g ∷ [])
          × (b.active_group_id ≡ (if length a.groups == 0 then g.id else a.active_group_id)))
unfolding add_group
add_group-IsValid a g v = elim (Bool-cases (is_valid_group g)) [
  | inr bad ↦ inl (inl bad, ground arith)
  | inl good ↦ elim (Bool-cases (has_id group_id g.id a.groups)) [
    | inl taken ↦ inl (inr taken, ground arith)
    | inr fresh ↦
        let active = if length a.groups == 0 then g.id else a.active_group_id in
        let same = was_active a v in
        inr (
          record a { groups = a.groups ++ g ∷ []; active_group_id = active },
          ground arith,
          appended-IsValid a g active v good fresh (ground arith),
          refl,
          refl,
        )
  ]
]

renamed-valid :
    (g : GroupState) (new_id name : Text)
    → is_valid_group g ≡ true
    → new_id ≢ []
    → is_valid_group (record g { id = new_id; name = name }) ≡ true
renamed-valid g new_id name h named =
    let v = (is_valid_group_iff g).0 h in
    (is_valid_group_iff _).1 (record {
      named = named;
      covered = v.covered;
      bounded = v.bounded;
      ratio_count = v.ratio_count;
      ratios = v.ratios;
      unique = v.unique;
      active = v.active;
      panes_valid = v.panes_valid;
    })

-- A duplicate goes last under its new id, with the content of its source, and leaves the application
-- valid with the same active group.
pub duplicate_group-IsValid :
    (a : ApplicationState) (source new_id name : Text) {b : ApplicationState}
    → IsValid a
    → duplicate_group a source new_id name ≡ some b
    → IsValid b
      × (b.active_group_id ≡ a.active_group_id)
      × (length b.groups ≡ suc (length a.groups))
duplicate_group-IsValid a source new_id name v h =
    inversion (Option-cases (find_id group_id source a.groups)) h
  where
    inversion :
        {b : ApplicationState}
        → (find_id group_id source a.groups ≡ none)
          ⊎ ((g : GroupState) × (find_id group_id source a.groups ≡ some g))
        → duplicate_group a source new_id name ≡ some b
        → IsValid b
          × (b.active_group_id ≡ a.active_group_id)
          × (length b.groups ≡ suc (length a.groups))
    inversion (inl e) h = absurd (unfold duplicate_group in ground arith)
    inversion {b} (inr (g, e)) h =
        let c = record g { id = new_id; name = name } in
        let empty = is_empty_iff new_id in
        let named : new_id ≢ [] = unfold duplicate_group in ground (arith, empty.1) in
        let fresh : has_id group_id new_id a.groups ≡ false =
          unfold duplicate_group in ground arith in
        let r : b ≡ record a { groups = a.groups ++ c ∷ [] } =
          unfold duplicate_group in ground arith in
        let full = length_of_find source a.groups g e in
        rw r (
          appended-IsValid a c a.active_group_id v
              (renamed-valid g new_id name (Groups-find source a.groups g v.groups_valid e) named)
              fresh (inl (refl, full)),
          refl,
          omega (arith, length-append a.groups (c ∷ [])),
        )

-- Deleting a group keeps the application valid: the group is gone and the others stay in order, the
-- active group stays if it was another one, and with the last group no id stays active. It is refused
-- exactly where there is no such group.
pub delete_group-IsValid :
    (a : ApplicationState) (g : Text)
    → IsValid a
    → ((has_id group_id g a.groups ≡ false) × (delete_group a g ≡ none))
      ⊎ ((b : ApplicationState) × (has_id group_id g a.groups ≡ true)
          × (delete_group a g ≡ some b)
          × IsValid b
          × (b.groups ≡ erase_id group_id g a.groups)
          × (has_id group_id g b.groups ≡ false)
          × ((a.active_group_id ≡ g) ⊎ (b.active_group_id ≡ a.active_group_id)))
unfolding delete_group
delete_group-IsValid a g v = elim (Bool-cases (has_id group_id g a.groups)) [
  | inr missing ↦ inl (missing, ground arith)
  | inl has ↦
      let rest = erase_id group_id g a.groups in
      let active =
        if length rest == 0
        then []
        else if text_eq a.active_group_id g
        then next_id group_id g a.groups
        else a.active_group_id in
      let len = length-erase_id group_id g a.groups has in
      let same = v.one_active (omega arith) in
      let one : length rest ≡ 0 → a.active_group_id ≡ g =
        only_one g a.active_group_id a.groups has same in
      let next = next_id-has_id group_id g a.groups has in
      let other = has_id-erase_ne group_id a.active_group_id g a.groups in
      inr (
        record a { groups = rest; active_group_id = active },
        has,
        ground arith,
        record {
          unique = UniqueIds-erase_id group_id g a.groups v.unique;
          groups_valid = Groups-erase_id g a.groups v.groups_valid;
          none_active = λ e. ground arith;
          one_active = λ e. ground (arith, len, same, next, other);
        },
        refl,
        has_id_of_Fresh group_id g rest (Fresh-erase_id_self group_id g a.groups v.unique),
        ground (arith, one),
      )
]

-- Moving a group within the list keeps the application valid, and puts it where it was sent.
pub reorder_group-IsValid :
    (a : ApplicationState) (g : Text) (index : ℕ) {b : ApplicationState}
    → IsValid a
    → reorder_group a g index ≡ some b
    → IsValid b
      × (get_elem? b.groups index ≡ find_id group_id g a.groups)
      × (length b.groups ≡ length a.groups)
reorder_group-IsValid a g index v h = inversion (Option-cases (find_id group_id g a.groups)) h
  where
    inversion :
        {b : ApplicationState}
        → (find_id group_id g a.groups ≡ none)
          ⊎ ((x : GroupState) × (find_id group_id g a.groups ≡ some x))
        → reorder_group a g index ≡ some b
        → IsValid b
          × (get_elem? b.groups index ≡ find_id group_id g a.groups)
          × (length b.groups ≡ length a.groups)
    inversion (inl e) h = absurd (unfold reorder_group in ground arith)
    inversion {b} (inr (x, e)) h =
        let rest = erase_id group_id g a.groups in
        let (has, i) = has_id_of_find group_id g a.groups x e in
        let valid = Groups-find g a.groups x v.groups_valid e in
        let len = length-erase_id group_id g a.groups has in
        let r : b ≡ record a { groups = insert_at index x rest } =
          unfold reorder_group in ground arith in
        let l : index < length a.groups = unfold reorder_group in ground arith in
        let total = length-insert_at index x rest in
        let other = has_id-erase_ne group_id a.active_group_id g a.groups in
        let inserted = has_id-insert_at group_id a.active_group_id index x rest in
        let same = v.one_active (omega arith) in
        rw r (
          record {
            unique =
                UniqueIds-insert_at group_id index x rest
                  (UniqueIds-erase_id group_id g a.groups v.unique)
                  ((is_valid_group_iff x).0 valid).named
                  (rw i (Fresh-erase_id_self group_id g a.groups v.unique));
            groups_valid =
                All-insert_at _ index x rest valid (Groups-erase_id g a.groups v.groups_valid);
            none_active = λ z. absurd (omega (arith, ap length z, total));
            one_active = λ _. ground (arith, other, inserted, same, i);
          },
          get_elem?-insert_at index x rest (omega arith) ∙ sym e,
          omega arith,
        )
