-- ===== src/Variable/Store/Sets.antt =====
-- internal/variable/service.go: the operations on sets keep the scopes of variables clear.
use otf.Prelude.{
  ◌≡◌, refl, sym, ap, ◌∙◌, subst, true, false, not, String, some, List, ok, keep, lookup, insert,
  delete, lookup-insert, lookup-delete, In, In-keep, In-of_keep, Bool-cases, inl, inr, arith,
  test_yes, is_some,
}
use otf.Resource.{TfeId, TfeId-discrete, Kind-discrete, variable_set_kind}
use otf.Variable.{
  Variable, VariableSet, CreateVariableSetOptions, UpdateVariableSetOptions, update_set, new_set,
}
use otf.Variable.Store.{
  Tables, SetRow, is_set_id, of_parent, set_of, list_variables, list_global_variables, clashes,
  check_set, check_all, has_parent, get_variable_set, create_variable_set, update_variable_set,
  write_set, delete_variable_set, row_of,
}
use otf.Variable.Store.Scopes.{
  scope_of, scope_from, global_scope, own_scope, own_of_scope, listed_global, clashes_sym,
  check_all-clashes, set_of_set, set_of_other,
}
use otf.Variable.Store.Conflicts.{IsConsistent, Leaves, Leaves-bind, keep-IsConsistent}

abbrev Sets : Type 0
Sets = List (TfeId × SetRow)

-- What a written row changes: the set of that identifier only.
set_of-insert :
    (sets : Sets) (id p : TfeId) (r : SetRow)
    → ¬ (p ≡ id)
    → set_of (insert TfeId-discrete id r sets) p ≡ set_of sets p
unfolding set_of
set_of-insert sets id p r n = rw (lookup-insert TfeId-discrete id p r sets) (ground (arith, n))

set_of-delete :
    (sets : Sets) (id p : TfeId)
    → ¬ (p ≡ id)
    → set_of (delete TfeId-discrete id sets) p ≡ set_of sets p
unfolding set_of
set_of-delete sets id p n = rw (lookup-delete TfeId-discrete id p sets) (ground (arith, n))

has_parent-insert :
    (sets : Sets) (id p : TfeId) (r : SetRow)
    → has_parent sets p ≡ true
    → has_parent (insert TfeId-discrete id r sets) p ≡ true
has_parent-insert sets id p r h = rw (lookup-insert TfeId-discrete id p r sets) (ground (arith, h))

has_parent-delete :
    (sets : Sets) (id p : TfeId)
    → ¬ (p ≡ id)
    → has_parent sets p ≡ true
    → has_parent (delete TfeId-discrete id sets) p ≡ true
has_parent-delete sets id p n h = rw (lookup-delete TfeId-discrete id p sets) (ground (arith, h, n))

set_of_written :
    (sets : Sets) (id : TfeId) (r : SetRow)
    → is_set_id id ≡ true
    → set_of (insert TfeId-discrete id r sets) id ≡ some r
set_of_written sets id r h =
    set_of_set (insert TfeId-discrete id r sets) id h
    ∙ (lookup-insert TfeId-discrete id id r sets ∙ ground arith)

own_checked :
    (t : Tables) (s : VariableSet) (u : Unit)
    → is_set_id s.id ≡ true
    → s.global ≡ true
    → check_set t s ≡ ok u
    → check_all (keep (of_parent s.id) t.variables) (list_global_variables t s.organization) ≡ ok tt
unfolding check_set list_variables
own_checked t s u i g h = ground (arith, rw (i, g) at h)

-- A variable of the written set against one of another parent.
crossing :
    (t : Tables) (s : VariableSet) (u : Unit) (v w : Variable)
    → check_set t s ≡ ok u
    → In v t.variables
    → In w t.variables
    → v.parent_id ≡ s.id
    → ¬ (w.parent_id ≡ s.id)
    → scope_of (insert TfeId-discrete s.id (row_of s) t.sets) v.parent_id
      ≡ scope_of (insert TfeId-discrete s.id (row_of s) t.sets) w.parent_id
    → clashes v w ≡ false
crossing t s u v w checked m n here other e =
    let sets = insert TfeId-discrete s.id (row_of s) t.sets in
    let kept = set_of-insert t.sets s.id w.parent_id (row_of s) other in
    let reaches : scope_of sets s.id ≡ scope_of t.sets w.parent_id =
      ap (λ p. scope_of sets p) (sym here) ∙ (e ∙ ap (scope_from w.parent_id) kept) in
    let not_own : ¬ (scope_of sets s.id ≡ own_scope s.id) = λ own.
      other (own_of_scope s.id w.parent_id (set_of t.sets w.parent_id) (sym reaches ∙ own)) in
    elim (Bool-cases (is_set_id s.id)) [
      | inr never ↦ absurd (not_own (ap (scope_from s.id) (set_of_other sets s.id never)))
      | inl set ↦
          let row = ap (scope_from s.id) (set_of_written t.sets s.id (row_of s) set) in
          elim (Bool-cases s.global) [
            | inr local ↦ absurd (not_own (row ∙ rw local refl))
            | inl global ↦
                let shared : scope_of t.sets w.parent_id ≡ global_scope s.organization =
                  sym reaches ∙ (row ∙ rw global refl) in
                check_all-clashes v w (keep (of_parent s.id) t.variables)
                  (list_global_variables t s.organization) (own_checked t s u set global checked)
                  (In-keep (of_parent s.id) v t.variables
                    (test_yes (TfeId-discrete v.parent_id s.id) here) m)
                  (listed_global t s.organization w n shared)
          ]
    ]

write_set-IsConsistent :
    (t : Tables) (s : VariableSet) (u : Unit)
    → check_set t s ≡ ok u
    → IsConsistent t
    → IsConsistent (write_set s t)
unfolding write_set
write_set-IsConsistent t s u checked (clear, parents) = (
  λ v w m n e. elim (TfeId-discrete v.parent_id s.id) [
    | yes here ↦ elim (TfeId-discrete w.parent_id s.id) [
      | yes there ↦ clear v w m n (ap (λ p. scope_of t.sets p) (here ∙ sym there))
      | no other ↦ crossing t s u v w checked m n here other e
    ]
    | no away ↦ elim (TfeId-discrete w.parent_id s.id) [
      | yes there ↦ clashes_sym v w ∙ crossing t s u w v checked n m there away (sym e)
      | no other ↦ clear v w m n (
          sym (ap (scope_from v.parent_id) (set_of-insert t.sets s.id v.parent_id (row_of s) away))
          ∙ (e
              ∙ ap (scope_from w.parent_id)
                  (set_of-insert t.sets s.id w.parent_id (row_of s) other)))
    ]
  ],
  λ v m. has_parent-insert t.sets s.id v.parent_id (row_of s) (parents v m),
)

pub update_set-IsConsistent :
    (id : TfeId) (opts : UpdateVariableSetOptions) (t : Tables)
    → IsConsistent t
    → Leaves IsConsistent (update_variable_set id opts t)
unfolding update_variable_set
update_set-IsConsistent id opts t h =
    Leaves-bind IsConsistent (get_variable_set t id) _ λ before got.
      Leaves-bind IsConsistent (check_set t (update_set opts before)) _
        λ u checked. write_set-IsConsistent t (update_set opts before) u checked h

-- The parent of a variable is not a set that is missing.
not_missing :
    (sets : Sets) (p id : TfeId)
    → is_set_id id ≡ true
    → has_parent sets p ≡ true
    → is_some (lookup TfeId-discrete id sets) ≡ false
    → ¬ (p ≡ id)
not_missing sets p id i h missing e =
    ground (arith, subst (λ q. has_parent sets q ≡ true) e h, i, missing)

-- Tables of sets that agree on the parents in use.
rescoped :
    (t : Tables) (sets : Sets)
    → ((v : Variable) → In v t.variables → set_of sets v.parent_id ≡ set_of t.sets v.parent_id)
    → ((v : Variable) → In v t.variables → has_parent sets v.parent_id ≡ true)
    → IsConsistent t
    → IsConsistent (record t { sets = sets })
rescoped t sets same parents (clear, old) = (
  λ v w m n e.
      clear v w m n (
        sym (ap (scope_from v.parent_id) (same v m))
        ∙ (e ∙ ap (scope_from w.parent_id) (same w n))),
  parents,
)

pub create_set-IsConsistent :
    (id organization : String) (opts : CreateVariableSetOptions) (t : Tables)
    → IsConsistent t
    → Leaves IsConsistent (create_variable_set id organization opts t)
unfolding create_variable_set new_set
create_set-IsConsistent id organization opts t h =
    let set = new_set (record { kind = variable_set_kind; id = id }) organization opts in
    elim (Bool-cases (is_some (lookup TfeId-discrete set.id t.sets))) [
      | inl taken ↦ rw taken tt
      | inr free ↦
          let apart : (v : Variable) → In v t.variables → ¬ (v.parent_id ≡ set.id) = λ v m.
            not_missing t.sets v.parent_id set.id
              (test_yes (Kind-discrete variable_set_kind variable_set_kind) refl) (h.1 v m) free in
          rw free (
            rescoped t (insert TfeId-discrete set.id (row_of set) t.sets)
              (λ v m. set_of-insert t.sets set.id v.parent_id (row_of set) (apart v m))
              (λ v m. has_parent-insert t.sets set.id v.parent_id (row_of set) (h.1 v m)) h)
    ]

kept_apart : (id : TfeId) (v : Variable) → not (of_parent id v) ≡ true → ¬ (v.parent_id ≡ id)
kept_apart id v h e = ground (arith, h, test_yes (TfeId-discrete v.parent_id id) e)

pub delete_set-IsConsistent :
    (id : TfeId) (t : Tables) → IsConsistent t → Leaves IsConsistent (delete_variable_set id t)
unfolding delete_variable_set
delete_set-IsConsistent id t h = Leaves-bind IsConsistent (get_variable_set t id) _ λ s got.
    let left = keep (λ v. not (of_parent id v)) t.variables in
    let apart : (v : Variable) → In v left → ¬ (v.parent_id ≡ id) =
      λ v m. kept_apart id v (In-of_keep (λ w. not (of_parent id w)) v t.variables m).1 in
    let rest = keep-IsConsistent (λ v. not (of_parent id v)) t h in
    rescoped (record t { variables = left }) (delete TfeId-discrete id t.sets)
      (λ v m. set_of-delete t.sets id v.parent_id (apart v m))
      (λ v m. has_parent-delete t.sets id v.parent_id (apart v m) (rest.1 v m)) rest
