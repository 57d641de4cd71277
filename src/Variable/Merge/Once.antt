-- ===== src/Variable/Merge/Once.antt =====
-- internal/variable/variable.go: the list that a merge returns, against the two maps.
use otf.Prelude.{
  ℕ, ◌+◌, ◌≤◌, ◌≡◌, refl, sym, ◌∙◌, true, false, ◌&&◌, String, String-discrete, Option, none, List,
  [], ◌∷◌, ◌++◌, if◌then◌else◌, test, keep, lookup, insert, insert_here, insert_there, lookup_step,
  All, arith, Bool-cases, inl, inr, ◌⊎◌, affirm, test_no,
}
use otf.Resource.{TfeId}
use otf.Run.Types.{Run}
use otf.Variable.{
  Variable, VariableCategory, terraform_category, env_category, other_category, VariableSet,
}
use otf.Variable.Merge.{
  Merged, put_by, put_all, put_sets, values, merge_maps, merge, sort_by_name, reverse, is_global,
  is_scoped, run_variables,
}
use otf.Variable.Merge.Names.{IsFirst, sort-IsFirst}
use otf.Variable.Merge.Precedence.{
  in_first_set, same_category, is_for, or_else, find_first, effective, in_map, in_maps,
  or_else-none,
}

abbrev Entries : Type 0
Entries = List (String × Variable)

-- The entries stand under their keys and have one category.
abbrev Keyed : VariableCategory → Entries → Type 0
Keyed c m = All (λ (k, v). (v.key ≡ k) × (v.category ≡ c)) m

abbrev pub occurrences : VariableCategory → String → List Variable → ℕ
occurrences cat key [] = 0
occurrences cat key (v ∷ vs) = (if is_for cat key v then 1 else 0) + occurrences cat key vs

Keyed-insert :
    (c : VariableCategory) (v : Variable) (m : Entries)
    → v.category ≡ c
    → Keyed c m
    → Keyed c (insert String-discrete v.key v m)
unfolding insert
Keyed-insert c v [] e h = ((refl, e), tt)
Keyed-insert c v ((k, w) ∷ m) e h = elim (String-discrete v.key k) [
  | yes p ↦ rw (insert_here String-discrete v.key k v w m p) ((refl, e), h.1)
  | no n ↦ rw (insert_there String-discrete v.key k v w m n) (h.0, Keyed-insert c v m e h.1)
]

is_for-entry :
    (cat c : VariableCategory) (key k : String) (v : Variable)
    → v.key ≡ k
    → v.category ≡ c
    → is_for cat key v ≡ same_category cat c && test (String-discrete key k)
is_for-entry cat c key k v e f = rw (e, f) refl

find-values :
    (cat c : VariableCategory) (key : String) (m : Entries)
    → Keyed c m
    → find_first cat key (values m)
      ≡ (if same_category cat c then lookup String-discrete key m else none)
unfolding lookup
find-values cat c key [] h = ground arith
find-values cat c key ((k, v) ∷ m) h =
    rw
      (
        is_for-entry cat c key k v h.0.0 h.0.1,
        find-values cat c key m h.1,
        lookup_step String-discrete key k v m,
      )
      (ground arith)

find-append :
    (cat : VariableCategory) (key : String) (xs ys : List Variable)
    → find_first cat key (xs ++ ys) ≡ or_else (find_first cat key xs) (find_first cat key ys)
find-append cat key [] ys = refl
find-append cat key (x ∷ xs) ys = ground (arith, find-append cat key xs ys)

occurrences-append :
    (cat : VariableCategory) (key : String) (xs ys : List Variable)
    → occurrences cat key (xs ++ ys) ≡ occurrences cat key xs + occurrences cat key ys
occurrences-append cat key [] ys = omega arith
occurrences-append cat key (x ∷ xs) ys = omega (arith, occurrences-append cat key xs ys)

for_key :
    (cat : VariableCategory) (key : String) (v : Variable) → is_for cat key v ≡ true → key ≡ v.key
for_key cat key v h = affirm (String-discrete key v.key) (ground (arith, h))

not_for :
    (cat : VariableCategory) (key : String) (v : Variable)
    → ¬ (key ≡ v.key)
    → is_for cat key v ≡ false
not_for cat key v n = rw (test_no (String-discrete key v.key) n) (ground arith)

occurrences-insert :
    (cat c : VariableCategory) (key : String) (v : Variable) (m : Entries)
    → v.category ≡ c
    → Keyed c m
    → (occurrences cat key (values (insert String-discrete v.key v m))
        ≡ occurrences cat key (values m))
      ⊎ ((occurrences cat key (values m) ≡ 0)
          × (occurrences cat key (values (insert String-discrete v.key v m)) ≡ 1)
          × (key ≡ v.key))
unfolding insert
occurrences-insert cat c key v [] e h = elim (Bool-cases (is_for cat key v)) [
  | inl f ↦ inr (refl, rw f refl, for_key cat key v f)
  | inr f ↦ inl (rw f refl)
]
occurrences-insert cat c key v ((k, w) ∷ m) e h = elim (String-discrete v.key k) [
  | yes p ↦
      let same : is_for cat key v ≡ is_for cat key w =
        is_for-entry cat c key k v p e ∙ sym (is_for-entry cat c key k w h.0.0 h.0.1) in
      inl (rw (insert_here String-discrete v.key k v w m p, same) refl)
  | no n ↦ elim (occurrences-insert cat c key v m e h.1) [
    | inl old ↦ inl (rw (insert_there String-discrete v.key k v w m n, old) refl)
    | inr (none_yet, one, here) ↦
        let other : is_for cat key w ≡ false =
          not_for cat key w (λ q. n (sym here ∙ (q ∙ h.0.0))) in
        inr (
          rw (other, none_yet) refl,
          rw (insert_there String-discrete v.key k v w m n, other, one) refl,
          here,
        )
  ]
]

-- A map under a category: keyed, with no variable twice.
abbrev IsMap : VariableCategory → Entries → Type 0
IsMap c m =
    Keyed c m × ((cat : VariableCategory) (key : String) → occurrences cat key (values m) ≤ 1)

IsMap-insert :
    (c : VariableCategory) (v : Variable) (m : Entries)
    → v.category ≡ c
    → IsMap c m
    → IsMap c (insert String-discrete v.key v m)
IsMap-insert c v m e (keyed, once) = (
  Keyed-insert c v m e keyed,
  λ cat key. elim (occurrences-insert cat c key v m e keyed) [
    | inl old ↦ rw old (once cat key)
    | inr (zero_yet, one, here) ↦ omega (arith, one)
  ],
)

abbrev AreMaps : Merged → Type 0
AreMaps m = IsMap terraform_category m.tf_vars × IsMap env_category m.env_vars

AreMaps-put :
    (c : VariableCategory) (v : Variable) (m : Merged)
    → v.category ≡ c
    → AreMaps m
    → AreMaps (put_by c v m)
AreMaps-put terraform_category v m e (tf, env) =
    (IsMap-insert terraform_category v m.tf_vars e tf, env)
AreMaps-put env_category v m e (tf, env) = (tf, IsMap-insert env_category v m.env_vars e env)
AreMaps-put (other_category c) v m e h = h

AreMaps-put_all : (vs : List Variable) (m : Merged) → AreMaps m → AreMaps (put_all vs m)
unfolding put_all
AreMaps-put_all [] m h = h
AreMaps-put_all (v ∷ vs) m h =
    AreMaps-put_all vs (put_by v.category v m) (AreMaps-put v.category v m refl h)

AreMaps-put_sets : (ss : List VariableSet) (m : Merged) → AreMaps m → AreMaps (put_sets ss m)
unfolding put_sets
AreMaps-put_sets [] m h = h
AreMaps-put_sets (s ∷ ss) m h =
    AreMaps-put_sets ss (put_all s.variables m) (AreMaps-put_all s.variables m h)

IsMap-empty : (c : VariableCategory) → IsMap c []
IsMap-empty c = (tt, λ cat key. omega arith)

AreMaps-merge :
    (zero_id : TfeId) (sets : List VariableSet) (vars : List Variable) (run : Option Run)
    → AreMaps (merge_maps zero_id sets vars run)
unfolding merge_maps
AreMaps-merge zero_id sets vars run = AreMaps-put_all (run_variables zero_id run) _ (
    AreMaps-put_all vars _ (
      AreMaps-put_sets (keep is_scoped (reverse (sort_by_name sets))) _ (
        AreMaps-put_sets (keep is_global sets) _
          (IsMap-empty terraform_category, IsMap-empty env_category))))

by_category :
    (cat : VariableCategory) (key : String) (m : Merged)
    → or_else
        (if same_category cat terraform_category
          then lookup String-discrete key m.tf_vars
          else none)
        (if same_category cat env_category then lookup String-discrete key m.env_vars else none)
      ≡ in_map cat key m
unfolding lookup
by_category terraform_category key m = or_else-none (lookup String-discrete key m.tf_vars)
by_category env_category key m = refl
by_category (other_category c) key m = refl

find-both :
    (cat : VariableCategory) (key : String) (m : Merged)
    → AreMaps m
    → find_first cat key (values m.tf_vars ++ values m.env_vars) ≡ in_map cat key m
unfolding lookup
find-both cat key m (tf, env) =
    rw
      (
        find-append cat key (values m.tf_vars) (values m.env_vars),
        find-values cat terraform_category key m.tf_vars tf.0,
        find-values cat env_category key m.env_vars env.0,
      )
      (by_category cat key m)

occurrences-values :
    (cat c : VariableCategory) (key : String) (m : Entries)
    → Keyed c m
    → same_category cat c ≡ false
    → occurrences cat key (values m) ≡ 0
occurrences-values cat c key [] h n = refl
occurrences-values cat c key ((k, v) ∷ m) h n =
    rw (is_for-entry cat c key k v h.0.0 h.0.1, n, occurrences-values cat c key m h.1 n) refl

once_in_both :
    (cat : VariableCategory) (key : String) (m : Merged)
    → AreMaps m
    → occurrences cat key (values m.tf_vars) + occurrences cat key (values m.env_vars) ≤ 1
once_in_both terraform_category key m (tf, env) =
    rw (occurrences-values terraform_category env_category key m.env_vars env.0 refl)
      (omega (arith, tf.1 terraform_category key))
once_in_both env_category key m (tf, env) =
    rw (occurrences-values env_category terraform_category key m.tf_vars tf.0 refl)
      (omega (arith, env.1 env_category key))
once_in_both (other_category c) key m (tf, env) =
    rw (occurrences-values (other_category c) terraform_category key m.tf_vars tf.0 refl)
      (omega (arith, env.1 (other_category c) key))

-- For every key and category, a merge lists at most one variable, and that is the effective one:
-- the last of the run's if there is one, else the last of the workspace's, else the last of the set
-- of the workspace that has one and whose name no other such set is before, in the order of
-- characters, else the last of the global sets.
pub merge-effective :
    (zero_id : TfeId) (cat : VariableCategory) (key : String) (sets : List VariableSet)
    (vars : List Variable) (run : Option Run)
    → (scoped : Option Variable) × IsFirst cat key sets scoped
      × (find_first cat key (merge zero_id sets vars run)
          ≡ effective zero_id cat key sets vars run scoped)
      × (occurrences cat key (merge zero_id sets vars run) ≤ 1)
merge-effective zero_id cat key sets vars run =
    let maps = merge_maps zero_id sets vars run in
    let are = AreMaps-merge zero_id sets vars run in
    (
      in_first_set cat key (keep is_scoped (sort_by_name sets)),
      sort-IsFirst cat key sets,
      find-both cat key maps are ∙ in_maps zero_id cat key sets vars run,
      rw (occurrences-append cat key (values maps.tf_vars) (values maps.env_vars))
          (once_in_both cat key maps are),
    )
