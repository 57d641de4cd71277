-- ===== src/Variable/Merge/Precedence.antt =====
-- internal/variable/variable.go: which variable of a key and a category is effective.
use otf.Prelude.{
  ◌≡◌, refl, sym, ap, ◌∙◌, Bool, true, false, ◌&&◌, String, String-discrete, Option, none, some,
  List, [], ◌∷◌, ◌++◌, if◌then◌else◌, test, keep, lookup, insert, lookup-insert, arith, Bool-cases,
  inl, inr,
}
use otf.Resource.{TfeId}
use otf.Run.Types.{Run}
use otf.Variable.{
  Variable, VariableCategory, terraform_category, env_category, other_category, VariableSet,
}
use otf.Variable.Merge.{
  Merged, put_by, put_all, put_sets, sort_by_name, reverse, is_global, is_scoped, run_variables,
  merge_maps,
}

abbrev pub same_category : VariableCategory → VariableCategory → Bool
same_category terraform_category terraform_category = true
same_category env_category env_category = true
same_category _ _ = false

abbrev pub is_for : VariableCategory → String → Variable → Bool
is_for cat key v = same_category cat v.category && test (String-discrete key v.key)

abbrev pub or_else : Option Variable → Option Variable → Option Variable
or_else none b = b
or_else (some a) b = some a

-- The first and the last variable of a key and a category.
abbrev pub find_first : VariableCategory → String → List Variable → Option Variable
find_first cat key [] = none
find_first cat key (v ∷ vs) = if is_for cat key v then some v else find_first cat key vs

abbrev pub find_last : VariableCategory → String → List Variable → Option Variable
find_last cat key [] = none
find_last cat key (v ∷ vs) =
    or_else (find_last cat key vs) (if is_for cat key v then some v else none)

-- The same in the first set, and in the last, that has one.
abbrev pub in_first_set : VariableCategory → String → List VariableSet → Option Variable
in_first_set cat key [] = none
in_first_set cat key (s ∷ ss) = or_else (find_last cat key s.variables) (in_first_set cat key ss)

abbrev pub in_last_set : VariableCategory → String → List VariableSet → Option Variable
in_last_set cat key [] = none
in_last_set cat key (s ∷ ss) = or_else (in_last_set cat key ss) (find_last cat key s.variables)

-- What the documentation says: a run's variable before a workspace's, that before the one, if any,
-- of the sets of the workspace, which is given, and that before one of the global sets.
abbrev pub effective :
    TfeId
    → VariableCategory
    → String
    → List VariableSet
    → List Variable
    → Option Run
    → (of_workspace_sets : Option Variable) → Option Variable
effective zero_id cat key sets vars run scoped =
    or_else (find_last cat key (run_variables zero_id run)) (
      or_else (find_last cat key vars) (or_else scoped (in_last_set cat key (keep is_global sets))))

abbrev pub map_of : VariableCategory → Merged → List (String × Variable)
map_of terraform_category m = m.tf_vars
map_of env_category m = m.env_vars
map_of (other_category c) m = []

or_else_assoc : (a b c : Option Variable) → or_else (or_else a b) c ≡ or_else a (or_else b c)
or_else_assoc none b c = refl
or_else_assoc (some a) b c = refl

pub or_else-none : (a : Option Variable) → or_else a none ≡ a
or_else-none none = refl
or_else-none (some a) = refl

abbrev pub in_map : VariableCategory → String → Merged → Option Variable
in_map cat key m = lookup String-discrete key (map_of cat m)

put_lookup :
    (key k : String) (v : Variable) (m : List (String × Variable))
    → lookup String-discrete key (insert String-discrete k v m)
      ≡ or_else
          (if test (String-discrete key k) then some v else none)
          (lookup String-discrete key m)
put_lookup key k v m = rw (lookup-insert String-discrete k key v m) (ground arith)

in_map-put :
    (cat c : VariableCategory) (key : String) (v : Variable) (m : Merged)
    → in_map cat key (put_by c v m)
      ≡ or_else
          (if same_category cat c && test (String-discrete key v.key) then some v else none)
          (in_map cat key m)
in_map-put terraform_category terraform_category key v m = put_lookup key v.key v m.tf_vars
in_map-put terraform_category env_category key v m = refl
in_map-put terraform_category (other_category c) key v m = refl
in_map-put env_category terraform_category key v m = refl
in_map-put env_category env_category key v m = put_lookup key v.key v m.env_vars
in_map-put env_category (other_category c) key v m = refl
in_map-put (other_category d) c key v m = refl

in_map-put_all :
    (cat : VariableCategory) (key : String) (vs : List Variable) (m : Merged)
    → in_map cat key (put_all vs m) ≡ or_else (find_last cat key vs) (in_map cat key m)
unfolding put_all
in_map-put_all cat key [] m = refl
in_map-put_all cat key (v ∷ vs) m =
    in_map-put_all cat key vs (put_by v.category v m)
    ∙ (ap (or_else (find_last cat key vs)) (in_map-put cat v.category key v m)
        ∙ sym (or_else_assoc (find_last cat key vs) _ (in_map cat key m)))

in_map-put_sets :
    (cat : VariableCategory) (key : String) (ss : List VariableSet) (m : Merged)
    → in_map cat key (put_sets ss m) ≡ or_else (in_last_set cat key ss) (in_map cat key m)
unfolding put_sets
in_map-put_sets cat key [] m = refl
in_map-put_sets cat key (s ∷ ss) m =
    in_map-put_sets cat key ss (put_all s.variables m)
    ∙ (ap (or_else (in_last_set cat key ss)) (in_map-put_all cat key s.variables m)
        ∙ sym (or_else_assoc (in_last_set cat key ss) _ (in_map cat key m)))

last_append :
    (cat : VariableCategory) (key : String) (p : VariableSet → Bool) (ss : List VariableSet)
    (s : VariableSet)
    → in_last_set cat key (keep p (ss ++ s ∷ []))
      ≡ or_else (in_last_set cat key (keep p (s ∷ []))) (in_last_set cat key (keep p ss))
last_append cat key p [] s = sym (or_else-none _)
last_append cat key p (x ∷ ss) s = elim (Bool-cases (p x)) [
  | inl e ↦ rw e (
      ap (λ o. or_else o (find_last cat key x.variables)) (last_append cat key p ss s)
      ∙ or_else_assoc (in_last_set cat key (keep p (s ∷ []))) _ _)
  | inr e ↦ rw e (last_append cat key p ss s)
]

last-reverse :
    (cat : VariableCategory) (key : String) (p : VariableSet → Bool) (ss : List VariableSet)
    → in_last_set cat key (keep p (reverse ss)) ≡ in_first_set cat key (keep p ss)
last-reverse cat key p [] = refl
last-reverse cat key p (s ∷ ss) = elim (Bool-cases (p s)) [
  | inl e ↦
      last_append cat key p (reverse ss) s
      ∙ rw e (ap (or_else (find_last cat key s.variables)) (last-reverse cat key p ss))
  | inr e ↦ last_append cat key p (reverse ss) s ∙ rw e (last-reverse cat key p ss)
]

abbrev empty_maps : Merged
empty_maps = record { tf_vars = []; env_vars = [] }

in_empty : (cat : VariableCategory) (key : String) → in_map cat key empty_maps ≡ none
unfolding lookup
in_empty terraform_category key = refl
in_empty env_category key = refl
in_empty (other_category c) key = refl

pub in_maps :
    (zero_id : TfeId) (cat : VariableCategory) (key : String) (sets : List VariableSet)
    (vars : List Variable) (run : Option Run)
    → in_map cat key (merge_maps zero_id sets vars run)
      ≡ effective zero_id cat key sets vars run
          (in_first_set cat key (keep is_scoped (sort_by_name sets)))
unfolding merge_maps
in_maps zero_id cat key sets vars run =
    let globals = put_sets (keep is_global sets) empty_maps in
    let scoped = put_sets (keep is_scoped (reverse (sort_by_name sets))) globals in
    in_map-put_all cat key (run_variables zero_id run) (put_all vars scoped)
    ∙ ap (or_else (find_last cat key (run_variables zero_id run))) (
        in_map-put_all cat key vars scoped
        ∙ ap (or_else (find_last cat key vars)) (
            in_map-put_sets cat key (keep is_scoped (reverse (sort_by_name sets))) globals
            ∙ cc (
              last-reverse cat key is_scoped (sort_by_name sets),
              in_map-put_sets cat key (keep is_global sets) empty_maps
                  ∙ (ap (or_else (in_last_set cat key (keep is_global sets))) (in_empty cat key)
                      ∙ or_else-none (in_last_set cat key (keep is_global sets))),
            )))
