-- ===== src/Variable/Merge.antt =====
-- internal/variable/variable.go: the merging of the variables of a run by their precedence. The
-- order in which Go lists the values of a map is not fixed: here it is that of insertion.
pub mod Precedence
pub mod Names
pub mod Once
use Prim.Native.Nat.{Ordering}
use Prim.Native.String.{compare}
use otf.Prelude.{
  Bool, true, false, not, String, String-discrete, Option, none, some, List, [], ◌∷◌, ◌++◌, map,
  if◌then◌else◌, keep, insert,
}
use otf.Resource.{TfeId}
use otf.Run.Types.{Run, RunVariable}
use otf.Variable.{
  Variable, VariableCategory, terraform_category, env_category, other_category, VariableSet,
}

-- The two maps, from keys to variables.
pub record Merged : Type 0 where
  pub tf_vars : List (String × Variable)
  pub env_vars : List (String × Variable)

abbrev pub put_by : VariableCategory → Variable → Merged → Merged
put_by terraform_category v m = record m { tf_vars = insert String-discrete v.key v m.tf_vars }
put_by env_category v m = record m { env_vars = insert String-discrete v.key v m.env_vars }
put_by (other_category c) v m = m

-- The inner loops: each variable of a list goes into the map of its category.
unfoldable pub put_all : List Variable → Merged → Merged
put_all [] m = m
put_all (v ∷ vs) m = put_all vs (put_by v.category v m)

unfoldable pub put_sets : List VariableSet → Merged → Merged
put_sets [] m = m
put_sets (s ∷ ss) m = put_sets ss (put_all s.variables m)

abbrev pub text_lt : String → String → Bool
text_lt a b = elim (compare a b) [ Ordering.lt ↦ true | _ ↦ false ]

-- `slices.SortFunc` by name, by insertion; the names of the sets of an organization are unique.
unfoldable pub insert_by_name : VariableSet → List VariableSet → List VariableSet
insert_by_name s [] = s ∷ []
insert_by_name s (x ∷ xs) =
    let rest = insert_by_name s xs in if text_lt s.name x.name then s ∷ x ∷ xs else x ∷ rest

unfoldable pub sort_by_name : List VariableSet → List VariableSet
sort_by_name [] = []
sort_by_name (s ∷ ss) = insert_by_name s (sort_by_name ss)

abbrev pub reverse : List VariableSet → List VariableSet
reverse [] = []
reverse (s ∷ ss) = reverse ss ++ s ∷ []

abbrev pub is_global : VariableSet → Bool
is_global s = s.global

abbrev pub is_scoped : VariableSet → Bool
is_scoped s = not s.global

-- The variable that a run's variable stands for. The identifiers that the literal leaves out are
-- zero: the zero identifier, which has no kind, is an argument.
abbrev pub from_run : TfeId → RunVariable → Variable
from_run zero_id v = record {
  id = zero_id;
  key = v.key;
  value = v.value;
  description = "";
  category = terraform_category;
  sensitive = false;
  hcl = true;
  parent_id = zero_id;
  version_id = "";
}

abbrev pub run_variables : TfeId → Option Run → List Variable
run_variables zero_id none = []
run_variables zero_id (some r) = map (from_run zero_id) r.variables

abbrev pub values : List (String × Variable) → List Variable
values [] = []
values ((k, v) ∷ m) = v ∷ values m

-- The two maps at the end of `Merge`.
unfoldable pub merge_maps : TfeId → List VariableSet → List Variable → Option Run → Merged
merge_maps zero_id sets vars run = put_all (run_variables zero_id run) (
    put_all vars (
      put_sets (keep is_scoped (reverse (sort_by_name sets)))
        (put_sets (keep is_global sets) (record { tf_vars = []; env_vars = [] }))))

-- `Merge`.
abbrev pub merge : TfeId → List VariableSet → List Variable → Option Run → List Variable
merge zero_id sets vars run =
    values (merge_maps zero_id sets vars run).tf_vars
    ++ values (merge_maps zero_id sets vars run).env_vars
