-- ===== src/Variable/Store.antt =====
-- internal/variable/conflict_checker.go, db.go and service.go: the tables of variables and of their
-- sets, the check for conflicts, and the operations of the service under the lock of the tables.
-- Authorization is not part of the model: an operation that is refused does nothing. A statement
-- fails where a primary key is taken, and where a variable refers to a set that is not there; the
-- deletion of a set cascades to its variables. The other constraints on the tables, which only make
-- more statements fail, are left out.
pub mod Conflicts
pub mod Scopes
pub mod Sets
pub mod Invariant
use otf.Prelude.{
  ◌≡◌, Bool, true, false, ◌&&◌, ◌||◌, not, String, String-discrete, Option, none, some, List, [],
  ◌∷◌, ◌++◌, map, Result, ok, err, ◌>>=◌, if◌then◌else◌, test, keep, any, lookup, insert, delete,
  is_some,
}
use otf.Resource.{TfeId, TfeId-discrete, Kind-discrete, variable_set_kind, workspace_kind}
use otf.Variable.{
  Variable, VariableCategory, VariableOptions, VariableError, VariableSet, CreateVariableSetOptions,
  UpdateVariableSetOptions, new_variable, update, new_set, update_set,
}

unfoldable pub VariableCategory-discrete : Discrete VariableCategory
VariableCategory-discrete = hlevel String-discrete

-- The columns of the table of sets, besides the identifier.
pub record SetRow : Type 0 where
  pub name : String
  pub description : String
  pub global : Bool
  pub organization : String

-- The three tables; sets are keyed by their identifier.
pub record Tables : Type 0 where
  pub variables : List Variable
  pub sets : List (TfeId × SetRow)
  pub set_workspaces : List (TfeId × TfeId)

pub data StoreError : Type 0 where
  variable_conflict not_found unsupported_parent duplicate_key : StoreError
  invalid : VariableError → StoreError

-- An error or nothing.
abbrev pub Checked : Type 0
Checked = Result {0, 0} StoreError Unit

abbrev pub same_id : TfeId → TfeId → Bool
same_id a b = test (TfeId-discrete a b)

abbrev pub is_set_id : TfeId → Bool
is_set_id p = test (Kind-discrete p.kind variable_set_kind)

abbrev pub is_workspace_id : TfeId → Bool
is_workspace_id p = test (Kind-discrete p.kind workspace_kind)

abbrev pub of_parent : TfeId → Variable → Bool
of_parent p v = same_id v.parent_id p

-- `listVariables`.
unfoldable pub list_variables : Tables → TfeId → Result StoreError (List Variable)
list_variables t p =
    if is_workspace_id p || is_set_id p
    then ok (keep (of_parent p) t.variables)
    else err unsupported_parent

-- The set that a variable belongs to: the join on the column of sets, which is null for the
-- variables of a workspace.
unfoldable pub set_of : List (TfeId × SetRow) → TfeId → Option SetRow
set_of sets p = if is_set_id p then lookup TfeId-discrete p sets else none

abbrev pub is_global_in : String → Option SetRow → Bool
is_global_in org none = false
is_global_in org (some r) = r.global && test (String-discrete r.organization org)

-- `listGlobalVariables`.
unfoldable pub list_global_variables : Tables → String → List Variable
list_global_variables t org = keep (λ v. is_global_in org (set_of t.sets v.parent_id)) t.variables

abbrev pub workspaces_of : Tables → TfeId → List TfeId
workspaces_of t id = map (λ p. p.1) (keep (λ p. same_id p.0 id) t.set_workspaces)

abbrev pub set_from : Tables → TfeId → Option SetRow → Result StoreError VariableSet
set_from t id none = err not_found
set_from t id (some r) = ok (record {
  id = id;
  name = r.name;
  description = r.description;
  global = r.global;
  workspaces = workspaces_of t id;
  organization = r.organization;
  variables = keep (of_parent id) t.variables;
})

-- `getVariableSet`.
unfoldable pub get_variable_set : Tables → TfeId → Result StoreError VariableSet
get_variable_set t id = set_from t id (lookup TfeId-discrete id t.sets)

abbrev pub clashes : Variable → Variable → Bool
clashes v w =
    not (same_id v.id w.id)
    && test (String-discrete v.key w.key)
    && test (VariableCategory-discrete v.category w.category)

-- `checkConflicts`.
unfoldable pub check_conflicts : Variable → List Variable → Checked
check_conflicts v collection = if any (clashes v) collection then err variable_conflict else ok tt

-- The scope of a variable that belongs to the set, and of one that belongs to none.
abbrev pub set_scope : Tables → Variable → VariableSet → Result StoreError (List Variable)
set_scope t v s =
    if s.global then ok (list_global_variables t s.organization) else list_variables t v.parent_id

unfoldable pub scoped_variables : Tables → Variable → Result StoreError (List Variable)
scoped_variables t v =
    if is_set_id v.parent_id
    then get_variable_set t v.parent_id >>= set_scope t v
    else list_variables t v.parent_id

-- `checkVariable`.
unfoldable pub check_variable : Tables → Variable → Checked
check_variable t v = scoped_variables t v >>= check_conflicts v

abbrev pub check_all : List Variable → List Variable → Checked
check_all [] scoped = ok tt
check_all (v ∷ vs) scoped = check_conflicts v scoped >>= λ _. check_all vs scoped

-- `checkSet`.
unfoldable pub check_set : Tables → VariableSet → Checked
check_set t s =
    if s.global
    then (list_variables t s.id >>= λ own. check_all own (list_global_variables t s.organization))
    else ok tt

abbrev pub invalid_if : Result VariableError Variable → Result StoreError Variable
invalid_if (ok v) = ok v
invalid_if (err e) = err (invalid e)

abbrev pub has_parent : List (TfeId × SetRow) → TfeId → Bool
has_parent sets p =
    if is_set_id p then is_some (lookup TfeId-discrete p sets) else is_workspace_id p

-- The statement of `createVariable`.
unfoldable pub insert_variable : Variable → Tables → Result StoreError Tables
insert_variable v t =
    if not (has_parent t.sets v.parent_id)
    then err unsupported_parent
    else if any (λ w. same_id w.id v.id) t.variables
    then err duplicate_key
    else ok (record t { variables = t.variables ++ v ∷ [] })

-- `createVariable` of the service.
unfoldable pub create_variable :
    TfeId → String → TfeId → VariableOptions → Tables → Result StoreError Tables
create_variable id version parent opts t = do
  v ← invalid_if (new_variable id version parent opts)
  _ ← check_variable t v
  insert_variable v t

abbrev pub found : List Variable → Result StoreError Variable
found (v ∷ []) = ok v
found _ = err not_found

-- `getVariable`: exactly one row.
unfoldable pub get_variable : Tables → TfeId → Result StoreError Variable
get_variable t id = found (keep (λ v. same_id v.id id) t.variables)

-- The columns that the statement of `updateVariable` writes.
abbrev pub overwrite : Variable → Variable → Variable
overwrite v w =
    if same_id w.id v.id
    then record w {
      key = v.key;
      value = v.value;
      description = v.description;
      category = v.category;
      sensitive = v.sensitive;
      hcl = v.hcl;
      version_id = v.version_id;
    }
    else w

unfoldable pub write_variable : Variable → Tables → Tables
write_variable v t = record t { variables = map (overwrite v) t.variables }

-- `updateVariable` of the service.
unfoldable pub update_variable :
    TfeId → String → VariableOptions → Tables → Result StoreError Tables
update_variable id version opts t = do
  before ← get_variable t id
  after ← invalid_if (update version opts before)
  _ ← check_variable t after
  ok (write_variable after t)

-- `deleteVariable`.
unfoldable pub delete_variable : TfeId → Tables → Result StoreError Tables
delete_variable id t = do
  v ← get_variable t id
  ok (record t { variables = keep (λ w. not (same_id w.id id)) t.variables })

abbrev pub row_of : VariableSet → SetRow
row_of s = record {
  name = s.name;
  description = s.description;
  global = s.global;
  organization = s.organization;
}

abbrev pub on_workspaces : TfeId → List TfeId → List (TfeId × TfeId)
on_workspaces id ws = map (λ w. (id, w)) ws

-- `createVariableSetWorkspaces`, `deleteVariableSetWorkspaces` and
-- `deleteAllVariableSetWorkspaces`.
abbrev pub add_workspaces : TfeId → List TfeId → Tables → Tables
add_workspaces id ws t = record t { set_workspaces = t.set_workspaces ++ on_workspaces id ws }

abbrev pub is_among : TfeId → List TfeId → Bool
is_among w ws = any (λ x. same_id x w) ws

abbrev pub remove_workspaces : TfeId → List TfeId → Tables → Tables
remove_workspaces id ws t = record t {
  set_workspaces = keep (λ p. not (same_id p.0 id && is_among p.1 ws)) t.set_workspaces;
}

abbrev pub remove_all_workspaces : TfeId → Tables → Tables
remove_all_workspaces id t = record t {
  set_workspaces = keep (λ p. not (same_id p.0 id)) t.set_workspaces;
}

-- `CreateVariableSet`. The identifier that is made up has the kind of sets.
unfoldable pub create_variable_set :
    String → String → CreateVariableSetOptions → Tables → Result StoreError Tables
create_variable_set id organization opts t =
    let set = new_set (record { kind = variable_set_kind; id = id }) organization opts in
    if is_some (lookup TfeId-discrete set.id t.sets)
    then err duplicate_key
    else ok (
        add_workspaces set.id opts.workspaces
          (record t { sets = insert TfeId-discrete set.id (row_of set) t.sets }))

-- The statements of `updateVariableSet`.
unfoldable pub write_set : VariableSet → Tables → Tables
write_set s t =
    add_workspaces s.id s.workspaces (
      remove_all_workspaces s.id (record t { sets = insert TfeId-discrete s.id (row_of s) t.sets }))

-- `UpdateVariableSet`.
unfoldable pub update_variable_set :
    TfeId → UpdateVariableSetOptions → Tables → Result StoreError Tables
update_variable_set id opts t = do
  before ← get_variable_set t id
  _ ← check_set t (update_set opts before)
  ok (write_set (update_set opts before) t)

-- `DeleteVariableSet`: the rows that refer to the set go with it.
unfoldable pub delete_variable_set : TfeId → Tables → Result StoreError Tables
delete_variable_set id t = do
  set ← get_variable_set t id
  ok (
      remove_all_workspaces id (record t {
        variables = keep (λ v. not (of_parent id v)) t.variables;
        sets = delete TfeId-discrete id t.sets;
      }))

-- `ApplySetToWorkspaces` and `DeleteSetFromWorkspaces`.
unfoldable pub apply_set_to_workspaces : TfeId → List TfeId → Tables → Result StoreError Tables
apply_set_to_workspaces id ws t = do set ← get_variable_set t id; ok (add_workspaces id ws t)

unfoldable pub delete_set_from_workspaces : TfeId → List TfeId → Tables → Result StoreError Tables
delete_set_from_workspaces id ws t = do set ← get_variable_set t id; ok (remove_workspaces id ws t)
