-- ===== src/Tests/Variables.antt =====
-- Variables at concrete inputs.
use Prim.Native.String.{◌++◌}
use otf.Prelude.{
  Option, ◌≡◌, ◌≤◌, refl, true, false, some, none, [], ◌∷◌, err, List, String, String-discrete,
  lookup, insert,
}
use otf.Prelude.TextSearch.{contains, read_until, trim_space}
use otf.Resource.{TfeId, TfeId-discrete, Kind-discrete, variable_kind, variable_set_kind}
use otf.Tests.Samples.{workspace_id}
use otf.Variable.{
  Variable, VariableOptions, VariableSet, terraform_category, update, change_key, new_variable,
  sensitive_key, set_value, set_key, set_category, new_set, update_set,
}
use otf.Variable.Secrets.{KeepsSecret, update-KeepsSecret}
use otf.Variable.Bounds.{IsBounded, edit_all, edit_all-IsBounded}
use otf.Variable.Merge.{merge}
use otf.Variable.Merge.Precedence.{find_first, effective}
use otf.Variable.Merge.Names.{IsFirst}
use otf.Variable.Merge.Once.{occurrences, merge-effective}
use otf.Variable.Terraform.{write_value, write_terraform_vars, newline, find_delimiter}
use otf.Variable.Terraform.Heredoc.{write_terraform_vars_ends, write_value-read_until}
use otf.Variable.Store.{
  variable_conflict, update_variable_set, get_variable_set, create_variable, check_variable,
  scoped_variables, create_variable_set, check_conflicts, list_global_variables,
  VariableCategory-discrete, check_set, insert_variable, list_variables, set_of, write_set,
}
use otf.Variable.Store.Conflicts.{IsConsistent}
use otf.Variable.Store.Invariant.{
  Operation, perform_all, perform_all-IsConsistent, empty, creates, creates_set, updates_set,
}

abbrev var_id : String → TfeId
var_id s = record { kind = variable_kind; id = s }

abbrev set_id : String → TfeId
set_id s = record { kind = variable_set_kind; id = s }

abbrev no_options : VariableOptions
no_options = record {
  key = none;
  value = none;
  description = none;
  category = none;
  sensitive = none;
  hcl = none;
}

abbrev region_options : VariableOptions
region_options = record no_options {
  key = some " region ";
  value = some "eu";
  category = some terraform_category;
}

abbrev region : Variable
region = record {
  id = var_id "1";
  key = "region";
  value = "eu";
  description = "";
  category = terraform_category;
  sensitive = false;
  hcl = false;
  parent_id = workspace_id "dev";
  version_id = "v1";
}

abbrev secret : Variable
secret = record region { sensitive = true }

abbrev new_value : VariableOptions
new_value = record no_options { value = some "us" }

update-KeepsSecret_example : KeepsSecret secret (record secret { value = "us"; version_id = "v2" })
unfolding update set_value trim_space
update-KeepsSecret_example =
    update-KeepsSecret "v2" new_value secret (record secret { value = "us"; version_id = "v2" })
      refl refl

locked_key : update "v2" (record no_options { key = some "zone" }) secret ≡ err sensitive_key
unfolding update change_key
locked_key = refl

edit_all-IsBounded_example : IsBounded (edit_all (("v2", new_value) ∷ []) region)
unfolding new_variable set_key set_value set_category trim_space
edit_all-IsBounded_example =
    edit_all-IsBounded (var_id "1") "v1" (workspace_id "dev") region_options region
      (("v2", new_value) ∷ []) refl

abbrev defaults : VariableSet
defaults = record {
  id = set_id "1";
  name = "defaults";
  description = "";
  global = true;
  workspaces = [];
  organization = "acme";
  variables = record region { value = "default" } ∷ [];
}

-- Two sets of the workspace, of which the second is the first by name.
abbrev set_named : String → String → VariableSet
set_named name value = record defaults {
  name = name;
  global = false;
  variables = record region { value = value } ∷ [];
}

abbrev two_sets : List VariableSet
two_sets = set_named "b" "last" ∷ set_named "a" "first" ∷ []

merge-effective_example :
    (scoped : Option Variable) × IsFirst terraform_category "region" two_sets scoped
    × (find_first terraform_category "region" (merge (var_id "") two_sets [] none)
        ≡ effective (var_id "") terraform_category "region" two_sets [] none scoped)
    × (occurrences terraform_category "region" (merge (var_id "") two_sets [] none) ≤ 1)
merge-effective_example = merge-effective (var_id "") terraform_category "region" two_sets [] none

write_terraform_vars_ends_example : (s : String) × (write_terraform_vars (region ∷ []) ≡ some s)
write_terraform_vars_ends_example = write_terraform_vars_ends (region ∷ [])

abbrev two_lines : Variable
two_lines = record region { value = "EOT\nus" }

written_heredoc : write_terraform_vars (two_lines ∷ []) ≡ some "\nregion = <<EOTT\nEOT\nus\nEOTT\n"
unfolding write_value contains find_delimiter
written_heredoc = refl

write_value-read_until_example :
    (d : String) × (write_value two_lines
      ≡ some ("<<" ++ (d ++ ("\n" ++ ("EOT\nus" ++ ("\n" ++ d))))))
    × ((rest : String)
        → read_until (String.◌∷◌ newline d) ("EOT\nus" ++ String.◌∷◌ newline (d ++ rest))
          ≡ some "EOT\nus")
unfolding contains
write_value-read_until_example = write_value-read_until two_lines refl refl

-- A quote in a value is written as it stands.
quoted_value : write_value (record region { value = "a\"b" }) ≡ some "\"a\"b\""
unfolding write_value contains
quoted_value = refl

abbrev session : List Operation
session =
    creates_set "1" "acme" (record { name = "a"; description = ""; global = true; workspaces = [] })
    ∷ creates_set "2" "acme"
        (record { name = "b"; description = ""; global = false; workspaces = [] })
    ∷ creates (var_id "1") "v1" (set_id "1") region_options
    ∷ creates (var_id "2") "v1" (set_id "2") region_options
    ∷ updates_set (set_id "2")
        (record { name = none; description = none; global = some true; workspaces = none })
    ∷ []

perform_all-IsConsistent_example : IsConsistent (perform_all session empty)
perform_all-IsConsistent_example = perform_all-IsConsistent session

-- The last operation of the session is refused: both sets would be global, with the same key.
refused_set :
    update_variable_set
      (set_id "2")
      (record { name = none; description = none; global = some true; workspaces = none })
      (perform_all session empty)
    ≡ err variable_conflict
unfolding update_variable_set get_variable_set lookup create_variable new_variable set_key
    set_category set_value check_variable scoped_variables Kind-discrete create_variable_set insert
    TfeId-discrete new_set String-discrete check_conflicts list_global_variables trim_space
    VariableCategory-discrete check_set insert_variable list_variables set_of write_set update_set
refused_set = refl
