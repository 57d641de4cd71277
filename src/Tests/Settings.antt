-- ===== src/Tests/Settings.antt =====
-- The theorems on the settings of a workspace, at concrete options.
use otf.Prelude.{◌≡◌, refl, inl, true, false, none, some, [], ◌∷◌, ok, ite, String-discrete}
use otf.Resource.{vcs_provider_kind}
use otf.Execution.{remote_mode, new_mode, new_mode_with_defaults}
use otf.Workspace.Types.{Workspace}
use otf.Workspace.Settings.{Syntax, ConnectOptions, check_triggers, set_name, set_trigger_patterns}
use otf.Workspace.Settings.Update.{UpdateOptions, update}
use otf.Workspace.Settings.Create
use otf.Workspace.Settings.Create.{CreateOptions, new_workspace}
use otf.Workspace.Settings.Triggers.{IsExclusive}
use otf.Workspace.Settings.Triggers.Updates.{update-IsExclusive}
use otf.Tests.Samples.{dev, workspace_id, clock_at}

-- All that is not empty is well formed.
abbrev lenient : Syntax
lenient = record {
  is_valid_name = λ s. ite (String-discrete s "") false true;
  is_name = λ s. ite (String-discrete s "") false true;
  is_regex = λ s. true;
  is_glob = λ s. true;
}

abbrev tagged : ConnectOptions
tagged = record {
  repo_path = some (record { owner = "acme"; name = "infra" });
  vcs_provider_id = some (record { kind = vcs_provider_kind; id = "1" });
  branch = none;
  tags_regex = some "v.*";
  allow_cli_apply = none;
}

abbrev connecting : UpdateOptions
connecting = record {
  agent_pool_id = none;
  allow_destroy_plan = none;
  auto_apply = none;
  auto_apply_run_trigger = none;
  name = none;
  description = none;
  execution_kind = none;
  global_remote_state = none;
  operations = none;
  queue_all_runs = none;
  speculative_enabled = none;
  structured_run_output_enabled = none;
  engine_version = none;
  trigger_prefixes = none;
  trigger_patterns = none;
  working_directory = none;
  engine = none;
  always_trigger = none;
  disconnect = false;
  connect = some tagged;
  ssh_key = none;
}

abbrev creating : CreateOptions
creating = record {
  agent_pool_id = none;
  allow_destroy_plan = none;
  auto_apply = none;
  auto_apply_run_trigger = none;
  description = none;
  execution_kind = none;
  global_remote_state = none;
  name = some "dev";
  queue_all_runs = none;
  speculative_enabled = none;
  source_name = none;
  source_url = none;
  structured_run_output_enabled = none;
  engine = none;
  engine_version = none;
  trigger_prefixes = none;
  trigger_patterns = some ("modules/**" ∷ []);
  working_directory = none;
  organization = some "acme";
  ssh_key_id = none;
  always_trigger = none;
  connect = none;
}

abbrev hub : Create.Client
hub = record { get_organization = λ org. some remote_mode; get_latest = λ engine. some "1.9.0" }

abbrev created : Workspace
created = record (Create.blank (workspace_id "dev") (clock_at 0) "terraform" "acme" remote_mode) {
  name = "dev";
  engine_version = some (record { latest = false; semver = "1.9.0" });
  trigger_patterns = "modules/**" ∷ [];
}

creates :
    new_workspace lenient hub "terraform" (workspace_id "dev") (clock_at 0) creating ≡ ok created
unfolding new_workspace set_name check_triggers set_trigger_patterns new_mode_with_defaults new_mode
    String-discrete
creates = refl

update-IsExclusive_example : IsExclusive (update lenient connecting 7 dev).0
update-IsExclusive_example = update-IsExclusive lenient connecting 7 dev (inl refl) (λ n. refl)

-- A workspace that is not connected, with patterns.
abbrev patterned : Workspace
patterned = record dev { trigger_patterns = "modules/**" ∷ [] }
