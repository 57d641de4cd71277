-- ===== src/Workspace/Settings/Create.antt =====
-- internal/workspace/workspace.go: `NewWorkspace`. The organization and the latest version of an
-- engine are the answers of a client; the identifier, which is drawn at random, and the readings
-- of the clock are arguments.
use otf.Prelude.{ℕ, String, Bool, true, false, Option, none, some, List, [], Result, ok, err, ◌>>=◌}
use otf.Resource.{TfeId}
use otf.Time.{Time, current_timestamp}
use otf.Execution.{Kind, Mode, new_mode_with_defaults}
use otf.Workspace.Types.{Workspace, Version}
use otf.Workspace.Settings.{
  Syntax, SettingsError, missing_name, missing_organization, invalid_name, organization_unavailable,
  latest_unavailable, invalid_mode, ConnectOptions, Outcome, and_then, or_kept, or_kept_some,
  check_triggers, set_name, set_trigger_patterns, add_connection,
}

-- `CreateOptions`, without the tags, which the service adds.
pub record CreateOptions : Type 0 where
  pub agent_pool_id : Option TfeId
  pub allow_destroy_plan : Option Bool
  pub auto_apply : Option Bool
  pub auto_apply_run_trigger : Option Bool
  pub description : Option String
  pub execution_kind : Option Kind
  pub global_remote_state : Option Bool
  pub name : Option String
  pub queue_all_runs : Option Bool
  pub speculative_enabled : Option Bool
  pub source_name : Option String
  pub source_url : Option String
  pub structured_run_output_enabled : Option Bool
  pub engine : Option String
  pub engine_version : Option Version
  pub trigger_prefixes : Option (List String)
  pub trigger_patterns : Option (List String)
  pub working_directory : Option String
  pub organization : Option String
  pub ssh_key_id : Option TfeId
  pub always_trigger : Option Bool
  pub connect : Option ConnectOptions

-- `factoryClient`: `none` is an error. Of an organization its default mode is read.
pub record Client : Type 0 where
  pub get_organization : String → Option Mode
  pub get_latest : (engine : String) → Option String

-- The record literal.
abbrev pub blank : TfeId → (ℕ → Time) → String → String → Mode → Workspace
blank id clock engine organization mode = record {
  id = id;
  created_at = current_timestamp none (clock 0);
  updated_at = current_timestamp none (clock 1);
  allow_destroy_plan = true;
  auto_apply = false;
  auto_apply_run_trigger = false;
  can_queue_destroy_plan = false;
  description = "";
  environment = "";
  global_remote_state = false;
  migration_environment = "";
  name = "";
  queue_all_runs = false;
  speculative_enabled = true;
  structured_run_output_enabled = false;
  source_name = "";
  source_url = "";
  working_directory = "";
  organization = organization;
  latest_run = none;
  tags = [];
  lock = none;
  engine = engine;
  engine_version = none;
  mode = mode;
  ssh_key_id = none;
  connection = none;
  trigger_patterns = [];
  trigger_prefixes = [];
}

abbrev pub assign : CreateOptions → Workspace → Workspace
assign opts ws = record ws {
  allow_destroy_plan = or_kept opts.allow_destroy_plan ws.allow_destroy_plan;
  auto_apply = or_kept opts.auto_apply ws.auto_apply;
  auto_apply_run_trigger = or_kept opts.auto_apply_run_trigger ws.auto_apply_run_trigger;
  description = or_kept opts.description ws.description;
  global_remote_state = or_kept opts.global_remote_state ws.global_remote_state;
  queue_all_runs = or_kept opts.queue_all_runs ws.queue_all_runs;
  source_name = or_kept opts.source_name ws.source_name;
  source_url = or_kept opts.source_url ws.source_url;
  speculative_enabled = or_kept opts.speculative_enabled ws.speculative_enabled;
  structured_run_output_enabled =
      or_kept opts.structured_run_output_enabled ws.structured_run_output_enabled;
  engine = or_kept opts.engine ws.engine;
}

abbrev pub assign_rest : CreateOptions → Workspace → Workspace
assign_rest opts ws = record ws {
  working_directory = or_kept opts.working_directory ws.working_directory;
  ssh_key_id = or_kept_some opts.ssh_key_id ws.ssh_key_id;
  trigger_prefixes = or_kept opts.trigger_prefixes ws.trigger_prefixes;
}

-- The engine's version, by default the latest.
abbrev pub with_latest : Option String → Workspace → Outcome
with_latest none ws = (ws, some latest_unavailable)
with_latest (some semver) ws =
    (record ws { engine_version = some (record { latest = false; semver = semver }) }, none)

abbrev pub version_step : Client → Option Version → Workspace → Outcome
version_step client (some v) ws = (record ws { engine_version = some v }, none)
version_step client none ws = with_latest (client.get_latest ws.engine) ws

abbrev pub connect_step : Syntax → Option ConnectOptions → Workspace → Outcome
connect_step syntax none ws = (ws, none)
connect_step syntax (some c) ws = add_connection syntax c ws

abbrev pub patterns_step : Syntax → Option (List String) → Workspace → Outcome
patterns_step syntax none ws = (ws, none)
patterns_step syntax (some patterns) ws = set_trigger_patterns syntax patterns ws

-- From the tests on the triggers to the end.
unfoldable pub trigger_steps : Syntax → CreateOptions → Workspace → Outcome
trigger_steps syntax opts ws =
    elim (check_triggers opts.connect opts.trigger_patterns opts.always_trigger) [
      | some e ↦ (ws, some e)
      | none ↦
          and_then (connect_step syntax opts.connect ws)
            (λ w. patterns_step syntax opts.trigger_patterns w)
    ]

unfoldable pub create_steps : Syntax → Client → CreateOptions → String → Workspace → Outcome
unfolding trigger_steps
create_steps syntax client opts name ws = and_then (set_name syntax name ws) (λ w.
    and_then (version_step client opts.engine_version (assign opts w))
      (λ v. trigger_steps syntax opts (assign_rest opts v)))

abbrev pub result_of : Outcome → Result SettingsError Workspace
result_of (ws, none) = ok ws
result_of (ws, some e) = err e

unfoldable pub valid_name : Syntax → Option String → Result SettingsError String
valid_name syntax none = err missing_name
valid_name syntax (some name) = elim (syntax.is_valid_name name) [
  | true ↦ ok name
  | false ↦ err invalid_name
]

unfoldable pub default_mode : Client → Option String → Result SettingsError (String × Mode)
default_mode client none = err missing_organization
default_mode client (some org) = elim (client.get_organization org) [
  | none ↦ err organization_unavailable
  | some mode ↦ ok (org, mode)
]

unfoldable pub mode_of : CreateOptions → Mode → Result SettingsError Mode
mode_of opts m =
    elim (new_mode_with_defaults opts.execution_kind m.kind opts.agent_pool_id m.agent_pool_id) [
      | ok mode ↦ ok mode
      | err e ↦ err (invalid_mode e)
    ]

-- `NewWorkspace`.
unfoldable pub new_workspace :
    Syntax
    → Client
    → (default_engine : String) → TfeId
    → (ℕ → Time)
    → CreateOptions
    → Result SettingsError Workspace
unfolding create_steps valid_name default_mode mode_of
new_workspace syntax client default_engine id clock opts = do
  name ← valid_name syntax opts.name
  org ← default_mode client opts.organization
  mode ← mode_of opts org.1
  result_of (create_steps syntax client opts name (blank id clock default_engine org.0 mode))
