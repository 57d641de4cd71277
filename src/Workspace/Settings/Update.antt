-- ===== src/Workspace/Settings/Update.antt =====
-- internal/workspace/workspace.go: `Update`.
use otf.Prelude.{
  String, String-discrete, Bool, true, false, ◌||◌, Option, none, some, List, [], ite, is_some,
  Result, ok, err,
}
use otf.Resource.{TfeId}
use otf.Time.{Time, current_timestamp}
use otf.Execution.{Kind, Mode, remote_mode, local_mode}
use otf.Execution
use otf.Workspace.Types.{Workspace, Version, Connection}
use otf.Workspace.Settings.{
  Syntax, SettingsError, connect_and_disconnect, already_disconnected, invalid_mode, ConnectOptions,
  Outcome, and_then, or_kept, or_kept_some, non_empty, is_true, check_triggers, set_branch,
  set_allow_cli_apply, clear_tags_regex, set_name, set_trigger_patterns, set_tags_regex,
  add_connection,
}

-- `UpdateOptions`. `ssh_key` is there where the key is to be assigned or, with none in it,
-- unassigned.
pub record UpdateOptions : Type 0 where
  pub agent_pool_id : Option TfeId
  pub allow_destroy_plan : Option Bool
  pub auto_apply : Option Bool
  pub auto_apply_run_trigger : Option Bool
  pub name : Option String
  pub description : Option String
  pub execution_kind : Option Kind
  pub global_remote_state : Option Bool
  pub operations : Option Bool
  pub queue_all_runs : Option Bool
  pub speculative_enabled : Option Bool
  pub structured_run_output_enabled : Option Bool
  pub engine_version : Option Version
  pub trigger_prefixes : Option (List String)
  pub trigger_patterns : Option (List String)
  pub working_directory : Option String
  pub engine : Option String
  pub always_trigger : Option Bool
  pub disconnect : Bool
  pub connect : Option ConnectOptions
  pub ssh_key : Option (Option TfeId)

-- The assignments before the mode, and those after it.
abbrev pub assign_first : UpdateOptions → Workspace → Workspace
assign_first opts ws = record ws {
  allow_destroy_plan = or_kept opts.allow_destroy_plan ws.allow_destroy_plan;
  auto_apply = or_kept opts.auto_apply ws.auto_apply;
  auto_apply_run_trigger = or_kept opts.auto_apply_run_trigger ws.auto_apply_run_trigger;
  description = or_kept opts.description ws.description;
}

abbrev pub mode_of_operations : Option Bool → Mode → Mode
mode_of_operations none m = m
mode_of_operations (some true) m = remote_mode
mode_of_operations (some false) m = local_mode

abbrev pub assign_rest : UpdateOptions → Workspace → Workspace
assign_rest opts ws = record ws {
  mode = mode_of_operations opts.operations ws.mode;
  global_remote_state = or_kept opts.global_remote_state ws.global_remote_state;
  queue_all_runs = or_kept opts.queue_all_runs ws.queue_all_runs;
  speculative_enabled = or_kept opts.speculative_enabled ws.speculative_enabled;
  structured_run_output_enabled =
      or_kept opts.structured_run_output_enabled ws.structured_run_output_enabled;
  engine = or_kept opts.engine ws.engine;
  engine_version = or_kept_some opts.engine_version ws.engine_version;
  working_directory = or_kept opts.working_directory ws.working_directory;
  ssh_key_id = or_kept opts.ssh_key ws.ssh_key_id;
  trigger_prefixes = or_kept opts.trigger_prefixes ws.trigger_prefixes;
}

abbrev pub update_mode : UpdateOptions → Workspace → Outcome
update_mode opts ws =
    let m = Execution.update ws.mode opts.execution_kind opts.agent_pool_id in
    (record ws { mode = m.0 }, elim m.1 [ none ↦ none | some e ↦ some (invalid_mode e) ])

-- `if *opts.AlwaysTrigger { … }`.
abbrev pub trigger_always : Bool → Workspace → Workspace
trigger_always false ws = ws
trigger_always true ws = record (clear_tags_regex ws) { trigger_patterns = [] }

-- Whether something is assigned, apart from the connection.
abbrev pub assigns : UpdateOptions → Bool
assigns opts =
    is_some opts.name
    || is_some opts.allow_destroy_plan
    || is_some opts.auto_apply
    || is_some opts.auto_apply_run_trigger
    || is_some opts.description
    || is_some opts.execution_kind
    || is_some opts.agent_pool_id
    || is_some opts.operations
    || is_some opts.global_remote_state
    || is_some opts.queue_all_runs
    || is_some opts.speculative_enabled
    || is_some opts.structured_run_output_enabled
    || is_some opts.engine
    || is_some opts.engine_version
    || is_some opts.working_directory
    || is_some opts.ssh_key
    || is_some opts.trigger_prefixes
    || is_true opts.always_trigger
    || is_some opts.trigger_patterns

abbrev pub modifies : ConnectOptions → Bool
modifies c = non_empty c.tags_regex || is_some c.branch || is_some c.allow_cli_apply

-- Whether the connection is touched.
abbrev pub touches : Bool → Option ConnectOptions → Option Connection → Bool
touches true opts connection = true
touches false none connection = false
touches false (some c) none = true
touches false (some c) (some old) = modifies c

-- The first result of `Update`.
abbrev pub connects : Bool → Option ConnectOptions → Option Connection → Option Bool
connects true opts connection = some false
connects false (some c) none = some true
connects false (some c) (some old) = none
connects false none connection = none

abbrev pub stamp : Bool → Time → Workspace → Workspace
stamp true t ws = record ws { updated_at = current_timestamp none t }
stamp false t ws = ws

module _ (syntax : Syntax) where
  unfoldable pub update_patterns : Option (List String) → Workspace → Outcome
  update_patterns none ws = (ws, none)
  update_patterns (some patterns) ws =
      and_then (set_trigger_patterns syntax patterns ws) (λ w. (clear_tags_regex w, none))

  -- An existing connection is modified.
  unfoldable pub update_connection : ConnectOptions → Connection → Workspace → Outcome
  update_connection opts c ws =
      and_then
        (elim opts.tags_regex [
          | none ↦ (ws, none)
          | some regex ↦
              ite (String-discrete regex "") (ws, none)
                (and_then (set_tags_regex syntax regex c ws)
                  (λ w. (record w { trigger_patterns = [] }, none)))
        ])
        (λ w. (set_allow_cli_apply opts.allow_cli_apply (set_branch opts.branch w), none))

  -- The connection is made, modified or, by the caller, undone.
  unfoldable pub connect : Bool → Option ConnectOptions → Option Connection → Workspace → Outcome
  unfolding update_connection
  connect true (some opts) c ws = (ws, some connect_and_disconnect)
  connect true none none ws = (ws, some already_disconnected)
  connect true none (some c) ws = (ws, none)
  connect false none c ws = (ws, none)
  connect false (some opts) none ws = add_connection syntax opts ws
  connect false (some opts) (some c) ws = update_connection opts c ws

  abbrev pub name_step : Option String → Workspace → Outcome
  name_step none ws = (ws, none)
  name_step (some name) ws = set_name syntax name ws

  -- From the tests on the triggers to the end.
  unfoldable pub update_triggers : UpdateOptions → Workspace → Outcome
  unfolding update_patterns connect
  update_triggers opts ws =
      elim (check_triggers opts.connect opts.trigger_patterns opts.always_trigger) [
        | some e ↦ (ws, some e)
        | none ↦
            and_then
              (update_patterns opts.trigger_patterns
                (trigger_always (is_true opts.always_trigger) ws))
              (λ w. connect opts.disconnect opts.connect w.connection w)
      ]

  unfoldable pub update_steps : UpdateOptions → Workspace → Outcome
  unfolding update_triggers
  update_steps opts ws = and_then (name_step opts.name ws) (λ w.
      and_then (update_mode opts (assign_first opts w))
        (λ v. update_triggers opts (assign_rest opts v)))

  -- `Workspace.Update`.
  unfoldable pub update :
      UpdateOptions → Time → Workspace → Workspace × Result SettingsError (Option Bool)
  unfolding update_steps
  update opts reading ws = elim ((update_steps opts ws).1) [
    | some e ↦ ((update_steps opts ws).0, err e)
    | none ↦ (
      stamp (assigns opts || touches opts.disconnect opts.connect ws.connection) reading
          (update_steps opts ws).0,
      ok (connects opts.disconnect opts.connect ws.connection),
    )
  ]
