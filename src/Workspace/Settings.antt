-- ===== src/Workspace/Settings.antt =====
-- internal/workspace/workspace.go: what `NewWorkspace` and `Update` share. A method gives the
-- workspace back with its error, since Go keeps what is written before a return. Whether a text
-- is a name, a regular expression or a glob is asked of an argument, the syntax.
pub mod Update
pub mod Create
pub mod Triggers
pub mod Modes
use otf.Prelude.{
  String, String-discrete, Bool, true, false, not, ◌&&◌, ◌||◌, Option, none, some, List, [], ◌∷◌,
  ite, if◌then◌else◌, is_some, Result, ok, err,
}
use otf.Resource.{TfeId}
use otf.Time.{Time, current_timestamp}
use otf.Vcs.{Repo}
use otf.Execution.{Kind, Mode, ModeError, remote_mode, local_mode, new_mode_with_defaults}
use otf.Execution
use otf.Workspace.Types.{Workspace, Version, Connection}

pub record Syntax : Type 0 where
  -- `ValidateName`'s pattern, and that of `setName`
  pub is_valid_name : String → Bool
  pub is_name : String → Bool
  pub is_regex : String → Bool
  pub is_glob : String → Bool

pub data SettingsError : Type 0 where
  missing_name missing_organization invalid_name : SettingsError
  missing_repo_path missing_vcs_provider_id : SettingsError
  invalid_tags_regex invalid_trigger_pattern : SettingsError
  tags_regex_and_trigger_patterns tags_regex_and_always_trigger : SettingsError
  trigger_patterns_and_always_trigger : SettingsError
  connect_and_disconnect already_disconnected : SettingsError
  -- the organization or the latest version of the engine could not be fetched
  organization_unavailable latest_unavailable : SettingsError
  invalid_mode : ModeError → SettingsError

-- `ConnectOptions`.
pub record ConnectOptions : Type 0 where
  pub repo_path : Option Repo
  pub vcs_provider_id : Option TfeId
  pub branch : Option String
  pub tags_regex : Option String
  pub allow_cli_apply : Option Bool

abbrev pub Outcome : Type 0
Outcome = Workspace × Option SettingsError

-- A step that fails ends the method.
abbrev pub and_then : Outcome → (Workspace → Outcome) → Outcome
and_then (ws, some e) next = (ws, some e)
and_then (ws, none) next = next ws

-- `if opts.F != nil { ws.F = *opts.F }`.
abbrev or_kept {ℓ} : {A : Type ℓ} → Option A → A → A
or_kept none a = a
or_kept (some b) a = b

abbrev or_kept_some {ℓ} : {A : Type ℓ} → Option A → Option A → Option A
or_kept_some none a = a
or_kept_some (some b) a = some b

-- The tags regex that the options hold, where it is not empty.
abbrev regex_of : Option ConnectOptions → Option String
regex_of none = none
regex_of (some c) = c.tags_regex

abbrev non_empty : Option String → Bool
non_empty none = false
non_empty (some r) = ite (String-discrete r "") false true

abbrev is_true : Option Bool → Bool
is_true none = false
is_true (some b) = b

abbrev has_patterns : Option (List String) → Bool
has_patterns none = false
has_patterns (some []) = false
has_patterns (some (p ∷ ps)) = true

-- The three tests of `NewWorkspace` and of `Update` on the triggers that the options ask for.
unfoldable pub check_triggers :
    Option ConnectOptions → Option (List String) → Option Bool → Option SettingsError
check_triggers connect patterns always =
    let regex = non_empty (regex_of connect) in
    if regex && is_some patterns
    then some tags_regex_and_trigger_patterns
    else if regex && is_true always
    then some tags_regex_and_always_trigger
    else if has_patterns patterns && is_true always
    then some trigger_patterns_and_always_trigger
    else none

-- `ws.Connection.F = …`, where there is a connection.
abbrev on_connection : (Connection → Connection) → Option Connection → Option Connection
on_connection f none = none
on_connection f (some c) = some (f c)

abbrev set_branch : Option String → Workspace → Workspace
set_branch none ws = ws
set_branch (some b) ws = record ws {
  connection = on_connection (λ c. record c { branch = b }) ws.connection;
}

abbrev set_allow_cli_apply : Option Bool → Workspace → Workspace
set_allow_cli_apply none ws = ws
set_allow_cli_apply (some b) ws = record ws {
  connection = on_connection (λ c. record c { allow_cli_apply = b }) ws.connection;
}

-- `if ws.Connection != nil { ws.Connection.TagsRegex = "" }`.
abbrev clear_tags_regex : Workspace → Workspace
clear_tags_regex ws = record ws {
  connection = on_connection (λ c. record c { tags_regex = "" }) ws.connection;
}

module _ (syntax : Syntax) where
  -- `setName`.
  unfoldable pub set_name : String → Workspace → Outcome
  set_name name ws =
      if syntax.is_name name then (record ws { name = name }, none) else (ws, some invalid_name)

  all_globs : List String → Bool
  all_globs [] = true
  all_globs (p ∷ ps) = syntax.is_glob p && all_globs ps

  -- `setTriggerPatterns`.
  unfoldable pub set_trigger_patterns : List String → Workspace → Outcome
  unfolding all_globs
  set_trigger_patterns patterns ws =
      if all_globs patterns
      then (record ws { trigger_patterns = patterns }, none)
      else (ws, some invalid_trigger_pattern)

  -- `setTagsRegex`, for a connection.
  unfoldable pub set_tags_regex : String → Connection → Workspace → Outcome
  set_tags_regex regex c ws =
      if syntax.is_regex regex
      then (record ws { connection = some (record c { tags_regex = regex }) }, none)
      else (ws, some invalid_tags_regex)

  -- `addConnection`.
  add_connection_to : Option Repo → Option TfeId → ConnectOptions → Workspace → Outcome
  unfolding set_tags_regex
  add_connection_to none provider opts ws = (ws, some missing_repo_path)
  add_connection_to (some repo) none opts ws = (ws, some missing_vcs_provider_id)
  add_connection_to (some repo) (some provider) opts ws =
      let c : Connection = record {
        branch = "";
        tags_regex = "";
        vcs_provider_id = provider;
        repo = repo;
        allow_cli_apply = or_kept opts.allow_cli_apply false;
      } in
      let bare = record ws { connection = some c } in
      and_then
        (elim opts.tags_regex [ none ↦ (bare, none) | some regex ↦ set_tags_regex regex c bare ])
        (λ w. (set_branch opts.branch w, none))

  unfoldable pub add_connection : ConnectOptions → Workspace → Outcome
  unfolding add_connection_to
  add_connection opts ws = add_connection_to opts.repo_path opts.vcs_provider_id opts ws
