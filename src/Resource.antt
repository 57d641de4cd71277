-- ===== src/Resource.antt =====
-- internal/resource: the kinds of resources, the actions on them, and their identifiers.
pub mod Page
pub mod Parse
use Prim.Native.String.{◌++◌}
use otf.Prelude.{String, String-discrete}

-- kind.go. The constants, without the kinds that a malformed identifier could spell.
pub data Kind : Type 0 where
  site_kind organization_kind workspace_kind run_kind config_version_kind : Kind
  ingress_attributes_kind job_kind chunk_kind user_kind team_kind module_kind : Kind
  module_version_kind notification_configuration_kind agent_pool_kind runner_kind : Kind
  state_version_kind state_version_output_kind variable_set_kind variable_kind : Kind
  vcs_provider_kind organization_token_kind user_token_kind team_token_kind : Kind
  agent_token_kind ssh_key_kind private_key_kind run_trigger_kind github_app_kind : Kind
  plan_file_kind tag_kind entitlement_kind lock_file_kind : Kind

-- action.go.
pub data Action : Type 0 where
  get list create new edit update delete watch upload download apply cancel : Action
  force_cancel discard retry lock force_unlock unlock add remove set_permission : Action
  unset_permission enqueue_plan rollback tail : Action

-- tfe_id.go.
pub record TfeId : Type 0 where
  pub kind : Kind
  pub id : String

unfoldable pub Kind-discrete : Discrete Kind
Kind-discrete = hlevel

unfoldable pub TfeId-discrete : Discrete TfeId
TfeId-discrete = hlevel String-discrete

unfoldable pub Action-discrete : Discrete Action
Action-discrete = hlevel

-- The text of a kind.
abbrev pub kind_string : Kind → String
kind_string site_kind = "site"
kind_string organization_kind = "org"
kind_string workspace_kind = "ws"
kind_string run_kind = "run"
kind_string config_version_kind = "cv"
kind_string ingress_attributes_kind = "ia"
kind_string job_kind = "job"
kind_string chunk_kind = "chunk"
kind_string user_kind = "user"
kind_string team_kind = "team"
kind_string module_kind = "mod"
kind_string module_version_kind = "modver"
kind_string notification_configuration_kind = "nc"
kind_string agent_pool_kind = "apool"
kind_string runner_kind = "runner"
kind_string state_version_kind = "sv"
kind_string state_version_output_kind = "wsout"
kind_string variable_set_kind = "varset"
kind_string variable_kind = "var"
kind_string vcs_provider_kind = "vcs"
kind_string organization_token_kind = "ot"
kind_string user_token_kind = "ut"
kind_string team_token_kind = "tt"
kind_string agent_token_kind = "at"
kind_string ssh_key_kind = "sshkey"
kind_string private_key_kind = "privkey"
kind_string run_trigger_kind = "rt"
kind_string github_app_kind = "ghapp"
kind_string plan_file_kind = "pf"
kind_string tag_kind = "tag"
kind_string entitlement_kind = "ent"
kind_string lock_file_kind = "lock"

-- The values of the interface `ID`: a TFE identifier, an organization's name, a user's name, and
-- the site.
pub data ResourceId : Type 0 where
  tfe : TfeId → ResourceId
  organization_name : String → ResourceId
  username : String → ResourceId
  site : ResourceId

-- `ID.Kind`.
abbrev pub kind_of : ResourceId → Kind
kind_of (tfe i) = i.kind
kind_of (organization_name n) = organization_kind
kind_of (username u) = user_kind
kind_of site = site_kind

-- `ID.String`.
abbrev pub id_string : ResourceId → String
id_string (tfe i) = kind_string i.kind ++ "-" ++ i.id
id_string (organization_name n) = n
id_string (username u) = u
id_string site = "site"

-- `==` of two interface values: the same type and the same value.
unfoldable pub ResourceId-discrete : Discrete ResourceId
ResourceId-discrete = hlevel String-discrete
