-- ===== src/Organization.antt =====
-- internal/organization: organization.go, and token.go for what the token of an organization may
-- do. Whether a text is a valid name is an argument. An error of the execution mode is dropped by
-- `NewOrganization`, which keeps the mode that comes with it.
use otf.Prelude.{
  ℕ, Bool, true, false, not, String, Option, none, some, Result, ok, err, if◌then◌else◌, test,
  or_keep,
}
use otf.Resource.{
  TfeId, Kind, Action, site, ResourceId-discrete, run_kind, state_version_kind, chunk_kind,
  enqueue_plan, apply, cancel, force_cancel, discard, create, get, list, rollback, upload,
}
use otf.Time.{Time}
use otf.Execution
use otf.Execution.{Mode, ModeError}
use otf.Authz.Request.{Request, organization, is_outside}

pub record Organization : Type 0 where
  pub id : TfeId
  pub created_at : Time
  pub updated_at : Time
  pub name : String
  pub email : Option String
  pub collaborator_auth_policy : Option String
  pub session_remember : Option ℕ
  pub session_timeout : Option ℕ
  pub allow_force_delete_workspaces : Bool
  pub cost_estimation_enabled : Bool
  pub default_mode : Mode

-- `CreateOptions` and `UpdateOptions`, which have the same fields.
pub record OrganizationOptions : Type 0 where
  pub name : Option String
  pub email : Option String
  pub collaborator_auth_policy : Option String
  pub cost_estimation_enabled : Option Bool
  pub session_remember : Option ℕ
  pub session_timeout : Option ℕ
  pub allow_force_delete_workspaces : Option Bool
  pub default_execution_mode : Option Execution.Kind
  pub default_agent_pool_id : Option TfeId

pub data OrganizationError : Type 0 where
  required_name invalid_name : OrganizationError
  mode_failed : ModeError → OrganizationError

-- The mode, which is the zero value beside an error.
abbrev pub mode_or_zero : Mode → Result ModeError Mode → Mode
mode_or_zero zero_mode (ok m) = m
mode_or_zero zero_mode (err e) = zero_mode

abbrev pub organization_named :
    TfeId → Time → Time → Mode → OrganizationOptions → String → Organization
organization_named id now now' zero_mode opts name = record {
  id = id;
  created_at = now;
  updated_at = now';
  name = name;
  email = opts.email;
  collaborator_auth_policy = opts.collaborator_auth_policy;
  session_remember = opts.session_remember;
  session_timeout = opts.session_timeout;
  allow_force_delete_workspaces = or_keep opts.allow_force_delete_workspaces false;
  cost_estimation_enabled = or_keep opts.cost_estimation_enabled false;
  default_mode = mode_or_zero zero_mode (
      Execution.new_mode_with_defaults opts.default_execution_mode Execution.remote_kind
        opts.default_agent_pool_id none);
}

abbrev pub organization_if_named :
    (String → Bool)
    → TfeId
    → Time
    → Time
    → Mode
    → OrganizationOptions
    → Option String
    → Result OrganizationError Organization
organization_if_named valid id now now' zero_mode opts none = err required_name
organization_if_named valid id now now' zero_mode opts (some name) =
    if valid name then ok (organization_named id now now' zero_mode opts name) else err invalid_name

-- `NewOrganization`; the zero value of a mode is an argument, since its kind is the empty text.
unfoldable pub new_organization :
    (valid : String → Bool)
    → TfeId
    → Time
    → Time
    → (zero_mode : Mode) → OrganizationOptions
    → Result OrganizationError Organization
new_organization valid id now now' zero_mode opts =
    organization_if_named valid id now now' zero_mode opts opts.name

abbrev or_keep_some : {A : Type 0} → Option A → Option A → Option A
or_keep_some none old = old
or_keep_some (some new) old = some new

abbrev with_mode :
    Time → Organization → Mode × Option ModeError → Organization × Option OrganizationError
with_mode now org (mode, none) = (record org { default_mode = mode; updated_at = now }, none)
with_mode now org (mode, some e) = (record org { default_mode = mode }, some (mode_failed e))

abbrev update_settings :
    Time → OrganizationOptions → Organization → Organization × Option OrganizationError
update_settings now opts org =
    with_mode now
      (record org {
        email = or_keep_some opts.email org.email;
        collaborator_auth_policy =
            or_keep_some opts.collaborator_auth_policy org.collaborator_auth_policy;
        cost_estimation_enabled = or_keep opts.cost_estimation_enabled org.cost_estimation_enabled;
        session_timeout = or_keep_some opts.session_timeout org.session_timeout;
        session_remember = or_keep_some opts.session_remember org.session_remember;
        allow_force_delete_workspaces =
            or_keep opts.allow_force_delete_workspaces org.allow_force_delete_workspaces;
      })
      (Execution.update org.default_mode opts.default_execution_mode opts.default_agent_pool_id)

abbrev update_named :
    (String → Bool)
    → Time
    → OrganizationOptions
    → Option String
    → Organization
    → Organization × Option OrganizationError
update_named valid now opts none org = update_settings now opts org
update_named valid now opts (some name) org =
    if valid name
    then update_settings now opts (record org { name = name })
    else (org, some invalid_name)

-- `Update`. What is written before an error stays written.
unfoldable pub update :
    (valid : String → Bool)
    → Time
    → OrganizationOptions
    → Organization
    → Organization × Option OrganizationError
update valid now opts org = update_named valid now opts opts.name org

pub record OrganizationToken : Type 0 where
  pub id : TfeId
  pub created_at : Time
  pub organization : String
  pub expiry : Option Time

-- What an organization's token may not do in its organization.
abbrev pub is_refused : Kind → Action → Bool
is_refused run_kind enqueue_plan = true
is_refused run_kind apply = true
is_refused run_kind cancel = true
is_refused run_kind force_cancel = true
is_refused run_kind discard = true
is_refused run_kind create = true
is_refused run_kind get = true
is_refused run_kind list = true
is_refused state_version_kind create = true
is_refused state_version_kind rollback = true
is_refused chunk_kind get = true
is_refused chunk_kind upload = true
is_refused _ _ = false

-- `OrganizationToken.CanAccess`.
unfoldable pub token_can_access : OrganizationToken → Action → Kind → Request → Bool
token_can_access t action kind req =
    if test (ResourceId-discrete req.id site)
    then false
    else if is_outside (organization req) t.organization
    then false
    else not (is_refused kind action)
