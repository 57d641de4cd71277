-- ===== src/Team.antt =====
-- internal/team/team.go: teams and what their members may do in the organization of the team.
pub mod Grants
use otf.Prelude.{
  Bool, true, false, ◌&&◌, ◌||◌, String, String-discrete, Option, none, some, Result, ok, err,
  if◌then◌else◌, test, or_keep,
}
use otf.Resource.{
  TfeId, ResourceId, Kind, Action, tfe, site, organization_name, kind_of, ResourceId-discrete,
  Kind-discrete, team_kind,
}
use otf.Time.{Time}
use otf.Authz.Request.{Request, WorkspacePolicy, organization, is_outside}
use otf.Authz.Role.{
  is_allowed, organization_min_permissions, workspace_manager_role, vcs_manager_role,
  registry_manager_role,
}

pub record Team : Type 0 where
  pub id : TfeId
  pub name : String
  pub created_at : Time
  pub manage_workspaces : Bool
  pub manage_vcs : Bool
  pub manage_modules : Bool
  pub organization : String
  pub sso_team_id : Option String
  pub visibility : String
  pub manage_policies : Bool
  pub manage_policy_overrides : Bool
  pub manage_providers : Bool

pub record OrganizationAccessOptions : Type 0 where
  pub manage_workspaces : Option Bool
  pub manage_vcs : Option Bool
  pub manage_modules : Option Bool
  pub manage_providers : Option Bool
  pub manage_policies : Option Bool
  pub manage_policy_overrides : Option Bool

-- `CreateTeamOptions` and `UpdateTeamOptions`, which have the same fields.
pub record TeamOptions : Type 0 where
  pub name : Option String
  pub access : OrganizationAccessOptions
  pub sso_team_id : Option String
  pub visibility : Option String

pub data TeamError : Type 0 where
  missing_name : TeamError

abbrev team_named : TfeId → Time → String → TeamOptions → String → Team
team_named id now organization opts name = record {
  id = id;
  name = name;
  created_at = now;
  manage_workspaces = or_keep opts.access.manage_workspaces false;
  manage_vcs = or_keep opts.access.manage_vcs false;
  manage_modules = or_keep opts.access.manage_modules false;
  organization = organization;
  sso_team_id = opts.sso_team_id;
  visibility = or_keep opts.visibility "secret";
  manage_policies = or_keep opts.access.manage_policies false;
  manage_policy_overrides = or_keep opts.access.manage_policy_overrides false;
  manage_providers = or_keep opts.access.manage_providers false;
}

abbrev team_if_named : TfeId → Time → String → TeamOptions → Option String → Result TeamError Team
team_if_named id now organization opts none = err missing_name
team_if_named id now organization opts (some name) = ok (team_named id now organization opts name)

-- `NewTeam`.
unfoldable pub new_team : TfeId → Time → String → TeamOptions → Result TeamError Team
new_team id now organization opts = team_if_named id now organization opts opts.name

-- `IsOwners` and `IsOwner`.
abbrev pub is_owners : Team → Bool
is_owners t = test (String-discrete t.name "owners")

abbrev pub is_owner : Team → ResourceId → Bool
is_owner t org = test (ResourceId-discrete (organization_name t.organization) org) && is_owners t

abbrev by_policy : Option WorkspacePolicy → TfeId → Action → Kind → Bool
by_policy none id action kind = false
by_policy (some check) id action kind = check (tfe id) action kind

-- The roles that the permissions of the team stand for.
abbrev pub by_roles : Team → Action → Kind → Bool
by_roles t action kind =
    is_allowed organization_min_permissions action kind
    || (t.manage_workspaces && is_allowed workspace_manager_role action kind)
    || (t.manage_vcs && is_allowed vcs_manager_role action kind)
    || (t.manage_modules && is_allowed registry_manager_role action kind)

-- The access of a team to itself, and to a workspace by its policy.
abbrev pub by_membership : Team → Action → Kind → Request → Bool
by_membership t action kind req =
    if test (Kind-discrete (kind_of req.id) team_kind)
    then test (ResourceId-discrete (tfe t.id) req.id)
    else by_policy req.workspace_policy t.id action kind

-- `CanAccess`.
unfoldable pub can_access : Team → Action → Kind → Request → Bool
can_access t action kind req =
    if test (ResourceId-discrete req.id site)
    then false
    else if is_outside (organization req) t.organization
    then false
    else if is_owners t || by_roles t action kind
    then true
    else by_membership t action kind req

abbrev or_keep_some : Option String → Option String → Option String
or_keep_some none old = old
or_keep_some (some new) old = some new

-- `Update`.
unfoldable pub update : TeamOptions → Team → Team
update opts t = record t {
  name = or_keep opts.name t.name;
  sso_team_id = or_keep_some opts.sso_team_id t.sso_team_id;
  visibility = or_keep opts.visibility t.visibility;
  manage_workspaces = or_keep opts.access.manage_workspaces t.manage_workspaces;
  manage_vcs = or_keep opts.access.manage_vcs t.manage_vcs;
  manage_modules = or_keep opts.access.manage_modules t.manage_modules;
  manage_providers = or_keep opts.access.manage_providers t.manage_providers;
  manage_policies = or_keep opts.access.manage_policies t.manage_policies;
  manage_policy_overrides = or_keep opts.access.manage_policy_overrides t.manage_policy_overrides;
}
