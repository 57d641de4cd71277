-- ===== src/Workspace/Policy.antt =====
-- internal/workspace/policy.go: what a team or a job may do with a workspace.
use otf.Prelude.{Bool, true, false, List, [], ◌∷◌, ite}
use otf.Resource.{
  TfeId, Kind, Action, ResourceId, tfe, kind_of, ResourceId-discrete, team_kind, job_kind,
  state_version_kind, workspace_kind, get, download,
}
use otf.Authz.Role.{Role, is_allowed}

pub record Permission : Type 0 where
  pub team_id : TfeId
  pub role : Role

pub record Policy : Type 0 where
  pub permissions : List Permission
  pub global_remote_state : Bool

-- The loop over the permissions.
team_check : List Permission → ResourceId → Action → Kind → Bool
team_check [] subject action kind = false
team_check (perm ∷ rest) subject action kind =
    ite (ResourceId-discrete subject (tfe perm.team_id)) (is_allowed perm.role action kind)
      (team_check rest subject action kind)

-- What a job may read of a workspace that shares its state.
abbrev pub shares_state : Kind → Action → Bool
shares_state state_version_kind download = true
shares_state state_version_kind get = true
shares_state workspace_kind get = true
shares_state _ _ = false

job_check : Bool → Action → Kind → Bool
job_check global action kind = elim (shares_state kind action) [ true ↦ global | false ↦ false ]

-- `Policy.Check`.
unfoldable pub check : Policy → ResourceId → Action → Kind → Bool
unfolding team_check job_check
check p subject action kind = elim (kind_of subject) [
  | team_kind ↦ team_check p.permissions subject action kind
  | job_kind ↦ job_check p.global_remote_state action kind
  | _ ↦ false
]
