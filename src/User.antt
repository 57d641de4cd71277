-- ===== src/User.antt =====
-- internal/user/user.go and site_admin.go: users, whose access comes from their teams.
pub mod Members
use otf.Prelude.{
  Bool, true, false, ◌&&◌, ◌||◌, String, Option, none, some, List, [], ◌∷◌, Result, ok, err,
  if◌then◌else◌, test, any, map,
}
use otf.Resource.{
  TfeId, TfeId-discrete, ResourceId, Kind, Action, site, ResourceId-discrete, user_kind,
  organization_kind, github_app_kind, create, get, list,
}
use otf.Time.{Time}
use otf.Authz.Request.{Request}
use otf.Team
use otf.Team.{Team}

pub record User : Type 0 where
  pub id : TfeId
  pub created_at : Time
  pub updated_at : Time
  pub site_admin : Bool
  pub username : String
  pub teams : List Team
  pub avatar_url : Option String

abbrev pub site_admin_id : TfeId
site_admin_id = record { kind = user_kind; id = "36atQC2oGQng7pVz" }

-- `IsSiteAdmin`.
abbrev pub is_site_admin : User → Bool
is_site_admin u = u.site_admin || test (TfeId-discrete u.id site_admin_id)

-- `IsTeamMember` and `IsOwner`.
unfoldable pub is_team_member : User → TfeId → Bool
is_team_member u id = any (λ t. test (TfeId-discrete t.id id)) u.teams

unfoldable pub is_owner : User → ResourceId → Bool
is_owner u org = any (λ t. Team.is_owner t org) u.teams

-- What any user may do, and what an owner of some organization may do.
abbrev pub any_user : Kind → Action → Bool
any_user organization_kind create = true
any_user user_kind get = true
any_user github_app_kind get = true
any_user _ _ = false

abbrev pub any_owner : Kind → Action → Bool
any_owner user_kind create = true
any_owner user_kind list = true
any_owner _ _ = false

-- `CanAccess`.
unfoldable pub can_access : User → Action → Kind → Request → Bool
can_access u action kind req =
    if is_site_admin u
    then true
    else if any_user kind action
    then true
    else if any_owner kind action && any Team.is_owners u.teams
    then true
    else if test (ResourceId-discrete req.id site)
    then false
    else any (λ t. Team.can_access t action kind req) u.teams
