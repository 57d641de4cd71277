-- ===== src/Authz/Subject.antt =====
-- internal/authz/authorizer.go, subject.go and superuser.go: whether the subject of a context may
-- carry out an action. The subjects are those whose types implement the interface `Subject`; an
-- agent that has not registered yet is none, since its methods are never called.
pub mod Isolation
use otf.Prelude.{
  ℕ, Bool, true, false, not, Option, none, some, Result, ok, err, if◌then◌else◌, is_some,
}
use otf.Resource.{ResourceId, Kind, Action}
use otf.Authz.Request.{Request, RequestError, Resolvers, PolicyGetter, generate_request}
use otf.Team
use otf.Team.{Team}
use otf.User
use otf.User.{User}
use otf.Organization.{OrganizationToken, token_can_access}
use otf.Runner.Job
use otf.Runner.Job.{Job}
use otf.Runner.Meta
use otf.Runner.Meta.{RunnerMeta}

pub data Subject : Type 0 where
  superuser manager : Subject
  user_subject : User → Subject
  team_subject : Team → Subject
  token_subject : OrganizationToken → Subject
  job_subject : Job → Subject
  runner_subject : RunnerMeta → Subject

-- `Subject.CanAccess`.
unfoldable pub subject_can_access : Subject → Action → Kind → Request → Bool
subject_can_access superuser action kind req = true
subject_can_access manager action kind req = true
subject_can_access (user_subject u) action kind req = User.can_access u action kind req
subject_can_access (team_subject t) action kind req = Team.can_access t action kind req
subject_can_access (token_subject t) action kind req = token_can_access t action kind req
subject_can_access (job_subject j) action kind req = Job.can_access j action kind req
subject_can_access (runner_subject m) action kind req = Meta.can_access m req

pub data AuthorizeError : Type 0 where
  nil_resource no_subject access_not_permitted : AuthorizeError
  request_failed : RequestError → AuthorizeError

-- What the authorizer is made with.
pub record Authorizer : Type 0 where
  pub fuel : ℕ
  pub resolvers : Resolvers
  pub getter : PolicyGetter

-- What a context holds: the subject, and the instruction to skip authorization.
pub record Context : Type 0 where
  pub subject : Option Subject
  pub skip_authz : Bool

abbrev pub decide_request :
    Subject → Action → Kind → Result RequestError Request → Option Subject × Option AuthorizeError
decide_request s action kind (err e) = (some s, some (request_failed e))
decide_request s action kind (ok req) =
    if subject_can_access s action kind req
    then (some s, none)
    else (some s, some access_not_permitted)

abbrev pub authorize_subject :
    Authorizer
    → Context
    → Option Subject
    → Action
    → Kind
    → ResourceId
    → Option Subject × Option AuthorizeError
authorize_subject a ctx none action kind id = (none, some no_subject)
authorize_subject a ctx (some s) action kind id =
    if ctx.skip_authz
    then (some s, none)
    else decide_request s action kind (generate_request a.fuel a.resolvers a.getter id)

-- `Authorize`; the subject comes back with an error too.
unfoldable pub authorize :
    Authorizer
    → Context
    → Action
    → Kind
    → Option ResourceId
    → Option Subject × Option AuthorizeError
authorize a ctx action kind none = (none, some nil_resource)
authorize a ctx action kind (some id) = authorize_subject a ctx ctx.subject action kind id

-- `Authorizer.CanAccess`.
unfoldable pub can_access : Authorizer → Context → Action → Kind → Option ResourceId → Bool
unfolding authorize
can_access a ctx action kind id = not (is_some (authorize a ctx action kind id).1)
