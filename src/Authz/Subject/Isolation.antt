-- ===== src/Authz/Subject/Isolation.antt =====
-- internal/authz: subjects of one organization and the resources of another.
use otf.Prelude.{
  ◌≡◌, ◌≢◌, ◌⊎◌, refl, ◌∙◌, sym, ap, true, false, not, Option, none, some, List, [], ◌∷◌, String,
  String-discrete, Result, ok, inl, inr, arith, All, any, test, test_no, test_yes, ite, Bool-cases,
  Result-cases, is_some,
}
use otf.Resource.{
  ResourceId, Kind, Action, organization_name, site, ResourceId-discrete, id_string,
  organization_kind, kind_of,
}
use otf.Authz.Request.{
  Request, organization, is_outside, first_of_kind, resolve_lineage, generate_request, RequestError,
}
use otf.Authz.Request.Lineage.{generate_request-policy_iff}
use otf.Authz.Subject.{
  Subject, superuser, manager, user_subject, team_subject, token_subject, job_subject,
  runner_subject, subject_can_access, Authorizer, Context, authorize,
}
use otf.Team
use otf.Team.{Team}
use otf.User
use otf.User.{User, is_site_admin, any_user, any_owner}
use otf.Organization.{token_can_access}
use otf.Runner.Job
use otf.Runner.Meta
use otf.Runner.Meta.{RunnerMeta, Pool}

abbrev pub InOther : String → Option Pool → Type 0
InOther org none = ⊥
InOther org (some pool) = pool.organization ≢ org

-- A subject of other organizations only: no superuser, no runner of the server itself.
abbrev pub IsForeign : String → Subject → Type 0
IsForeign org superuser = ⊥
IsForeign org manager = ⊥
IsForeign org (user_subject u) = (is_site_admin u ≡ false) × All (λ t. t.organization ≢ org) u.teams
IsForeign org (team_subject t) = t.organization ≢ org
IsForeign org (token_subject t) = t.organization ≢ org
IsForeign org (job_subject j) = j.organization ≢ org
IsForeign org (runner_subject m) = InOther org m.agent_pool

outside :
    (req : Request) (org other : String)
    → organization req ≡ some (organization_name org)
    → other ≢ org
    → is_outside (organization req) other ≡ true
outside req org other h n = rw h (ap not (test_no (String-discrete org other) (λ e. n (sym e))))

team-foreign :
    (t : Team) (action : Action) (kind : Kind) (req : Request) (org : String)
    → organization req ≡ some (organization_name org)
    → t.organization ≢ org
    → Team.can_access t action kind req ≡ false
unfolding Team.can_access
team-foreign t action kind req org h n =
    elim (Bool-cases (test (ResourceId-discrete req.id site))) [
      | inl s ↦ rw s refl
      | inr s ↦ rw (s, outside req org t.organization h n) refl
    ]

teams-foreign :
    (teams : List Team) (action : Action) (kind : Kind) (req : Request) (org : String)
    → organization req ≡ some (organization_name org)
    → All (λ t. t.organization ≢ org) teams
    → any (λ t. Team.can_access t action kind req) teams ≡ false
teams-foreign [] action kind req org h n = refl
teams-foreign (t ∷ ts) action kind req org h n =
    rw (team-foreign t action kind req org h n.0) (teams-foreign ts action kind req org h n.1)

agent-foreign :
    (pool : Option Pool) (at : Option ResourceId) (org : String)
    → at ≡ some (organization_name org)
    → InOther org pool
    → Meta.agent_access pool at ≡ false
agent-foreign none at org h n = absurd n
agent-foreign (some pool) at org h n = rw h (
    test_no (ResourceId-discrete (organization_name pool.organization) (organization_name org))
      (λ e. n (ap id_string e)))

subject-foreign :
    (s : Subject) (action : Action) (kind : Kind) (req : Request) (org : String)
    → organization req ≡ some (organization_name org)
    → any_user kind action ≡ false
    → any_owner kind action ≡ false
    → IsForeign org s
    → subject_can_access s action kind req ≡ false
unfolding subject_can_access User.can_access token_can_access Job.can_access Meta.can_access
subject-foreign superuser action kind req org h u o n = absurd n
subject-foreign manager action kind req org h u o n = absurd n
subject-foreign (user_subject s) action kind req org h u o n =
    elim (Bool-cases (test (ResourceId-discrete req.id site))) [
      | inl at ↦ rw (n.0, u, o, at) refl
      | inr at ↦ rw (n.0, u, o, at) (teams-foreign s.teams action kind req org h n.1)
    ]
subject-foreign (team_subject t) action kind req org h u o n =
    team-foreign t action kind req org h n
subject-foreign (token_subject t) action kind req org h u o n =
    elim (Bool-cases (test (ResourceId-discrete req.id site))) [
      | inl at ↦ rw at refl
      | inr at ↦ rw (at, outside req org t.organization h n) refl
    ]
subject-foreign (job_subject j) action kind req org h u o n =
    elim (Bool-cases (Job.is_site (kind_of req.id))) [
      | inl at ↦ rw at refl
      | inr at ↦ rw (at, outside req org j.organization h n) refl
    ]
subject-foreign (runner_subject m) action kind req org h u o n =
    elim (ResourceId-discrete req.id site)
      as (λ d. ite d false (Meta.agent_access m.agent_pool (organization req)) ≡ false) [
        | yes at ↦ refl
        | no at ↦ agent-foreign m.agent_pool (organization req) org h n
      ]

ok_injective :
    {a b : List ResourceId} → Path (Result RequestError (List ResourceId)) (ok a) (ok b) → a ≡ b
ok_injective h = ground (arith, h)

-- If authorization is not skipped and a resource other than the site is found to belong to an
-- organization, then no subject of other organizations alone (a user who is no site admin, a team,
-- a token, a job or an agent) is authorized to act on it, whatever the policy of its workspace.
-- Excepted are the actions that any user, or any owner of an organization, may carry out.
pub authorize-foreign :
    (a : Authorizer) (ctx : Context) (s : Subject) (action : Action) (kind : Kind) (id : ResourceId)
    (lineage : List ResourceId) (org : String)
    → ctx.subject ≡ some s
    → ctx.skip_authz ≡ false
    → id ≢ site
    → resolve_lineage a.fuel a.resolvers id ≡ ok lineage
    → first_of_kind organization_kind (id ∷ lineage) ≡ some (organization_name org)
    → any_user kind action ≡ false
    → any_owner kind action ≡ false
    → IsForeign org s
    → is_some (authorize a ctx action kind (some id)).1 ≡ true
unfolding authorize organization
authorize-foreign a ctx s action kind id lineage org c k n r f u o foreign =
    elim (Result-cases (generate_request a.fuel a.resolvers a.getter id)) [
      | inr (e, g) ↦ rw (c, k, g) refl
      | inl (req, g) ↦
          let (l, same, p) = generate_request-policy_iff a.fuel a.resolvers a.getter id req n g in
          let lines : req.lineage ≡ lineage = ok_injective (sym l ∙ r) in
          let at : organization req ≡ some (organization_name org) =
            ap (λ q. first_of_kind organization_kind (q ∷ req.lineage)) same
            ∙ ap (λ q. first_of_kind organization_kind (id ∷ q)) lines
            ∙ f in
          rw (c, k, g, subject-foreign s action kind req org at u o foreign) refl
    ]

-- The teams of a user that own an organization.
abbrev pub Owns : String → List Team → Type 0
Owns org [] = ⊥
Owns org (t ∷ ts) = ((Team.is_owners t ≡ true) × (t.organization ≡ org)) ⊎ Owns org ts

inside :
    (req : Request) (org other : String)
    → organization req ≡ some (organization_name org)
    → other ≡ org
    → is_outside (organization req) other ≡ false
inside req org other h e = rw h (ap not (test_yes (String-discrete org other) (sym e)))

teams-owner :
    (teams : List Team) (action : Action) (kind : Kind) (req : Request) (org : String)
    → test (ResourceId-discrete req.id site) ≡ false
    → organization req ≡ some (organization_name org)
    → Owns org teams
    → any (λ t. Team.can_access t action kind req) teams ≡ true
unfolding Team.can_access
teams-owner [] action kind req org s h o = absurd o
teams-owner (t ∷ ts) action kind req org s h (inl (own, e)) =
    rw (s, inside req org t.organization h e, own) refl
teams-owner (t ∷ ts) action kind req org s h (inr later) =
    elim (Bool-cases (Team.can_access t action kind req)) [
      | inl yes_first ↦ rw yes_first refl
      | inr no_first ↦ rw no_first (teams-owner ts action kind req org s h later)
    ]

user-owner :
    (u : User) (action : Action) (kind : Kind) (req : Request) (org : String)
    → test (ResourceId-discrete req.id site) ≡ false
    → organization req ≡ some (organization_name org)
    → Owns org u.teams
    → User.can_access u action kind req ≡ true
unfolding User.can_access
user-owner u action kind req org s h o =
    let all = teams-owner u.teams action kind req org s h o in ground (arith, all, s)

-- If a resource other than the site is found to belong to an organization, and the policy of its
-- workspace, where it has one, can be had, then a user in the owners team of that organization is
-- authorized to carry out every action on it.
pub authorize-owner :
    (a : Authorizer) (ctx : Context) (u : User) (action : Action) (kind : Kind) (id : ResourceId)
    (req : Request) (org : String)
    → ctx.subject ≡ some (user_subject u)
    → id ≢ site
    → generate_request a.fuel a.resolvers a.getter id ≡ ok req
    → organization req ≡ some (organization_name org)
    → Owns org u.teams
    → authorize a ctx action kind (some id) ≡ (some (user_subject u), none)
unfolding authorize subject_can_access
authorize-owner a ctx u action kind id req org c n g at o =
    let (l, same, p) = generate_request-policy_iff a.fuel a.resolvers a.getter id req n g in
    let away = test_no (ResourceId-discrete req.id site) (λ e. n (sym same ∙ e)) in
    let allowed = user-owner u action kind req org away at o in
    elim (Bool-cases ctx.skip_authz) [ inl k ↦ rw (c, k) refl | inr k ↦ rw (c, k, g, allowed) refl ]
