-- ===== src/Tests/Users.antt =====
-- The theorems on teams, users and authorization, at concrete subjects.
use otf.Prelude.{
  ◌≡◌, refl, ap, inl, true, false, none, some, List, [], ◌∷◌, String, String-discrete, ok, arith,
  Option, lookup, is_some, refute,
}
use otf.Resource.{
  TfeId, TfeId-discrete, ResourceId-discrete, tfe, organization_name, Kind-discrete, run_kind,
  workspace_kind, team_kind, user_kind, apply,
}
use otf.Authz.Request.{
  Request, Resolvers, resolve_lineage, generate_request, workspace, organization, first_of_kind,
}
use otf.Authz.Subject.{Authorizer, Context, user_subject, authorize}
use otf.Authz.Subject.Isolation.{authorize-foreign, authorize-owner}
use otf.Team.{Team, TeamOptions, OrganizationAccessOptions}
use otf.User.{User}
use otf.User.Members.{MemberTables}
use otf.User.Members.Owners.{HasOwners}
use otf.User.Members.Owners.Sequence.{
  Event, creates, updates, adds, removes, call_all, call_all-HasOwners,
}
use otf.Tests.Samples.{run_id, workspace_id}

abbrev team_id : String → TfeId
team_id s = record { kind = team_kind; id = s }

abbrev team_of : String → String → Team
team_of name org = record {
  id = team_id name;
  name = name;
  created_at = 0;
  manage_workspaces = false;
  manage_vcs = false;
  manage_modules = true;
  organization = org;
  sso_team_id = none;
  visibility = "secret";
  manage_policies = false;
  manage_policy_overrides = false;
  manage_providers = false;
}

abbrev ann : User
ann = record {
  id = record { kind = user_kind; id = "ann" };
  created_at = 0;
  updated_at = 0;
  site_admin = false;
  username = "ann";
  teams = team_of "owners" "acme" ∷ team_of "dev" "acme" ∷ [];
  avatar_url = none;
}

-- The runs whose identifier is "1" lie in the organization acme, the others in globex.
abbrev parents : Resolvers
parents run_kind = some (λ id. ok (tfe (workspace_id "dev")))
parents workspace_kind = some (λ id. ok (organization_name "acme"))
parents _ = none

abbrev abroad : Resolvers
abroad run_kind = some (λ id. ok (organization_name "globex"))
abroad _ = none

abbrev at_home : Authorizer
at_home = record { fuel = 3; resolvers = parents; getter = λ w. ok (λ subject action kind. false) }

abbrev away : Authorizer
away = record at_home { resolvers = abroad }

abbrev as_ann : Context
as_ann = record { subject = some (user_subject ann); skip_authz = false }

authorize-foreign_example :
    is_some (authorize away as_ann apply run_kind (some (tfe (run_id "1")))).1 ≡ true
unfolding resolve_lineage first_of_kind Kind-discrete TfeId-discrete String-discrete
authorize-foreign_example =
    authorize-foreign away as_ann (user_subject ann) apply run_kind (tfe (run_id "1"))
      (organization_name "globex" ∷ []) "globex" refl refl (λ p. ground arith) refl refl refl refl
      (
        refl,
        (
          refute (String-discrete "acme" "globex") refl,
          (refute (String-discrete "acme" "globex") refl, tt),
        ),
      )

abbrev run_request : Request
run_request = record {
  id = tfe (run_id "1");
  workspace_policy = some (λ subject action kind. false);
  lineage = tfe (workspace_id "dev") ∷ organization_name "acme" ∷ [];
}

authorize-owner_example :
    authorize at_home as_ann apply run_kind (some (tfe (run_id "1")))
    ≡ (some (user_subject ann), none)
unfolding generate_request resolve_lineage ResourceId-discrete workspace organization Kind-discrete
    String-discrete
authorize-owner_example =
    authorize-owner at_home as_ann ann apply run_kind (tfe (run_id "1")) run_request "acme" refl
      (λ p. ground arith) refl refl (inl (refl, refl))

abbrev no_access : OrganizationAccessOptions
no_access = record {
  manage_workspaces = none;
  manage_vcs = none;
  manage_modules = none;
  manage_providers = none;
  manage_policies = none;
  manage_policy_overrides = none;
}

abbrev options_of : Option String → TeamOptions
options_of name = record { name = name; access = no_access; sso_team_id = none; visibility = none }

abbrev granting : TeamOptions
granting = record (options_of none) { access = record no_access { manage_workspaces = some true } }

-- An owners team with one member, who cannot be removed before another is added.
abbrev acme_tables : MemberTables
acme_tables = record {
  teams = (team_id "owners", team_of "owners" "acme") ∷ [];
  users = "ann" ∷ "bob" ∷ [];
  memberships = (team_id "owners", "ann") ∷ [];
}

abbrev some_calls : List Event
some_calls =
    removes (team_id "owners") ("ann" ∷ [])
    ∷ adds (team_id "owners") ("bob" ∷ [])
    ∷ removes (team_id "owners") ("ann" ∷ [])
    ∷ updates (team_id "owners") (options_of none)
    ∷ creates (some "eve") (team_id "new") 5 "globex" (options_of (some "owners"))
    ∷ []

the_team :
    (id : TfeId) (team : Team)
    → lookup TfeId-discrete id acme_tables.teams ≡ some team
    → id ≡ team_id "owners"
unfolding lookup
the_team id team found = elim (TfeId-discrete id (team_id "owners")) [
  | yes e ↦ e
  | no n ↦ absurd (ground (arith, found, n))
]

acme-HasOwners : HasOwners acme_tables
unfolding String-discrete
acme-HasOwners = (
  (refl, (refl, tt)),
  λ id team found own. ("ann", inl refl, inl (ap (λ i. (i, "ann")) (the_team id team found))),
)

call_all-HasOwners_example : HasOwners (call_all some_calls acme_tables)
call_all-HasOwners_example =
    call_all-HasOwners some_calls acme_tables ((λ e. ground arith), tt) acme-HasOwners
