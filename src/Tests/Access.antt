-- ===== src/Tests/Access.antt =====
-- The theorems on roles, on requests and on the access of a job, at concrete resources.
use otf.Prelude.{ℕ, ◌≢◌, Bool, true, false, none, some, [], ◌∷◌, arith, ok, err}
use otf.Resource.{ResourceId, tfe, organization_name, Kind, Action, run_kind, workspace_kind}
use otf.Authz.Request.{Request, Resolvers, resolve_lineage, endless_lineage}
use otf.Authz.Request.Lineage.{resolve_lineage-ends}
use otf.Workspace.Policy.{Policy, check}
use otf.Tests.Samples.{run_id, workspace_id}

-- The organization and the workspace that the resolvers of the tests lead to.
abbrev acme : ResourceId
acme = organization_name "acme"

-- A run lies in a workspace, and a workspace in an organization.
abbrev parents : Resolvers
parents run_kind = some (λ id. ok (tfe (workspace_id "dev")))
parents workspace_kind = some (λ id. ok acme)
parents _ = none

abbrev rank : Kind → ℕ
rank run_kind = 2
rank workspace_kind = 1
rank _ = 0

resolve_lineage-ends_example : resolve_lineage 3 parents (tfe (run_id "1")) ≢ err endless_lineage
resolve_lineage-ends_example =
    resolve_lineage-ends rank parents (λ k f id e. (λ q. ground arith, λ p q. ground arith)) 3
      (tfe (run_id "1")) (omega arith)

abbrev none_allowed : ResourceId → Action → Kind → Bool
none_allowed subject action kind = false

abbrev run_request : Request
run_request = record {
  id = tfe (run_id "1");
  workspace_policy = some none_allowed;
  lineage = tfe (workspace_id "dev") ∷ acme ∷ [];
}

abbrev sharing : Policy
sharing = record { permissions = []; global_remote_state = true }

abbrev request_on : ResourceId → Request
request_on id = record { id = id; workspace_policy = some (check sharing); lineage = acme ∷ [] }
