-- ===== src/Authz/Request.antt =====
-- internal/authz/request.go and authorizer.go: a request for access, and its lineage. The
-- resolvers that are registered and the getter of policies are arguments.
pub mod Lineage
use otf.Prelude.{
  ℕ, zero, suc, Bool, true, false, not, test, String, String-discrete, Option, none, some, List, [],
  ◌∷◌, ite, Result, ok, err, ◌>>=◌,
}
use otf.Resource.{
  Kind, Action, ResourceId, site, kind_of, id_string, Kind-discrete, ResourceId-discrete,
  organization_kind, workspace_kind,
}

-- The interface `WorkspacePolicy`: its method `Check`.
abbrev pub WorkspacePolicy : Type 0
WorkspacePolicy = ResourceId → Action → Kind → Bool

pub record Request : Type 0 where
  pub id : ResourceId
  pub workspace_policy : Option WorkspacePolicy
  pub lineage : List ResourceId

unfoldable pub first_of_kind : Kind → List ResourceId → Option ResourceId
first_of_kind k [] = none
first_of_kind k (id ∷ rest) = ite (Kind-discrete (kind_of id) k) (some id) (first_of_kind k rest)

-- `Request.Organization`.
unfoldable pub organization : Request → Option ResourceId
unfolding first_of_kind
organization r = first_of_kind organization_kind (r.id ∷ r.lineage)

-- `Request.Workspace`.
unfoldable pub workspace : Request → Option ResourceId
unfolding first_of_kind
workspace r = first_of_kind workspace_kind (r.id ∷ r.lineage)

-- `req.Organization() != nil && req.Organization().String() != name`.
abbrev pub is_outside : Option ResourceId → String → Bool
is_outside none name = false
is_outside (some id) name = not (test (String-discrete (id_string id) name))

pub data RequestError : Type 0 where
  resolving_id fetching_workspace_policy : RequestError
  -- the fuel ran out: a chain of parents as long as that has no end
  endless_lineage : RequestError

-- `parentResolvers[kind](id)`: `none` where no resolver is registered for the kind.
abbrev pub Resolvers : Type 0
Resolvers = Kind → Option (ResourceId → Result RequestError ResourceId)

-- The loop over the parents, on fuel.
unfoldable pub resolve_lineage : ℕ → Resolvers → ResourceId → Result RequestError (List ResourceId)
resolve_lineage zero resolvers id = err endless_lineage
resolve_lineage (suc fuel) resolvers id = elim (resolvers (kind_of id)) [
  | none ↦ ok []
  | some parent ↦ elim (parent id) [
    | err e ↦ err e
    | ok p ↦ elim (resolve_lineage fuel resolvers p) [ ok l ↦ ok (p ∷ l) | err e ↦ err e ]
  ]
]

abbrev pub PolicyGetter : Type 0
PolicyGetter = ResourceId → Result RequestError WorkspacePolicy

with_policy : PolicyGetter → Request → Result RequestError Request
with_policy getter req = elim (workspace req) [
  | none ↦ ok req
  | some w ↦ elim (getter w) [
    | ok policy ↦ ok (record req { workspace_policy = some policy })
    | err e ↦ err fetching_workspace_policy
  ]
]

-- `generateRequest`.
unfoldable pub generate_request :
    ℕ → Resolvers → PolicyGetter → ResourceId → Result RequestError Request
unfolding with_policy
generate_request fuel resolvers getter id =
    let bare : Request = record { id = id; workspace_policy = none; lineage = [] } in
    let resolved = resolve_lineage fuel resolvers id in
    ite (ResourceId-discrete id site) (ok bare)
      (elim resolved [ ok l ↦ with_policy getter (record bare { lineage = l }) | err e ↦ err e ])
