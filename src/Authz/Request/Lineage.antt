-- ===== src/Authz/Request/Lineage.antt =====
-- The lineage of a request: the loop ends, and the policy that goes with a workspace.
use otf.Prelude.{
  ℕ, zero, suc, ◌<◌, ◌≡◌, ◌≢◌, inl, inr, some, arith, Result, ok, err, Option-cases, Result-cases,
  is_some,
}
use otf.Resource.{Kind, ResourceId, kind_of, site}
use otf.Authz.Request.{
  Request, RequestError, endless_lineage, Resolvers, PolicyGetter, resolve_lineage,
  generate_request, workspace,
}

-- Every resolver leads to a kind of a lower rank, and none says itself that it is endless.
abbrev pub Descends : (Kind → ℕ) → Resolvers → Type 0
Descends rank resolvers =
    (k : Kind) (f : ResourceId → Result RequestError ResourceId) (id : ResourceId)
    → resolvers k ≡ some f
    → (f id ≢ err endless_lineage) × ((p : ResourceId) → f id ≡ ok p → rank (kind_of p) < rank k)

-- If the parents of each kind have a lower rank, and no resolver itself reports an endless
-- lineage, the loop over the lineage ends before fuel above the rank of the resource runs out.
pub resolve_lineage-ends :
    (rank : Kind → ℕ) (resolvers : Resolvers)
    → Descends rank resolvers
    → (fuel : ℕ) (id : ResourceId) → rank (kind_of id) < fuel
    → resolve_lineage fuel resolvers id ≢ err endless_lineage
unfolding resolve_lineage
resolve_lineage-ends rank resolvers d zero id h = absurd (omega arith)
resolve_lineage-ends rank resolvers d (suc fuel) id h =
    elim (Option-cases (resolvers (kind_of id))) [
      | inl e ↦ λ q. ground arith
      | inr (f, e) ↦ elim (Result-cases (f id)) [
        | inl (p, k) ↦
            let low = (d (kind_of id) f id e).1 p k in
            λ q. ground (arith, resolve_lineage-ends rank resolvers d fuel p (omega arith))
        | inr (x, k) ↦ λ q. ground (arith, (d (kind_of id) f id e).0)
      ]
    ]

-- A request that is made for a resource other than the site holds the resource and its ancestors
-- as they were resolved, and it holds a policy exactly when the resource is a workspace or lies in
-- one.
pub generate_request-policy_iff :
    (fuel : ℕ) (resolvers : Resolvers) (getter : PolicyGetter) (id : ResourceId) (req : Request)
    → id ≢ site
    → generate_request fuel resolvers getter id ≡ ok req
    → (resolve_lineage fuel resolvers id ≡ ok req.lineage)
      × (req.id ≡ id)
      × (is_some req.workspace_policy ≡ is_some (workspace req))
unfolding generate_request workspace
generate_request-policy_iff fuel resolvers getter id req n h = ground arith
