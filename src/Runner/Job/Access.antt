-- ===== src/Runner/Job/Access.antt =====
-- What a job can reach beyond its own workspace.
use otf.Prelude.{
  ◌≡◌, ◌≢◌, ◌⊎◌, Bool, true, false, Option, none, some, arith, inl, inr, if◌then◌else◌, refl,
}
use otf.Resource.{
  TfeId, ResourceId, tfe, Kind, Action, get, list, download, kind_of, id_string, job_kind,
  site_kind, state_version_kind, create,
}
use otf.Run.Phase.{apply_phase}
use otf.Authz.Request.{Request, organization, workspace}
use otf.Workspace.Policy.{Policy, check, shares_state}
use otf.Runner.Job.{Job, can_access, own_workspace, by_policy, organization_action}

abbrev pub only_reads : Action → Bool
only_reads get = true
only_reads list = true
only_reads download = true
only_reads _ = false

-- The ladder of `CanAccess`, passed by way of the organization or of the policy.
ladder :
    (site other organization own allowed policy : Bool)
    → own ≡ false
    → (if site
        then false
        else if other
        then false
        else if organization
        then true
        else if own
        then allowed
        else policy)
      ≡ true
    → (organization ≡ true) ⊎ (policy ≡ true)
ladder site other organization own allowed policy h e = ground arith

organization_action-only_reads :
    (kind : Kind) (action : Action)
    → organization_action kind action ≡ true
    → only_reads action ≡ true
organization_action-only_reads kind action h = ground arith

shares_state-only_reads :
    (kind : Kind) (action : Action) → shares_state kind action ≡ true → only_reads action ≡ true
shares_state-only_reads kind action h = ground arith

check_of_job :
    (p : Policy) (id : TfeId) (action : Action) (kind : Kind)
    → id.kind ≡ job_kind
    → check p (tfe id) action kind ≡ true
    → (shares_state kind action ≡ true) × (p.global_remote_state ≡ true)
unfolding check
check_of_job p id action kind k h = ground arith

own_workspace_ne :
    (w : Option ResourceId) (id : TfeId) → w ≢ some (tfe id) → own_workspace w id ≡ false
own_workspace_ne none id n = refl
own_workspace_ne (some i) id n = ground arith

-- If a job has access to a resource that is not in its own workspace, and the request holds the
-- policy of a workspace, then the action is to get, to list or to download, and either it is one
-- that a job may do in its organization or the policy shares the state and the action reads it.
pub can_access-other_workspace :
    (j : Job) (action : Action) (kind : Kind) (req : Request) (p : Policy)
    → j.id.kind ≡ job_kind
    → req.workspace_policy ≡ some (check p)
    → workspace req ≢ some (tfe j.workspace_id)
    → can_access j action kind req ≡ true
    → (only_reads action ≡ true)
      × ((organization_action kind action ≡ true)
          ⊎ ((shares_state kind action ≡ true) × (p.global_remote_state ≡ true)))
unfolding can_access
can_access-other_workspace j action kind req p k e n h =
    elim (ladder _ _ (organization_action kind action) _ _ _
      (own_workspace_ne (workspace req) j.workspace_id n) h) [
        | inl o ↦ (organization_action-only_reads kind action o, inl o)
        | inr q ↦
            let s = check_of_job p j.id action kind k (rw (e, by_policy) at q) in
            (shares_state-only_reads kind action s.0, inr s)
      ]

-- If a job has access to create a version of the state, and the request holds the policy of a
-- workspace, then the job is of the apply phase and the workspace is its own.
pub can_access-create_state :
    (j : Job) (req : Request) (p : Policy)
    → j.id.kind ≡ job_kind
    → req.workspace_policy ≡ some (check p)
    → can_access j create state_version_kind req ≡ true
    → (j.phase ≡ apply_phase) × (workspace req ≡ some (tfe j.workspace_id))
unfolding can_access check
can_access-create_state j req p k e h = ground arith

-- If a job has access to a resource that lies in an organization, the organization is the job's
-- own and the resource is not the site.
pub can_access-organization :
    (j : Job) (action : Action) (kind : Kind) (req : Request) (o : ResourceId)
    → organization req ≡ some o
    → can_access j action kind req ≡ true
    → (id_string o ≡ j.organization) × (kind_of req.id ≢ site_kind)
unfolding can_access
can_access-organization j action kind req o e h = ground arith
