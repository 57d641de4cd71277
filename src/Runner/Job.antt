-- ===== src/Runner/Job.antt =====
-- internal/runner/job.go: a job, its state machine, and what it may have access to.
pub mod States
pub mod Access
use otf.Prelude.{
  Bool, true, false, not, ◌&&◌, ◌||◌, Option, none, some, ite, if◌then◌else◌, test, String,
  String-discrete, List, [], ◌∷◌,
}
use otf.Resource.{
  TfeId, ResourceId, tfe, kind_of, id_string, ResourceId-discrete, Kind, Action, site_kind,
  organization_kind, entitlement_kind, module_kind, private_key_kind, state_version_kind,
  workspace_kind, run_kind, variable_set_kind, variable_kind, chunk_kind, config_version_kind,
  plan_file_kind, lock_file_kind, get, list, download, create, apply, cancel, upload,
}
use otf.Time.{Time}
use otf.Run.Phase.{PhaseType, plan_phase, apply_phase}
use otf.Run.Types.{Run}
use otf.Run.Lifecycle.{current_phase}
use otf.Authz.Request.{Request, organization, workspace, WorkspacePolicy, is_outside}
use otf.Run.Status

pub data JobStatus : Type 0 where
  unallocated allocated running finished errored canceled : JobStatus

pub record Job : Type 0 where
  pub id : TfeId
  pub run_id : TfeId
  pub phase : PhaseType
  pub status : JobStatus
  pub agent_pool_id : Option TfeId
  pub organization : String
  pub workspace_id : TfeId
  pub runner_id : Option TfeId

pub data JobError : Type 0 where
  invalid_job_state_transition only_allocated_can_be_reallocated : JobError

-- `newJob`. The identifier, which is drawn at random, is an argument.
unfoldable pub new_job : TfeId → Run → Job
new_job id run = record {
  id = id;
  run_id = run.id;
  phase = current_phase run;
  status = unallocated;
  agent_pool_id = none;
  organization = run.organization;
  workspace_id = run.workspace_id;
  runner_id = none;
}

-- The switch of `updateStatus`.
abbrev pub is_valid : JobStatus → JobStatus → Bool
is_valid unallocated allocated = true
is_valid unallocated canceled = true
is_valid allocated running = true
is_valid allocated canceled = true
is_valid running finished = true
is_valid running canceled = true
is_valid running errored = true
is_valid _ _ = false

-- `Job.updateStatus`.
unfoldable pub update_status : JobStatus → Job → Job × Option JobError
update_status to j =
    if is_valid j.status to
    then (record j { status = to }, none)
    else (j, some invalid_job_state_transition)

-- `allocate`.
unfoldable pub allocate : TfeId → Job → Job × Option JobError
unfolding update_status
allocate runner j = elim ((update_status allocated j).1) [
  | none ↦ (record (update_status allocated j).0 { runner_id = some runner }, none)
  | some e ↦ (j, some e)
]

abbrev pub is_allocated : JobStatus → Bool
is_allocated allocated = true
is_allocated _ = false

-- `reallocate`.
unfoldable pub reallocate : TfeId → Job → Job × Option JobError
reallocate runner j =
    if is_allocated j.status
    then (record j { runner_id = some runner }, none)
    else (j, some only_allocated_can_be_reallocated)

-- `startJob` and `finishJob`.
abbrev pub start_job : Job → Job × Option JobError
start_job j = update_status running j

abbrev pub finish_job : JobStatus → Job → Job × Option JobError
finish_job to j = update_status to j

-- The results of `cancel`.
pub record Canceled : Type 0 where
  pub job : Job
  pub signal : Bool
  pub force : Bool
  pub error : Option JobError

abbrev canceled_with : Job → Bool → Bool → Option JobError → Canceled
canceled_with j s f e = record { job = j; signal = s; force = f; error = e }

cancel_in_progress : Option Time → Job → Canceled
cancel_in_progress none j = canceled_with j false false none
cancel_in_progress (some t) j = canceled_with j true false none

cancel_updated : Bool → Job × Option JobError → Canceled
cancel_updated forced (j, some e) = canceled_with j false false (some e)
cancel_updated forced (j, none) = canceled_with j forced forced none

-- `cancel`, by the state of the run.
unfoldable pub cancel_for : Run → Job → Canceled
unfolding cancel_in_progress cancel_updated update_status
cancel_for run j = elim run.status [
  | Status.planning ↦ cancel_in_progress run.cancel_signaled_at j
  | Status.applying ↦ cancel_in_progress run.cancel_signaled_at j
  | Status.canceled ↦ cancel_updated false (update_status JobStatus.canceled j)
  | Status.force_canceled ↦ cancel_updated true (update_status JobStatus.canceled j)
  | _ ↦ canceled_with j false false none
]

-- The actions on a job's own organization.
abbrev pub organization_action : Kind → Action → Bool
organization_action organization_kind get = true
organization_action entitlement_kind get = true
organization_action module_kind get = true
organization_action module_kind list = true
organization_action private_key_kind get = true
organization_action _ _ = false

-- The actions on a job's own workspace.
abbrev pub workspace_action : Kind → Action → PhaseType → Bool
workspace_action state_version_kind get phase = true
workspace_action state_version_kind download phase = true
workspace_action state_version_kind create apply_phase = true
workspace_action workspace_kind get phase = true
workspace_action run_kind get phase = true
workspace_action run_kind cancel phase = true
workspace_action run_kind apply plan_phase = true
workspace_action variable_set_kind list phase = true
workspace_action variable_kind list phase = true
workspace_action chunk_kind upload phase = true
workspace_action config_version_kind download phase = true
workspace_action plan_file_kind get phase = true
workspace_action plan_file_kind upload plan_phase = true
workspace_action lock_file_kind upload plan_phase = true
workspace_action lock_file_kind get apply_phase = true
workspace_action _ _ _ = false

abbrev pub is_site : Kind → Bool
is_site site_kind = true
is_site _ = false

abbrev own_workspace : Option ResourceId → TfeId → Bool
own_workspace none ws = false
own_workspace (some id) ws = test (ResourceId-discrete id (tfe ws))

by_policy : Option WorkspacePolicy → TfeId → Action → Kind → Bool
by_policy none job action kind = false
by_policy (some check) job action kind = check (tfe job) action kind

-- `CanAccess`.
unfoldable pub can_access : Job → Action → Kind → Request → Bool
unfolding by_policy
can_access j action kind req =
    if is_site (kind_of req.id)
    then false
    else if is_outside (organization req) j.organization
    then false
    else if organization_action kind action
    then true
    else if own_workspace (workspace req) j.workspace_id
    then workspace_action kind action j.phase
    else by_policy req.workspace_policy j.id action kind
