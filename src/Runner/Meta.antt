-- ===== src/Runner/Meta.antt =====
-- internal/runner/meta.go, status.go and manager.go: a runner's record, its state machine, and the
-- manager that watches over it.
pub mod Watch
use otf.Prelude.{
  ℕ, ◌+◌, ◌*◌, ltb, Bool, true, false, not, ◌&&◌, Option, none, some, String, if◌then◌else◌, ite,
  test,
}
use otf.Resource.{TfeId, ResourceId, site, organization_name, ResourceId-discrete, Action, Kind}
use otf.Time.{Time, second, current_timestamp}
use otf.Authz.Request.{Request, organization}

-- `no_status` is the empty string of a record that is not filled yet.
pub data RunnerStatus : Type 0 where
  idle busy exited errored unknown no_status : RunnerStatus

pub data ExecutorKind : Type 0 where
  fork kubernetes : ExecutorKind

-- The fields of `Pool` (pool.go) that are read here.
pub record Pool : Type 0 where
  pub id : TfeId
  pub organization : String

pub record RunnerMeta : Type 0 where
  pub id : TfeId
  pub name : String
  pub version : String
  pub status : RunnerStatus
  pub max_jobs : ℕ
  pub current_jobs : ℕ
  pub last_ping_at : Time
  pub last_status_at : Time
  pub executor_kind : ExecutorKind
  pub agent_pool : Option Pool

-- `internal.ErrConflict`.
pub data RunnerError : Type 0 where
  conflict : RunnerError

abbrev pub is_final : RunnerStatus → Bool
is_final errored = true
is_final exited = true
is_final _ = false

abbrev ping_time : Bool → Time → RunnerMeta → Time
ping_time true now m = now
ping_time false now m = m.last_ping_at

-- `setStatus`.
unfoldable pub set_status :
    RunnerStatus → Bool → Time → RunnerMeta → RunnerMeta × Option RunnerError
set_status status ping reading m =
    let now = current_timestamp none reading in
    if is_final m.status then (m, some conflict) else (
      record m { status = status; last_status_at = now; last_ping_at = ping_time ping now m },
      none,
    )

-- `register`, without the address of the runner.
unfoldable pub register :
    TfeId
    → Option Pool
    → (name version : String) → ℕ
    → ExecutorKind
    → Time
    → RunnerMeta × Option RunnerError
unfolding set_status
register id pool name version concurrency executor reading = set_status idle true reading (record {
  id = id;
  name = name;
  version = version;
  status = no_status;
  max_jobs = concurrency;
  current_jobs = 0;
  last_ping_at = 0;
  last_status_at = 0;
  executor_kind = executor;
  agent_pool = pool;
})

-- `IsAgent`.
abbrev pub is_agent : RunnerMeta → Bool
is_agent m = elim m.agent_pool [ none ↦ false | some p ↦ true ]

abbrev pub agent_access : Option Pool → Option ResourceId → Bool
agent_access none org = true
agent_access (some pool) none = false
agent_access (some pool) (some id) =
    test (ResourceId-discrete (organization_name pool.organization) id)

-- `RunnerMeta.CanAccess`, which reads neither the action nor the kind.
unfoldable pub can_access : RunnerMeta → Request → Bool
can_access m req =
    ite (ResourceId-discrete req.id site) false (agent_access m.agent_pool (organization req))

abbrev pub ping_timeout : Time
ping_timeout = 30 * second

-- What the manager asks the service to do with a runner.
pub data Upkeep : Type 0 where
  leave delete : Upkeep
  update_to : RunnerStatus → Upkeep

-- `time.Since(t) > d`.
abbrev since_exceeds : Time → Time → Time → Bool
since_exceeds now t d = ltb (t + d) now

upkeep : RunnerStatus → Time → RunnerMeta → Upkeep
upkeep idle now m =
    if since_exceeds now m.last_ping_at ping_timeout then update_to unknown else leave
upkeep busy now m =
    if since_exceeds now m.last_ping_at ping_timeout then update_to unknown else leave
upkeep unknown now m =
    if since_exceeds now m.last_status_at (5 * 60 * second) then update_to errored else leave
upkeep errored now m =
    if since_exceeds now m.last_status_at (60 * 60 * second) then delete else leave
upkeep exited now m =
    if since_exceeds now m.last_status_at (60 * 60 * second) then delete else leave
upkeep no_status now m = leave

-- `manager.update`, up to the call of the service.
unfoldable pub update : Time → RunnerMeta → Upkeep
unfolding upkeep
update now m = upkeep m.status now m
