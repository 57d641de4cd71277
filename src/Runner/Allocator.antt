-- ===== src/Runner/Allocator.antt =====
-- internal/runner/allocator.go: the allocator of jobs to runners. The maps are association lists,
-- whose order stands for the order in which Go happens to range over them; logging and metrics are
-- left out. The services are the interface of the code, here the answers of a client.
pub mod Choice
pub mod Capacity
pub mod Indexed
pub mod Rounds
use otf.Prelude.{
  ℕ, ◌+◌, ltb, Bool, true, false, not, ◌&&◌, Option, none, some, List, [], ◌∷◌, ite, if◌then◌else◌,
  ℤ, pos, negsuc, ◌+ℤ◌, lookup, insert, delete, ℕ_discrete,
}
use otf.Resource.{TfeId, TfeId-discrete}
use otf.Runner.Job.{Job, JobStatus, unallocated, allocated, running, finished, errored, canceled}
use otf.Runner.Meta.{RunnerMeta, RunnerStatus, idle, busy, ExecutorKind, fork, kubernetes, Pool}

pub record Allocator : Type 0 where
  pub runners : List (TfeId × RunnerMeta)
  pub jobs : List (TfeId × Job)
  pub current_jobs : List (TfeId × ℤ)

-- `allocatorClient`, as far as it changes the jobs: `none` is an error.
pub record Client : Type 0 where
  pub allocate_job : (job runner : TfeId) → Option Job
  pub reallocate_job : (job runner : TfeId) → Option Job

pub data AllocatorError : Type 0 where
  runner_not_found client_failed existing_runner_not_found existing_job_not_found : AllocatorError
  -- a nil pointer is read
  fault : AllocatorError

abbrev or_zero : Option ℤ → ℤ
or_zero none = pos 0
or_zero (some n) = n

-- `currentJobs[id]`: a missing key reads as 0.
unfoldable pub tally : TfeId → List (TfeId × ℤ) → ℤ
tally id m = or_zero (lookup TfeId-discrete id m)

-- `addRunner`.
unfoldable pub add_runner : RunnerMeta → Allocator → Allocator
add_runner r a = record a {
  runners = insert TfeId-discrete r.id r a.runners;
  current_jobs = insert TfeId-discrete r.id (pos r.current_jobs) a.current_jobs;
}

-- `deleteRunner`.
unfoldable pub delete_runner : TfeId → Allocator → Allocator
delete_runner id a = record a {
  runners = delete TfeId-discrete id a.runners;
  current_jobs = delete TfeId-discrete id a.current_jobs;
}

-- `incrementCurrentJobs` and `decrementCurrentJobs`.
abbrev pub increment_current_jobs : TfeId → Allocator → Allocator
increment_current_jobs id a = record a {
  current_jobs = insert TfeId-discrete id (tally id a.current_jobs +ℤ pos 1) a.current_jobs;
}

abbrev pub decrement_current_jobs : TfeId → Allocator → Allocator
decrement_current_jobs id a = record a {
  current_jobs = insert TfeId-discrete id (tally id a.current_jobs +ℤ negsuc 0) a.current_jobs;
}

abbrev pub is_ready : RunnerStatus → Bool
is_ready idle = true
is_ready busy = true
is_ready _ = false

abbrev pub same_pool : Option Pool → Option TfeId → Bool
same_pool none none = true
same_pool none (some job_pool) = false
same_pool (some pool) none = false
same_pool (some pool) (some job_pool) = ite (TfeId-discrete pool.id job_pool) true false

abbrev pub is_fork : ExecutorKind → Bool
is_fork fork = true
is_fork kubernetes = false

unfoldable pub ℤ-discrete : Discrete ℤ
ℤ-discrete = hlevel ℕ_discrete

abbrev pub is_full : List (TfeId × ℤ) → RunnerMeta → Bool
is_full counts r =
    is_fork r.executor_kind && ite (ℤ-discrete (pos r.max_jobs) (tally r.id counts)) true false

-- The tests of the loop over the runners.
unfoldable pub fits : List (TfeId × ℤ) → Job → RunnerMeta → Bool
fits counts job r =
    is_ready r.status && (same_pool r.agent_pool job.agent_pool_id && not (is_full counts r))

-- The runners that are available for the job.
unfoldable pub available : List (TfeId × ℤ) → Job → List (TfeId × RunnerMeta) → List RunnerMeta
available counts job [] = []
available counts job ((id, r) ∷ rest) =
    let later = available counts job rest in if fits counts job r then r ∷ later else later

-- `slices.SortFunc` with the comparison of the code, by insertion, as Go sorts up to twelve
-- elements. Beyond that it may order runners with equal pings otherwise.
unfoldable pub insert_by_ping : RunnerMeta → List RunnerMeta → List RunnerMeta
insert_by_ping r [] = r ∷ []
insert_by_ping r (x ∷ xs) =
    if ltb x.last_ping_at r.last_ping_at then r ∷ x ∷ xs else x ∷ insert_by_ping r xs

unfoldable pub sort_by_ping : List RunnerMeta → List RunnerMeta → List RunnerMeta
sort_by_ping sorted [] = sorted
sort_by_ping sorted (r ∷ rest) = sort_by_ping (insert_by_ping r sorted) rest

unfoldable pub choose : Allocator → Job → List RunnerMeta
choose a job = sort_by_ping [] (available a.current_jobs job a.runners)

abbrev pub Outcome : Type 0
Outcome = Allocator × Option AllocatorError

-- The job that the client returns is kept, and the runner's tally goes up.
abbrev assign : TfeId → Job → RunnerMeta → Allocator → Allocator
assign id updated r a =
    increment_current_jobs r.id (record a { jobs = insert TfeId-discrete id updated a.jobs })

-- The last part of `allocate`, for the runner at the head of the sorted list.
unfoldable pub place : Client → Job → Option TfeId → List RunnerMeta → Allocator → Outcome
place client job from [] a = (a, none)
place client job none (r ∷ rest) a = elim (client.allocate_job job.id r.id) [
  | none ↦ (a, some client_failed)
  | some updated ↦ (assign job.id updated r a, none)
]
place client job (some from) (r ∷ rest) a = elim (client.reallocate_job job.id r.id) [
  | none ↦ (a, some client_failed)
  | some updated ↦ (assign job.id updated r (decrement_current_jobs from a), none)
]

-- A job that is allocated stays with a healthy runner, and else is allotted anew.
unfoldable pub allocate_allocated : Client → Job → Option TfeId → Allocator → Outcome
allocate_allocated client job none a = (a, some fault)
allocate_allocated client job (some id) a = elim (lookup TfeId-discrete id a.runners) [
  | none ↦ (a, some runner_not_found)
  | some r ↦ if is_ready r.status then (a, none) else place client job (some id) (choose a job) a
]

unfoldable pub complete : Job → Option TfeId → Allocator → Allocator
complete job none a = record a { jobs = delete TfeId-discrete job.id a.jobs }
complete job (some id) a =
    decrement_current_jobs id (record a { jobs = delete TfeId-discrete job.id a.jobs })

-- The switch of `allocate` on the status of the job.
unfoldable pub allocate_by : JobStatus → Client → Job → Allocator → Outcome
allocate_by allocated client job a = allocate_allocated client job job.runner_id a
allocate_by finished client job a = (complete job job.runner_id a, none)
allocate_by canceled client job a = (complete job job.runner_id a, none)
allocate_by errored client job a = (complete job job.runner_id a, none)
allocate_by running client job a = (a, none)
allocate_by unallocated client job a = place client job none (choose a job) a

-- `allocate`.
unfoldable pub allocate : Client → Job → Allocator → Outcome
allocate client job a = allocate_by job.status client job a

-- The loop over the jobs, which an error ends. A round changes the entry of its own job alone, so
-- the entries are those that the loop began with.
unfoldable pub allocate_all : Client → List (TfeId × Job) → Allocator → Outcome
allocate_all client [] a = (a, none)
allocate_all client ((id, job) ∷ rest) a =
    let later = allocate_all client rest in
    elim ((allocate client job a).1) [
      | some e ↦ allocate client job a
      | none ↦ later (allocate client job a).0
    ]

-- `seed`. Jobs in a final state are skipped.
add_runners : List RunnerMeta → Allocator → Allocator
add_runners [] a = a
add_runners (r ∷ rest) a = add_runners rest (add_runner r a)

abbrev skips : JobStatus → Bool
skips errored = true
skips canceled = true
skips finished = true
skips _ = false

add_jobs : List Job → Allocator → Allocator
add_jobs [] a = a
add_jobs (j ∷ rest) a =
    add_jobs rest
      (if skips j.status then a else record a { jobs = insert TfeId-discrete j.id j a.jobs })

unfoldable pub seed : List RunnerMeta → List Job → Allocator
unfolding add_runners add_jobs
seed runners jobs =
    add_jobs jobs (add_runners runners (record { runners = []; jobs = []; current_jobs = [] }))

-- The events of the two subscriptions. A created runner or job is fetched by the client.
pub data Event : Type 0 where
  runner_created : RunnerMeta → Event
  runner_updated : TfeId → RunnerStatus → Event
  runner_deleted : TfeId → Event
  job_created : TfeId → Job → Event
  job_updated : TfeId → JobStatus → Event
  job_deleted : TfeId → Event

forget_job : Option Job → TfeId → Allocator → Allocator
forget_job none id a = record a { jobs = delete TfeId-discrete id a.jobs }
forget_job (some job) id a = elim job.runner_id [
  | none ↦ record a { jobs = delete TfeId-discrete id a.jobs }
  | some r ↦ record (decrement_current_jobs r a) { jobs = delete TfeId-discrete id a.jobs }
]

-- The switch of the loop in `Start`.
unfoldable pub on_event : Event → Allocator → Outcome
unfolding forget_job
on_event (runner_created r) a = (add_runner r a, none)
on_event (runner_updated id status) a = elim (lookup TfeId-discrete id a.runners) [
  | none ↦ (a, some existing_runner_not_found)
  | some r ↦ (
    record a { runners = insert TfeId-discrete id (record r { status = status }) a.runners },
    none,
  )
]
on_event (runner_deleted id) a = (delete_runner id a, none)
on_event (job_created id job) a = (record a { jobs = insert TfeId-discrete id job a.jobs }, none)
on_event (job_updated id status) a = elim (lookup TfeId-discrete id a.jobs) [
  | none ↦ (a, some existing_job_not_found)
  | some job ↦
      (record a { jobs = insert TfeId-discrete id (record job { status = status }) a.jobs }, none)
]
on_event (job_deleted id) a = (forget_job (lookup TfeId-discrete id a.jobs) id a, none)

-- One round of the loop: the event, and then every job.
unfoldable pub round : Client → Event → Allocator → Outcome
round client e a = elim ((on_event e a).1) [
  | some x ↦ on_event e a
  | none ↦ allocate_all client (on_event e a).0.jobs (on_event e a).0
]

-- The loop of `Start`, which an error ends. Each round has the answers of the client in it.
unfoldable pub watch : List (Client × Event) → Allocator → Outcome
watch [] a = (a, none)
watch ((client, e) ∷ rest) a =
    let later = watch rest in
    elim ((round client e a).1) [ some x ↦ round client e a | none ↦ later (round client e a).0 ]

-- `Start`: the seeding, the first round, and the loop.
unfoldable pub start : List RunnerMeta → List Job → Client → List (Client × Event) → Outcome
start runners jobs client events =
    let a = seed runners jobs in
    elim ((allocate_all client a.jobs a).1) [
      | some x ↦ allocate_all client a.jobs a
      | none ↦ watch events (allocate_all client a.jobs a).0
    ]
