-- ===== src/Runner/Service.antt =====
-- internal/runner/service.go: the service's operations on the jobs in the database, with the hooks
-- that it registers with the service of runs. An operation is one transaction: the phases of the
-- run that it starts, finishes or cancels are part of it. The identifier of a job that is made is
-- given by a function of the run, and whether a token can be made is an argument.
pub mod Rows
pub mod Starts
pub mod Hooked
use otf.Prelude.{
  ℕ, Bool, true, false, not, ◌&&◌, ◌||◌, Option, none, some, List, [], ◌∷◌, ◌++◌, map,
  if◌then◌else◌, test, Result, ok, err, ◌>>=◌, any,
}
use otf.Resource.{TfeId, TfeId-discrete}
use otf.Time.{Time}
use otf.Run.Phase.{PhaseType, Report}
use otf.Run.Types.{Run}
use otf.Run.Service.{Database, Hooks, Hook, ServiceError, start_phase, finish_phase, cancel_run}
use otf.Runner.Job.{
  Job, JobStatus, JobError, new_job, allocate, reallocate, start_job, finish_job, cancel_for,
  Canceled,
}

-- The table of jobs, and the signals that have been published: a job with whether it is forced.
pub record Jobs : Type 0 where
  pub rows : List Job
  pub signals : List (TfeId × Bool)

pub data JobServiceError : Type 0 where
  job_access_not_permitted job_not_found no_token nil_runner : JobServiceError
  job_failed : JobError → JobServiceError
  run_failed : ServiceError → JobServiceError

abbrev pub is_active : JobStatus → Bool
is_active JobStatus.unallocated = true
is_active JobStatus.allocated = true
is_active JobStatus.running = true
is_active _ = false

abbrev pub same_id : TfeId → TfeId → Bool
same_id a b = test (TfeId-discrete a b)

-- The condition of the query of `updateJob`: the job, or the active job of the run.
abbrev pub is_meant : TfeId → Job → Bool
is_meant id j = same_id j.id id || (same_id j.run_id id && is_active j.status)

abbrev pub find_job : TfeId → List Job → Option Job
find_job id [] = none
find_job id (j ∷ js) = if is_meant id j then some j else find_job id js

-- The columns that the statement of `updateJob` writes.
abbrev pub overwrite : Job → Job → Job
overwrite j row =
    if same_id row.id j.id then record row { status = j.status; runner_id = j.runner_id } else row

unfoldable pub write_job : Job → Jobs → Jobs
write_job j t = record t { rows = map (overwrite j) t.rows }

abbrev pub of_job : Job × Option JobError → Result JobServiceError Job
of_job (j, none) = ok j
of_job (j, some e) = err (job_failed e)

-- `createJob`, as a hook: the insertion fails where the identifier is taken.
unfoldable pub create_job : (Run → TfeId) → Hook Jobs
create_job fresh run t =
    if any (λ j. same_id j.id (fresh run)) t.rows
    then none
    else some (record t { rows = t.rows ++ new_job (fresh run) run ∷ [] })

abbrev pub published : Canceled → Jobs → Jobs
published c t = if c.signal then record t { signals = t.signals ++ (c.job.id, c.force) ∷ [] } else t

abbrev pub canceled_job : Canceled → Jobs → Option Jobs
canceled_job c t = elim c.error [ none ↦ some (write_job c.job (published c t)) | some e ↦ none ]

abbrev pub cancel_found : Run → Option Job → Jobs → Option Jobs
cancel_found run none t = some t
cancel_found run (some j) t = canceled_job (cancel_for run j) t

-- `cancelJob`, as a hook: a run without an active job is no error.
unfoldable pub cancel_job : Hook Jobs
cancel_job run t = cancel_found run (find_job run.id t.rows) t

-- The hooks that `NewService` registers with the service of runs.
abbrev pub job_hooks : (Run → TfeId) → Hooks Jobs
job_hooks fresh = record {
  after_enqueue_plan = create_job fresh ∷ [];
  after_enqueue_apply = create_job fresh ∷ [];
  after_cancel = cancel_job ∷ [];
  after_force_cancel = cancel_job ∷ [];
}

-- What an operation does to the job that it finds, and to the rest of the database.
abbrev pub JobStep : Type 0
JobStep = Job → Database Jobs → Result JobServiceError (Database Jobs × Job)

abbrev pub write_back : Database Jobs × Job → Database Jobs × Job
write_back (db, j) = (record db { jobs = write_job j db.jobs }, j)

abbrev pub update_found :
    Option Job → JobStep → Database Jobs → Result JobServiceError (Database Jobs × Job)
update_found none step db = err job_not_found
update_found (some j) step db = step j db >>= λ r. ok (write_back r)

-- `updateJob`.
unfoldable pub update_job :
    TfeId → JobStep → Database Jobs → Result JobServiceError (Database Jobs × Job)
update_job id step db = update_found (find_job id db.jobs.rows) step db

-- A step that changes the job only.
abbrev pub only_job : (Job → Job × Option JobError) → JobStep
only_job f j db = of_job (f j) >>= λ k. ok (db, k)

-- `allocateJob` and `reallocateJob`, which reads the runner of the job.
unfoldable pub allocate_job :
    TfeId → TfeId → Database Jobs → Result JobServiceError (Database Jobs × Job)
allocate_job id runner db = update_job id (only_job (allocate runner)) db

abbrev pub reallocate_step : TfeId → JobStep
reallocate_step runner j db = elim j.runner_id [
  | none ↦ err nil_runner
  | some from ↦ only_job (reallocate runner) j db
]

unfoldable pub reallocate_job :
    TfeId → TfeId → Database Jobs → Result JobServiceError (Database Jobs × Job)
reallocate_job id runner db = update_job id (reallocate_step runner) db

abbrev pub is_of : TfeId → Option TfeId → Bool
is_of runner none = false
is_of runner (some id) = same_id id runner

abbrev pub of_run : {A : Type 0} → Result ServiceError A → Result JobServiceError A
of_run (ok a) = ok a
of_run (err e) = err (run_failed e)

abbrev pub start_with : (ℕ → Time) → (token : Bool) → JobStep
start_with clock token j db = do
  k ← of_job (start_job j)
  u ← of_run (start_phase (job_hooks (λ r. r.id)) clock k.run_id db)
  if token then ok (u.0, k) else err no_token

abbrev pub start_step : (runner : TfeId) → (ℕ → Time) → (token : Bool) → JobStep
start_step runner clock token j db =
    if is_of runner j.runner_id then start_with clock token j db else err job_access_not_permitted

-- `StartJob`, by the runner of the context.
unfoldable pub start_job_by :
    Option TfeId
    → (ℕ → Time)
    → (token : Bool) → TfeId
    → Database Jobs
    → Result JobServiceError (Database Jobs × Job)
start_job_by none clock token id db = err job_access_not_permitted
start_job_by (some runner) clock token id db = update_job id (start_step runner clock token) db

-- What `FinishJob` needs of the service of runs: the reports of the phase, whether the calls are
-- permitted, and the clocks.
pub record Finishing : Type 0 where
  pub reports : Option (Report × Report)
  pub permitted : Bool
  pub clock : ℕ → Time
  pub clock' : ℕ → Time

abbrev pub after_phase :
    Database Jobs × Result ServiceError Run → Result JobServiceError (Database Jobs)
after_phase (db, ok run) = ok db
after_phase (db, err e) = err (run_failed e)

abbrev pub after_cancel_run :
    Result ServiceError (Database Jobs × Run) → Result JobServiceError (Database Jobs)
after_cancel_run (ok (db, run)) = ok db
after_cancel_run (err e) = err (run_failed e)

-- The switch of `FinishJob`.
abbrev pub finish_run :
    (Run → TfeId)
    → Finishing
    → JobStatus
    → Job
    → Database Jobs
    → Result JobServiceError (Database Jobs)
finish_run fresh f JobStatus.finished j db = after_phase (
    finish_phase (job_hooks fresh) j.phase false f.reports f.permitted f.clock f.clock' j.run_id db)
finish_run fresh f JobStatus.errored j db =
    after_phase (
      finish_phase (job_hooks fresh) j.phase true f.reports f.permitted f.clock f.clock' j.run_id
        db)
finish_run fresh f JobStatus.canceled j db =
    after_cancel_run (cancel_run (job_hooks fresh) f.permitted false f.clock j.run_id db)
finish_run fresh f _ j db = ok db

abbrev pub finish_step : (Run → TfeId) → Finishing → JobStatus → JobStep
finish_step fresh f status j db = do
  after ← finish_run fresh f status j db
  k ← of_job (finish_job status j)
  ok (after, k)

-- `FinishJob`; the first argument is whether the subject is a job.
unfoldable pub finish_job_by :
    Bool
    → (Run → TfeId)
    → Finishing
    → JobStatus
    → TfeId
    → Database Jobs
    → Result JobServiceError (Database Jobs × Job)
finish_job_by false fresh f status id db = err job_access_not_permitted
finish_job_by true fresh f status id db = update_job id (finish_step fresh f status) db
