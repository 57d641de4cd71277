-- ===== src/Runner/Service/Starts.antt =====
-- internal/runner/service.go: who may start a job, and what it does with the run.
use otf.Prelude.{
  ℕ, ◌≡◌, refl, sym, ap, ◌∙◌, ◌⊎◌, inl, inr, Bool, true, false, none, some, Result, ok, err, arith,
  Bool-cases, Option-cases, lookup, insert, ◌>>=◌, subst,
}
use otf.Resource.{TfeId, TfeId-discrete}
use otf.Time.{Time}
use otf.Run.Status.{Status}
use otf.Run.Types.{Run}
use otf.Run.Lifecycle.{starts, step, RunError}
use otf.Run.Store.{update_status, operation_failed}
use otf.Run.Store.Written.{update_status-succeeds}
use otf.Run.Service.{Database, ServiceError, run_not_found, not_updated, start_phase, update_run}
use otf.Run.Service.Enqueue.{lookup-insert_same}
use otf.Runner.Job.{
  Job, JobStatus, JobError, is_valid, invalid_job_state_transition, start_job,
  update_status as update_job_status,
}
use otf.Runner.Service.Rows.{IsWritten, write_job-IsWritten, write_job-signals}
use otf.Runner.Service.{
  Jobs, JobServiceError, find_job, start_job_by, start_with, update_job, is_of, write_back,
  write_job, job_hooks,
}

-- A run before and after the start of its queued phase.
abbrev pub Queued : Status → Status → Type 0
Queued before after =
    ((before ≡ Status.plan_queued) × (after ≡ Status.planning))
    ⊎ ((before ≡ Status.apply_queued) × (after ≡ Status.applying))

step-start_in_line :
    (clock : ℕ → Time) (row : Run)
    → (row.status ≡ Status.plan_queued) ⊎ (row.status ≡ Status.apply_queued)
    → ((step starts clock row).1 ≡ none) × Queued row.status (step starts clock row).0.status
unfolding step
step-start_in_line clock row (inl e) = ground (arith, e)
step-start_in_line clock row (inr e) = ground (arith, e)

step-start_none :
    (clock : ℕ → Time) (row : Run)
    → (step starts clock row).1 ≡ none
    → (row.status ≡ Status.plan_queued) ⊎ (row.status ≡ Status.apply_queued)
unfolding step
step-start_none clock row e = ground (arith, e)

refused :
    (clock : ℕ → Time) (row : Run) (x : RunError)
    → (step starts clock row).1 ≡ some x
    → update_status starts clock row ≡ (row, some (operation_failed x))
unfolding update_status
refused clock row x e = rw (update_status, e) refl

-- The run's part: an error where the phase is not queued.
start_phase_cases :
    (clock : ℕ → Time) (id : TfeId) (db : Database Jobs)
    → ((row : Run) × (new : Run) × (lookup TfeId-discrete id db.runs ≡ some row)
        × Queued row.status new.status
        × (start_phase (job_hooks (λ r. r.id)) clock id db
            ≡ ok (
              record db { runs = insert TfeId-discrete id new db.runs },
              (step starts clock row).0,
            )))
      ⊎ ((e : ServiceError) × (start_phase (job_hooks (λ r. r.id)) clock id db ≡ err e))
unfolding start_phase update_run
start_phase_cases clock id db = elim (Option-cases (lookup TfeId-discrete id db.runs)) [
  | inl n ↦ inr (run_not_found, rw n refl)
  | inr (row, found) ↦ elim (Option-cases (step starts clock row).1) [
    | inr (x, e) ↦ inr (not_updated (operation_failed x), rw (found, refused clock row x e) refl)
    | inl e ↦
        let (new, u, st, plan, apply) = update_status-succeeds starts clock row e in
        let queued = (step-start_in_line clock row (step-start_none clock row e)).1 in
        inl (row, new, found, subst (Queued row.status) (sym st) queued, rw (found, u) refl)
  ]
]

running_cases :
    (s : JobStatus)
    → ((s ≡ JobStatus.allocated) × (is_valid s JobStatus.running ≡ true))
      ⊎ (is_valid s JobStatus.running ≡ false)
running_cases JobStatus.unallocated = inr refl
running_cases JobStatus.allocated = inl (refl, refl)
running_cases JobStatus.running = inr refl
running_cases JobStatus.finished = inr refl
running_cases JobStatus.errored = inr refl
running_cases JobStatus.canceled = inr refl

start_job_cases :
    (j : Job)
    → ((j.status ≡ JobStatus.allocated)
        × (start_job j ≡ (record j { status = JobStatus.running }, none)))
      ⊎ ((e : JobError) × (start_job j ≡ (j, some e)))
unfolding update_job_status
start_job_cases j = elim (running_cases j.status) [
  | inl (a, v) ↦ inl (a, rw v refl)
  | inr v ↦ inr (invalid_job_state_transition, rw v refl)
]

-- What the database shows of a job that is started.
abbrev pub IsStarted :
    (runner id : TfeId) → (before after : Database Jobs) → (started : Job) → Type 0
IsStarted runner id before after started =
    (j : Job) × (row : Run) × (new : Run) × (find_job id before.jobs.rows ≡ some j)
    × (is_of runner j.runner_id ≡ true)
    × (j.status ≡ JobStatus.allocated)
    × (started ≡ record j { status = JobStatus.running })
    × (lookup TfeId-discrete j.run_id before.runs ≡ some row)
    × (lookup TfeId-discrete j.run_id after.runs ≡ some new)
    × Queued row.status new.status
    × IsWritten started before.jobs.rows after.jobs.rows
    × (after.jobs.signals ≡ before.jobs.signals)

started_ends :
    (j : Job) (db after : Database Jobs) (k : Job)
    → Path (Result JobServiceError (Database Jobs × Job)) (ok (write_back (db, j))) (ok (after, k))
    → (after.runs ≡ db.runs) × (k ≡ j) × (after.jobs ≡ write_job j db.jobs)
started_ends j db after k h = ground (arith, h)

start_with_cases :
    (runner id : TfeId) (clock : ℕ → Time) (token : Bool) (j : Job) (db after : Database Jobs)
    (k : Job)
    → find_job id db.jobs.rows ≡ some j
    → is_of runner j.runner_id ≡ true
    → (start_with clock token j db >>= λ r. ok (write_back r)) ≡ ok (after, k)
    → IsStarted runner id db after k
start_with_cases runner id clock token j db after k f o h = elim (start_job_cases j) [
  | inr (e, refused) ↦ absurd (ground (arith, rw refused at h))
  | inl (a, s) ↦ elim (start_phase_cases clock j.run_id db) [
    | inr (e, refused) ↦ absurd (ground (arith, rw (s, refused) at h))
    | inl (row, new, found, queued, r) ↦ elim (Bool-cases token) [
      | inr t ↦ absurd (ground (arith, rw (s, r, t) at h))
      | inl t ↦
          let running = record j { status = JobStatus.running } in
          let ends =
            started_ends running (record db { runs = insert TfeId-discrete j.run_id new db.runs })
              after k (rw (s, r, t) at h) in
          (
            j,
            row,
            new,
            f,
            o,
            a,
            ends.1,
            found,
            rw ends.0 (lookup-insert_same j.run_id new db.runs),
            queued,
            rw (ends.2, ends.1) (write_job-IsWritten running db.jobs),
            ap (λ t. t.signals) ends.2 ∙ write_job-signals running db.jobs,
          )
    ]
  ]
]

-- If a job is started by a runner, then the job was allocated to that runner, and its run was
-- queued for a phase, which the service does not compare with that of the job. Afterwards the run
-- is in the phase that it was queued for, the rows of the job are running with its runner, no other
-- row of a job has changed, and nothing is signaled.
pub start_job_by-IsStarted :
    (runner id : TfeId) (clock : ℕ → Time) (token : Bool) (db after : Database Jobs) (k : Job)
    → start_job_by (some runner) clock token id db ≡ ok (after, k)
    → IsStarted runner id db after k
unfolding start_job_by update_job
start_job_by-IsStarted runner id clock token db after k h =
    elim (Option-cases (find_job id db.jobs.rows)) [
      | inl n ↦ absurd (ground (arith, rw n at h))
      | inr (j, f) ↦ elim (Bool-cases (is_of runner j.runner_id)) [
        | inl o ↦ start_with_cases runner id clock token j db after k f o (rw (f, o) at h)
        | inr o ↦ absurd (ground (arith, rw (f, o) at h))
      ]
    ]
