-- ===== src/Tests/Jobs.antt =====
-- The theorems on the service of jobs, on the tail of logs and on timeouts, at concrete data.
use otf.Prelude.{
  Option, pos, ℕ, ◌≡◌, refl, ◌⊎◌, inl, inr, Bool, true, false, none, some, List, [], ◌∷◌, ◌++◌,
  Result, ok, err, arith, lookup, String-discrete, any, drop,
}
use otf.Resource.{TfeId, TfeId-discrete}
use otf.Run.Status
use otf.Run.Phase
use otf.Run.Phase.{PhaseType-discrete}
use otf.Run.Types.{Run}
use otf.Run.Create.{new_run}
use otf.Run.Lifecycle.{enqueues_plan, cancels, starts, step}
use otf.Run.Store.{update_status}
use otf.Run.Service.{Database, enqueue_plan, cancel_run, start_phase, update_run}
use otf.Run.Service.Enqueue.{IsEnqueued}
use otf.Run.Chunk.{Chunk}
use otf.Run.Timeout.{Timeout, timed_out, check, check_runs}
use otf.Run.Timeout.Late.{Cancels, check-Cancels}
use otf.Resource.Page.ListAll.{serve}
use otf.Run.Tailer.{TailOptions, tail}
use otf.Run.Tailer.Stream.{bytes_of, tail-logs}
use otf.Runner.Job.{Job, JobStatus}
use otf.Runner.Service.{Jobs, job_hooks, write_job, start_job_by, update_job}
use otf.Time.{current_timestamp}
use otf.Runner.Service.Rows.{IsWritten}
use otf.Runner.Service.Starts.{IsStarted, start_job_by-IsStarted}
use otf.Runner.Service.Hooked.{enqueue_plan-new_job, cancel_run-signals}
use otf.Tests.Samples.{
  clock_at, done_run, planning_run, dev, run_id, workspace_id, runner_id, pending_run, job_1,
  run_in, phase_in, reached,
}

abbrev table : Run → List Job → Database Jobs
table run rows = record {
  runs = (run_id "1", run) ∷ [];
  workspaces = (workspace_id "dev", dev) ∷ [];
  latest = [];
  jobs = record { rows = rows; signals = [] };
}

abbrev drawn : Run → TfeId
drawn run = job_1.id

enqueue_plan-new_job_example :
    (after : Database Jobs) × (new : Job) × (enqueue_plan
        (job_hooks drawn)
        (clock_at 1)
        (run_id "1")
        (table pending_run [])
      ≡ ok (after, (step enqueues_plan (clock_at 1) pending_run).0))
    × IsEnqueued after (run_id "1") pending_run dev
    × (after.jobs.rows ≡ new ∷ [])
    × (new.status ≡ JobStatus.unallocated)
    × (new.phase ≡ Phase.plan_phase)
    × (new.run_id ≡ run_id "1")
unfolding lookup TfeId-discrete String-discrete new_run
enqueue_plan-new_job_example =
    enqueue_plan-new_job drawn (clock_at 1) (run_id "1") (table pending_run []) pending_run dev refl
      refl refl refl refl refl refl

abbrev applying_run : Run
applying_run =
    run_in Status.applying (phase_in Phase.plan_phase Phase.PhaseStatus.finished)
      (phase_in Phase.apply_phase Phase.PhaseStatus.running) (reached Status.applying 4 ∷ [])

abbrev running_job : Job
running_job = record job_1 { status = JobStatus.running; runner_id = some (runner_id "a") }

cancel_run-signals_example :
    (after : Database Jobs) × (new : Run) × (cancel_run
        (job_hooks drawn)
        true
        true
        (clock_at 9)
        (run_id "1")
        (table applying_run (running_job ∷ []))
      ≡ ok (after, (step (cancels true false) (clock_at 9) applying_run).0))
    × (lookup TfeId-discrete (run_id "1") after.runs ≡ some new)
    × (new.status ≡ Status.applying)
    × (new.cancel_signaled_at ≡ some (current_timestamp none 9))
    × IsWritten running_job (running_job ∷ []) after.jobs.rows
    × (after.jobs.signals ≡ (job_1.id, false) ∷ [])
unfolding lookup TfeId-discrete String-discrete new_run
cancel_run-signals_example =
    cancel_run-signals drawn (clock_at 9) (run_id "1") (table applying_run (running_job ∷ []))
      applying_run running_job refl refl (inr refl) refl

abbrev queued_run : Run
queued_run =
    run_in Status.apply_queued (phase_in Phase.plan_phase Phase.PhaseStatus.finished)
      (phase_in Phase.apply_phase Phase.PhaseStatus.queued) (reached Status.apply_queued 4 ∷ [])

abbrev allocated_job : Job
allocated_job = record job_1 { status = JobStatus.allocated; runner_id = some (runner_id "a") }

-- The database after the start.
abbrev after_start : Database Jobs
after_start = table (update_status starts (clock_at 6) queued_run).0 (running_job ∷ [])

start_job_by-IsStarted_example :
    IsStarted
      (runner_id "a")
      job_1.id
      (table queued_run (allocated_job ∷ []))
      after_start
      running_job
unfolding lookup TfeId-discrete String-discrete new_run start_job_by update_job write_job
    start_phase update_run otf.Runner.Job.update_status update_status step otf.Run.Store.update_row
    otf.Run.Store.timestamps_written Status.Status-discrete otf.Run.Lifecycle.status_timestamp
    otf.Run.Store.phase_written Phase.PhaseStatus-discrete Phase.status_timestamp otf.Prelude.insert
start_job_by-IsStarted_example =
    start_job_by-IsStarted (runner_id "a") job_1.id (clock_at 6) true
      (table queued_run (allocated_job ∷ [])) after_start running_job refl

abbrev tailing : TailOptions
tailing = record { run_id = run_id "1"; phase = Phase.plan_phase; offset = 1 }

abbrev piece : ℕ → List ℕ → Chunk
piece offset bytes = record {
  id = none;
  run_id = some (run_id "1");
  phase = some Phase.plan_phase;
  offset = offset;
  bytes = bytes;
}

abbrev other_piece : Chunk
other_piece = record (piece 0 (9 ∷ [])) { phase = some Phase.apply_phase }

-- The database has the first event already, which is cut in two.
abbrev pieces : List Chunk
pieces = piece 2 (66 ∷ 67 ∷ []) ∷ other_piece ∷ piece 4 (68 ∷ 3 ∷ []) ∷ []

tail-logs_example :
    (all : List Chunk) × (tail tailing (piece 1 (65 ∷ 66 ∷ [])) pieces ≡ some all)
    × (bytes_of all ≡ 65 ∷ 66 ∷ 67 ∷ 68 ∷ 3 ∷ [])
unfolding TfeId-discrete String-discrete PhaseType-discrete
tail-logs_example =
    tail-logs tailing (piece 1 (65 ∷ 66 ∷ [])) (2 ∷ 65 ∷ []) (67 ∷ 68 ∷ 3 ∷ []) pieces
      (refl, inl refl, (refl, inr refl, tt)) refl (omega arith)

-- One of the runs is late, and the other is done.
abbrev limits : Timeout
limits = record { planning_timeout = pos 50; applying_timeout = pos 60 }

abbrev some_runs : List Run
some_runs = done_run ∷ planning_run ∷ []

check-Cancels_example :
    (ids : List TfeId) × (failed : Option TfeId) × (check limits
        (λ r. 100)
        (λ id. true)
        (serve some_runs)
        1
      ≡ some (ok (ids, failed)))
    × Cancels limits (λ r. 100) (λ id. true) some_runs ids failed
check-Cancels_example = check-Cancels limits (λ r. 100) (λ id. true) some_runs (omega arith)

-- The run that is planning is canceled.
late_runs : check_runs limits (λ r. 100) (λ id. true) some_runs ≡ (run_id "1" ∷ [], none)
unfolding check_runs timed_out Status.Status-discrete otf.Run.Lifecycle.status_timestamp new_run
late_runs = refl
