-- ===== src/Tests/Runners.antt =====
-- The theorems on jobs, on runners and on the allocator, at concrete jobs and runners.
use otf.Prelude.{
  ◌≤◌, ◌≡◌, refl, true, none, some, List, [], ◌∷◌, arith, All, lookup, String-discrete, pos,
  ℕ_discrete,
}
use otf.Resource.{TfeId-discrete}
use otf.Runner.Job.{Job, JobStatus}
use otf.Runner.Job.States.{
  Event, allocates, starts, finishes, HasRunner, run_events, run_events-HasRunner,
}
use otf.Runner.Meta.{RunnerMeta, idle, busy, exited}
use otf.Runner.Allocator.{
  Allocator, Client, start, runner_created, job_updated, choose, fits, available, sort_by_ping,
  insert_by_ping, tally, ℤ-discrete,
}
use otf.Runner.Allocator.Choice.{choose-latest}
use otf.Runner.Allocator.Capacity.{WithinCapacity}
use otf.Runner.Allocator.Rounds.{start-WithinCapacity}
use otf.Tests.Samples.{job_1, runner_id, runner_in}

abbrev working : List Event
working = allocates (runner_id "a") ∷ starts ∷ finishes JobStatus.finished ∷ []

run_events-HasRunner_example : HasRunner (run_events working job_1)
run_events-HasRunner_example =
    run_events-HasRunner working job_1 (tt, (tt, (refl, tt))) (λ h. ground arith)

abbrev finished_job : Job
finished_job = record job_1 { status = JobStatus.finished; runner_id = some (runner_id "a") }

abbrev silent : RunnerMeta
silent = runner_in "a" busy 0

abbrev gone : RunnerMeta
gone = runner_in "a" exited 0

-- Two idle runners, of which the second has sent the later ping.
abbrev early : RunnerMeta
early = runner_in "a" idle 5

abbrev late : RunnerMeta
late = runner_in "b" idle 6

abbrev two_runners : Allocator
two_runners = record {
  runners = (runner_id "a", early) ∷ (runner_id "b", late) ∷ [];
  jobs = [];
  current_jobs = (runner_id "a", pos 0) ∷ (runner_id "b", pos 1) ∷ [];
}

choose-latest_example :
    (fits two_runners.current_jobs job_1 late ≡ true)
    × All
        (λ e. fits two_runners.current_jobs job_1 e.1 ≡ true → e.1.last_ping_at ≤ late.last_ping_at)
        two_runners.runners
unfolding choose sort_by_ping insert_by_ping available fits tally lookup TfeId-discrete
    String-discrete ℤ-discrete ℕ_discrete
choose-latest_example = choose-latest two_runners job_1 late (early ∷ []) refl

abbrev obliging : Client
obliging = record {
  allocate_job = λ job runner. some (record job_1 { runner_id = some runner });
  reallocate_job = λ job runner. none;
}

start-WithinCapacity_example :
    let a =
      (start (early ∷ late ∷ []) (job_1 ∷ []) obliging (
        (obliging, runner_created silent)
        ∷ (obliging, job_updated job_1.id JobStatus.finished)
        ∷ [])).0 in
    WithinCapacity a.runners a.current_jobs
start-WithinCapacity_example =
    start-WithinCapacity (early ∷ late ∷ []) (job_1 ∷ []) obliging
      ((obliging, runner_created silent) ∷ (obliging, job_updated job_1.id JobStatus.finished) ∷ [])
      ((λ f. omega arith), ((λ f. omega arith), tt)) ((λ f. omega arith), (tt, tt))
