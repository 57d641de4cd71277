-- ===== src/Runner/Service/Hooked.antt =====
-- internal/runner/service.go: what the hooks make of the jobs when a plan is enqueued and when a
-- run is canceled.
use otf.Prelude.{
  ℕ, ◌≡◌, refl, sym, subst, ap, ◌∙◌, ◌⊎◌, inl, inr, Bool, true, false, none, some, [], ◌∷◌, ◌++◌,
  ok, arith, lookup, insert, any, is_some,
}
use otf.Resource.{TfeId, TfeId-discrete, run_kind}
use otf.Time.{Time, current_timestamp}
use otf.Workspace.Types.{Workspace}
use otf.Run.Status.{Status}
use otf.Run.Phase.{plan_phase}
use otf.Run.Types.{Run}
use otf.Run.Lifecycle.{enqueues_plan, cancels, step, current_phase}
use otf.Run.Store.Written.{update_status-succeeds, update_status-signaled}
use otf.Run.Service.{Database, run_hooks, enqueue_plan, cancel_run, update_run}
use otf.Run.Service.Enqueue.{IsEnqueued, enqueue_plan-IsEnqueued, no_user, lookup-insert_same}
use otf.Runner.Job.{Job, JobStatus, new_job, cancel_for}
use otf.Runner.Service.Rows.{IsWritten, write_job-IsWritten, write_job-signals}
use otf.Runner.Service.{
  Jobs, find_job, is_active, published, same_id, write_job, create_job, cancel_job, job_hooks,
}

created :
    (fresh : Run → TfeId) (run : Run) (t : Jobs)
    → any (λ j. same_id j.id (fresh run)) t.rows ≡ false
    → run_hooks (create_job fresh ∷ []) run t
      ≡ ok (record t { rows = t.rows ++ new_job (fresh run) run ∷ [] })
unfolding run_hooks create_job
created fresh run t h = rw (run_hooks, create_job, h) refl

queued_phase :
    (clock : ℕ → Time) (row : Run)
    → row.status ≡ Status.pending
    → let run = (step enqueues_plan clock row).0 in
      (current_phase run ≡ plan_phase) × (run.id ≡ row.id)
unfolding step
queued_phase clock row p = ground (arith, p)

-- Where the plan of a pending run that is not plan-only is enqueued, in a workspace whose lock no
-- user holds, and the identifier that is drawn for the job is not taken, the database gets one job
-- more: it is not allocated, and it is for the plan of the run.
pub enqueue_plan-new_job :
    (fresh : Run → TfeId) (clock : ℕ → Time) (id : TfeId) (db : Database Jobs) (row : Run)
    (ws : Workspace)
    → lookup TfeId-discrete id db.runs ≡ some row
    → lookup TfeId-discrete row.workspace_id db.workspaces ≡ some ws
    → row.status ≡ Status.pending
    → row.plan_only ≡ false
    → row.id.kind ≡ run_kind
    → no_user ws.lock ≡ true
    → any (λ j. same_id j.id (fresh (step enqueues_plan clock row).0)) db.jobs.rows ≡ false
    → (after : Database Jobs) × (new : Job) × (enqueue_plan (job_hooks fresh) clock id db
        ≡ ok (after, (step enqueues_plan clock row).0))
      × IsEnqueued after id row ws
      × (after.jobs.rows ≡ db.jobs.rows ++ new ∷ [])
      × (new.status ≡ JobStatus.unallocated)
      × (new.phase ≡ plan_phase)
      × (new.run_id ≡ row.id)
unfolding new_job
enqueue_plan-new_job fresh clock id db row ws r w p o k l free =
    let run = (step enqueues_plan clock row).0 in
    let (after, done, queued, jobs) =
      enqueue_plan-IsEnqueued (job_hooks fresh) clock id db row ws _ r w p o k l
        (created fresh run db.jobs free) in
    let (phase, same) = queued_phase clock row p in
    (after, new_job (fresh run) run, done, queued, ap (λ t. t.rows) jobs, refl, phase, same)

signaling :
    (clock : ℕ → Time) (row : Run)
    → (row.status ≡ Status.planning) ⊎ (row.status ≡ Status.applying)
    → row.cancel_signaled_at ≡ none
    → let s = step (cancels true false) clock row in
      (s.1 ≡ none)
      × (s.0.status ≡ row.status)
      × (s.0.cancel_signaled_at ≡ some (current_timestamp none (clock 10)))
      × (s.0.id ≡ row.id)
unfolding step
signaling clock row (inl p) n = ground (arith, p, n)
signaling clock row (inr p) n = ground (arith, p, n)

canceling :
    (clock : ℕ → Time) (row : Run) (user : Bool)
    → (row.status ≡ Status.plan_queued) ⊎ (row.status ≡ Status.apply_queued)
    → let s = step (cancels user false) clock row in
      (s.1 ≡ none) × (s.0.status ≡ Status.canceled) × (s.0.id ≡ row.id)
unfolding step
canceling clock row user (inl p) = ground (arith, p)
canceling clock row user (inr p) = ground (arith, p)

run_cancel_job :
    (run : Run) (j : Job) (t : Jobs)
    → find_job run.id t.rows ≡ some j
    → (cancel_for run j).error ≡ none
    → run_hooks (cancel_job ∷ []) run t
      ≡ ok (write_job (cancel_for run j).job (published (cancel_for run j) t))
unfolding run_hooks cancel_job
run_cancel_job run j t f e = rw (run_hooks, cancel_job, f, e) refl

cancel_for-signaled :
    (run : Run) (j : Job)
    → (run.status ≡ Status.planning) ⊎ (run.status ≡ Status.applying)
    → is_some run.cancel_signaled_at ≡ true
    → cancel_for run j ≡ record { job = j; signal = true; force = false; error = none }
unfolding cancel_for
cancel_for-signaled run j p s = ground (arith, p, s)

cancel_for-canceled :
    (run : Run) (j : Job)
    → run.status ≡ Status.canceled
    → is_active j.status ≡ true
    → cancel_for run j ≡ record {
      job = record j { status = JobStatus.canceled };
      signal = false;
      force = false;
      error = none;
    }
unfolding cancel_for
cancel_for-canceled run j p s = ground (arith, p, s)

in_phase :
    {a b : Status}
    → (a ≡ Status.planning) ⊎ (a ≡ Status.applying)
    → b ≡ a
    → (b ≡ Status.planning) ⊎ (b ≡ Status.applying)
in_phase (inl p) e = inl (e ∙ p)
in_phase (inr p) e = inr (e ∙ p)

-- The cancelation of a run by a user, where the run has an active job.
module _ (fresh : Run → TfeId) (clock : ℕ → Time) (id : TfeId) (db : Database Jobs) (row : Run)
    (j : Job) (found : lookup TfeId-discrete id db.runs ≡ some row)
    (job : find_job row.id db.jobs.rows ≡ some j) where
  canceled_with_hooks :
      (user : Bool)
      → (step (cancels user false) clock row).1 ≡ none
      → (step (cancels user false) clock row).0.id ≡ row.id
      → (cancel_for (step (cancels user false) clock row).0 j).error ≡ none
      → let c = cancel_for (step (cancels user false) clock row).0 j in
        (after : Database Jobs) × (new : Run) × (cancel_run (job_hooks fresh) true user clock id db
          ≡ ok (after, (step (cancels user false) clock row).0))
        × (lookup TfeId-discrete id after.runs ≡ some new)
        × (new.status ≡ (step (cancels user false) clock row).0.status)
        × ((t : Time)
            → (step (cancels user false) clock row).0.cancel_signaled_at ≡ some t
            → new.cancel_signaled_at ≡ some t)
        × (after.jobs ≡ write_job c.job (published c db.jobs))
  unfolding cancel_run update_run
  canceled_with_hooks user n same e =
      let run = (step (cancels user false) clock row).0 in
      let (new, u, st, plan, apply) = update_status-succeeds (cancels user false) clock row n in
      let met : find_job run.id db.jobs.rows ≡ some j = rw same job in
      let hook = run_cancel_job run j db.jobs met e in
      let c = cancel_for run j in
      (
        record db {
          runs = insert TfeId-discrete id new db.runs;
          jobs = write_job c.job (published c db.jobs);
        },
        new,
        rw (cancel_run, update_run, found, u, hook) refl,
        lookup-insert_same id new db.runs,
        st,
        (λ t s. update_status-signaled (cancels user false) clock row new t n s u),
        refl,
      )

  -- Where a user cancels a run that is planning or applying, that no one has canceled before, and
  -- whose active job is found, then the run stays in its phase with the time of the signal, which
  -- is that of the clock to the millisecond; the rows of the job have the status and the runner
  -- with which it was found, no other row of a job changes, and one signal is published to the job,
  -- without force.
  pub cancel_run-signals :
      (row.status ≡ Status.planning) ⊎ (row.status ≡ Status.applying)
      → row.cancel_signaled_at ≡ none
      → (after : Database Jobs) × (new : Run) × (cancel_run (job_hooks fresh) true true clock id db
          ≡ ok (after, (step (cancels true false) clock row).0))
        × (lookup TfeId-discrete id after.runs ≡ some new)
        × (new.status ≡ row.status)
        × (new.cancel_signaled_at ≡ some (current_timestamp none (clock 10)))
        × IsWritten j db.jobs.rows after.jobs.rows
        × (after.jobs.signals ≡ db.jobs.signals ++ (j.id, false) ∷ [])
  cancel_run-signals p n =
      let (fine, status, signaled, same) = signaling clock row p n in
      let c =
        cancel_for-signaled (step (cancels true false) clock row).0 j (in_phase p status)
          (ap is_some signaled) in
      let (after, new, done, at, st, time, jobs) =
        canceled_with_hooks true fine same (ap (λ x. x.error) c) in
      let with_signal = record db.jobs { signals = db.jobs.signals ++ (j.id, false) ∷ [] } in
      let table : after.jobs ≡ write_job j with_signal =
        jobs ∙ ap (λ x. write_job x.job (published x db.jobs)) c in
      (
        after,
        new,
        done,
        at,
        st ∙ status,
        time (current_timestamp none (clock 10)) signaled,
        subst (λ t. IsWritten j db.jobs.rows t.rows) (sym table)
            (write_job-IsWritten j with_signal),
        ap (λ t. t.signals) table ∙ write_job-signals j with_signal,
      )

  -- Where a run is canceled that is queued for a phase, and whose active job is found, then the run
  -- and its job are canceled, and no signal is published.
  pub cancel_run-queued :
      (user : Bool)
      → (row.status ≡ Status.plan_queued) ⊎ (row.status ≡ Status.apply_queued)
      → is_active j.status ≡ true
      → (after : Database Jobs) × (new : Run) × (cancel_run (job_hooks fresh) true user clock id db
          ≡ ok (after, (step (cancels user false) clock row).0))
        × (lookup TfeId-discrete id after.runs ≡ some new)
        × (new.status ≡ Status.canceled)
        × (after.jobs ≡ write_job (record j { status = JobStatus.canceled }) db.jobs)
  cancel_run-queued user p active =
      let (fine, status, same) = canceling clock row user p in
      let c = cancel_for-canceled (step (cancels user false) clock row).0 j status active in
      let (after, new, done, at, st, time, jobs) =
        canceled_with_hooks user fine same (ap (λ x. x.error) c) in
      (after, new, done, at, st ∙ status, jobs ∙ ap (λ x. write_job x.job (published x db.jobs)) c)
