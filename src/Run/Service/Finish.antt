-- ===== src/Run/Service/Finish.antt =====
-- What the end of a plan does with the run.
use otf.Prelude.{ℕ, ◌≡◌, refl, ◌⊎◌, true, false, none, some, arith, lookup, insert, ok}
use otf.Resource.{TfeId, TfeId-discrete}
use otf.Time.{Time}
use otf.Run.Status.{planning, planned, cost_estimated, apply_queued}
use otf.Run.Phase.{plan_phase}
use otf.Run.Phase
use otf.Run.Types.{Run}
use otf.Run.Lifecycle.{enqueues_apply, finishes, step, finish, has_changes}
use otf.Run.Store.Written.{update_status-succeeds}
use otf.Run.Service.{Database, Hooks, run_hooks, update_run, apply_run, finish_phase_tx}
use otf.Run.Service.Enqueue.{lookup-insert_same}

-- The end of a plan that is applied automatically.
step-finish_plan :
    (clock : ℕ → Time) (row : Run)
    → row.status ≡ planning
    → has_changes row ≡ true
    → row.plan_only ≡ false
    → row.auto_apply ≡ true
    → let s = step (finishes plan_phase false) clock row in
      (s.1 ≡ none)
      × ((finish plan_phase false clock row).autoapply ≡ true)
      × ((s.0.status ≡ planned) ⊎ (s.0.status ≡ cost_estimated))
      × (s.0.plan.status ≡ Phase.finished)
unfolding step Phase.has_changes
step-finish_plan clock row p c o a = ground arith

-- The apply of a run whose plan has ended.
step-enqueue_apply :
    (clock : ℕ → Time) (row : Run)
    → (row.status ≡ planned) ⊎ (row.status ≡ cost_estimated)
    → let s = step enqueues_apply clock row in
      (s.1 ≡ none)
      × (s.0.status ≡ apply_queued)
      × (s.0.apply.status ≡ Phase.queued)
      × (s.0.plan.status ≡ row.plan.status)
unfolding step
step-enqueue_apply clock row d = ground arith

-- If a plan that has changes, and that is not of a plan-only run, ends without failing, and the run
-- is set to apply automatically, then, where the subject may apply runs and the hooks
-- succeed, the transaction succeeds, and it leaves the plan finished and the apply queued.
pub finish_phase_tx-autoapply :
    {J : Type 0} (hooks : Hooks J) (clock clock' : ℕ → Time) (id : TfeId) (db : Database J)
    (row : Run)
    → lookup TfeId-discrete id db.runs ≡ some row
    → row.status ≡ planning
    → has_changes row ≡ true
    → row.plan_only ≡ false
    → row.auto_apply ≡ true
    → ((run : Run) → (j : J) × (run_hooks hooks.after_enqueue_apply run db.jobs ≡ ok j))
    → (after : Database J) × (new : Run) × (finish_phase_tx hooks plan_phase false true clock clock'
          id db
        ≡ ok (after, (step (finishes plan_phase false) clock row).0))
      × (lookup TfeId-discrete id after.runs ≡ some new)
      × (new.status ≡ apply_queued)
      × (new.plan.status ≡ Phase.finished)
      × (new.apply.status ≡ Phase.queued)
unfolding finish_phase_tx update_run apply_run
finish_phase_tx-autoapply hooks clock clock' id db row r p c o a hs =
    let (n, auto, d, f) = step-finish_plan clock row p c o a in
    let (mid, u, st, pl, ap) = update_status-succeeds (finishes plan_phase false) clock row n in
    let (n', q, ap', pl') = step-enqueue_apply clock' mid (rw st d) in
    let (new, u', st2, pl2, ap2) = update_status-succeeds enqueues_apply clock' mid n' in
    let (j, h) = hs (step enqueues_apply clock' mid).0 in
    let runs = insert TfeId-discrete id mid db.runs in
    let after : Database _ = record db { runs = insert TfeId-discrete id new runs; jobs = j } in
    (
      after,
      new,
      rw
          (
            finish_phase_tx,
            update_run,
            r,
            u,
            auto,
            apply_run,
            lookup-insert_same id mid db.runs,
            u',
            h,
          )
          refl,
      lookup-insert_same id new runs,
      cc (st2, q),
      cc (pl2, pl', pl, f),
      cc (ap2, ap'),
    )
