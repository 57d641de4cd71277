-- ===== src/Tests/Services.antt =====
-- The theorems on the service, on the database of runs and on logs, at concrete data.
use otf.Prelude.{
  suc, ℕ, ◌≡◌, refl, true, false, none, some, List, [], ◌∷◌, lookup, String-discrete, ok,
}
use otf.Resource.{TfeId-discrete, username}
use otf.Time.{Time}
use otf.Workspace.Types.{Workspace}
use otf.Run.Status.{apply_queued}
use otf.Run.Phase
use otf.Run.Types.{Run}
use otf.Run.Create.{new_run}
use otf.Run.Lifecycle.{Event, enqueues_plan, starts, cancels, finishes, step}
use otf.Run.Store.{update_status}
use otf.Run.Store.Written.{update_status-succeeds}
use otf.Run.Chunk.{Chunk}
use otf.Run.Service.{Database, Hooks, run_hooks, finish_phase_tx}
use otf.Run.Service.Finish.{finish_phase_tx-autoapply}
use otf.Tests.Samples.{clock_at, dev, run_id, workspace_id, pending_run, planning_run}

update_status-succeeds_example :
    (r : Run) × (update_status enqueues_plan (clock_at 1) pending_run ≡ (r, none))
    × (r.status ≡ (step enqueues_plan (clock_at 1) pending_run).0.status)
    × (r.plan.status ≡ (step enqueues_plan (clock_at 1) pending_run).0.plan.status)
    × (r.apply.status ≡ (step enqueues_plan (clock_at 1) pending_run).0.apply.status)
unfolding step new_run
update_status-succeeds_example = update_status-succeeds enqueues_plan (clock_at 1) pending_run refl

abbrev some_calls : List (Event × (ℕ → Time))
some_calls =
    (enqueues_plan, clock_at 1)
    ∷ (starts, clock_at 2)
    ∷ (cancels true false, clock_at 3)
    ∷ (finishes Phase.plan_phase true, clock_at 4)
    ∷ []

-- Hooks that count the jobs.
abbrev counting : Hooks ℕ
counting = record {
  after_enqueue_plan = (λ run j. some (suc j)) ∷ [];
  after_enqueue_apply = (λ run j. some (suc j)) ∷ [];
  after_cancel = [];
  after_force_cancel = [];
}

abbrev database : Run → Workspace → Database ℕ
database run ws = record {
  runs = (run_id "1", run) ∷ [];
  workspaces = (workspace_id "dev", ws) ∷ [];
  latest = [];
  jobs = 0;
}

abbrev held_by_ann : Workspace
held_by_ann = record dev { lock = some (username "ann") }

finish_phase_tx-autoapply_example :
    (after : Database ℕ) × (new : Run) × (finish_phase_tx counting Phase.plan_phase false true
        (clock_at 11)
        (clock_at 12)
        (run_id "1")
        (database planning_run dev)
      ≡ ok (after, (step (finishes Phase.plan_phase false) (clock_at 11) planning_run).0))
    × (lookup TfeId-discrete (run_id "1") after.runs ≡ some new)
    × (new.status ≡ apply_queued)
    × (new.plan.status ≡ Phase.finished)
    × (new.apply.status ≡ Phase.queued)
unfolding lookup TfeId-discrete String-discrete new_run run_hooks Phase.has_changes
finish_phase_tx-autoapply_example =
    finish_phase_tx-autoapply counting (clock_at 11) (clock_at 12) (run_id "1")
      (database planning_run dev) planning_run refl refl refl refl refl (λ run. (1, refl))

abbrev log_chunk : Chunk
log_chunk = record {
  id = none;
  run_id = some (run_id "1");
  phase = some Phase.plan_phase;
  offset = 10;
  bytes = 2 ∷ 65 ∷ 66 ∷ 3 ∷ [];
}
