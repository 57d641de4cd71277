-- ===== src/Run/Service.antt =====
-- internal/run/service.go: the service's operations on the runs in the database, with the lock of
-- the workspace. An operation is one transaction: it gives the database that it leaves, or an
-- error, which undoes it. The hooks, which the service of runners registers, change a part of the
-- database that is left open here; whether the authorizer permits a call is an argument.
pub mod Enqueue
pub mod Finish
use otf.Prelude.{
  ℕ, Bool, true, false, Option, none, some, List, [], ◌∷◌, if◌then◌else◌, lookup, insert, Result,
  ok, err, ◌>>=◌,
}
use otf.Resource.{TfeId, TfeId-discrete}
use otf.Time.{Time}
use otf.Workspace.Types.{Workspace}
use otf.Workspace.Lock.{LockError, other, service_lock}
use otf.Run.Phase.{PhaseType, plan_phase, apply_phase, Report}
use otf.Run.Types.{Run}
use otf.Run.Lifecycle.{
  Event, enqueues_plan, enqueues_apply, starts, discards, finishes, cancels, step, finish,
}
use otf.Run.Store.{StoreError, update_status}

-- The runs, the workspaces, the column `latest_run_id` of each workspace, and the rest.
pub record Database (J : Type 0) : Type 0 where
  pub runs : List (TfeId × Run)
  pub workspaces : List (TfeId × Workspace)
  pub latest : List (TfeId × TfeId)
  pub jobs : J

pub data ServiceError : Type 0 where
  access_not_permitted run_not_found workspace_not_found hook_failed : ServiceError
  not_updated : StoreError → ServiceError
  not_locked : LockError → ServiceError

-- `none` is an error.
abbrev pub Hook : Type 0 → Type 0
Hook J = Run → J → Option J

pub record Hooks (J : Type 0) : Type 0 where
  pub after_enqueue_plan : List (Hook J)
  pub after_enqueue_apply : List (Hook J)
  pub after_cancel : List (Hook J)
  pub after_force_cancel : List (Hook J)

module _ {J : Type 0} where
  -- The loop over the hooks.
  unfoldable pub run_hooks : List (Hook J) → Run → J → Result ServiceError J
  run_hooks [] run j = ok j
  run_hooks (hook ∷ rest) run j = elim (hook run j) [
    | none ↦ err hook_failed
    | some k ↦ run_hooks rest run k
  ]

  abbrev with_hooks : List (Hook J) → Run → Database J → Result ServiceError (Database J × Run)
  with_hooks hooks run db = do j ← run_hooks hooks run db.jobs; ok (record db { jobs = j }, run)

  -- `s.db.UpdateStatus`: the run that it returns is the one that the operation has changed.
  abbrev updated :
      TfeId → Run → Run × Option StoreError → Database J → Result ServiceError (Database J × Run)
  updated id run (row, none) db =
      ok (record db { runs = insert TfeId-discrete id row db.runs }, run)
  updated id run (row, some e) db = err (not_updated e)

  abbrev update_found :
      Event → (ℕ → Time) → TfeId → Option Run → Database J → Result ServiceError (Database J × Run)
  update_found e clock id none db = err run_not_found
  update_found e clock id (some row) db =
      updated id (step e clock row).0 (update_status e clock row) db

  unfoldable pub update_run :
      Event → (ℕ → Time) → TfeId → Database J → Result ServiceError (Database J × Run)
  update_run e clock id db = update_found e clock id (lookup TfeId-discrete id db.runs) db

  -- `Lock` on behalf of the run, and `SetWorkspaceLatestRun`.
  abbrev locked_for :
      Run → Workspace × Option LockError → Database J → Result ServiceError (Database J)
  locked_for run (ws, some e) db = err (not_locked e)
  locked_for run (ws, none) db = ok (record db {
    workspaces = insert TfeId-discrete run.workspace_id ws db.workspaces;
    latest = insert TfeId-discrete run.workspace_id run.id db.latest;
  })

  abbrev lock_found : Run → Option Workspace → Database J → Result ServiceError (Database J)
  lock_found run none db = err workspace_not_found
  lock_found run (some ws) db = locked_for run (service_lock (some run.id) (other false) ws) db

  unfoldable pub lock_workspace : Run → Database J → Result ServiceError (Database J)
  lock_workspace run db =
      if run.plan_only
      then ok db
      else lock_found run (lookup TfeId-discrete run.workspace_id db.workspaces) db

  module _ (hooks : Hooks J) where
    -- `EnqueuePlan`.
    unfoldable pub enqueue_plan :
        (ℕ → Time) → TfeId → Database J → Result ServiceError (Database J × Run)
    enqueue_plan clock id db = do
      u ← update_run enqueues_plan clock id db
      l ← lock_workspace u.1 u.0
      with_hooks hooks.after_enqueue_plan u.1 l

    -- `StartPhase`.
    unfoldable pub start_phase :
        (ℕ → Time) → TfeId → Database J → Result ServiceError (Database J × Run)
    start_phase clock id db = update_run starts clock id db

    -- `ApplyRun`, `DiscardRun`, `CancelRun` and `ForceCancelRun`; `user` is whether the subject is
    -- one.
    unfoldable pub apply_run :
        (permitted : Bool)
        → (ℕ → Time)
        → TfeId
        → Database J
        → Result ServiceError (Database J × Run)
    apply_run false clock id db = err access_not_permitted
    apply_run true clock id db = do
      u ← update_run enqueues_apply clock id db
      with_hooks hooks.after_enqueue_apply u.1 u.0

    unfoldable pub discard_run :
        (permitted : Bool)
        → (ℕ → Time)
        → TfeId
        → Database J
        → Result ServiceError (Database J × Run)
    discard_run false clock id db = err access_not_permitted
    discard_run true clock id db = update_run discards clock id db

    unfoldable pub cancel_run :
        (permitted user : Bool)
        → (ℕ → Time)
        → TfeId
        → Database J
        → Result ServiceError (Database J × Run)
    cancel_run false user clock id db = err access_not_permitted
    cancel_run true user clock id db = do
      u ← update_run (cancels user false) clock id db
      with_hooks hooks.after_cancel u.1 u.0

    unfoldable pub force_cancel_run :
        (permitted : Bool)
        → (ℕ → Time)
        → TfeId
        → Database J
        → Result ServiceError (Database J × Run)
    force_cancel_run false clock id db = err access_not_permitted
    force_cancel_run true clock id db = do
      u ← update_run (cancels true true) clock id db
      with_hooks hooks.after_force_cancel u.1 u.0

    -- The transaction of `FinishPhase`; `permitted` and `clock'` are those of `ApplyRun`.
    abbrev autoapply_of : PhaseType → Bool → (ℕ → Time) → Option Run → Bool
    autoapply_of phase failed clock none = false
    autoapply_of phase failed clock (some row) = (finish phase failed clock row).autoapply

    -- `if autoapply { return s.ApplyRun(ctx, runID) }`.
    abbrev apply_if :
        Bool
        → (permitted : Bool) → (ℕ → Time)
        → TfeId
        → Database J × Run
        → Result ServiceError (Database J × Run)
    apply_if false permitted clock id u = ok u
    apply_if true permitted clock id u = apply_run permitted clock id u.0 >>= λ a. ok (a.0, u.1)

    unfoldable pub finish_phase_tx :
        PhaseType
        → (failed : Bool) → (permitted : Bool) → (clock clock' : ℕ → Time) → TfeId
        → Database J
        → Result ServiceError (Database J × Run)
    finish_phase_tx phase failed permitted clock clock' id db = do
      u ← update_run (finishes phase failed) clock id db
      apply_if (autoapply_of phase failed clock (lookup TfeId-discrete id db.runs)) permitted clock'
          id u

    abbrev set_reports : PhaseType → Report × Report → Run → Run
    set_reports plan_phase (resources, outputs) run = record run {
      plan = record run.plan { resource_report = some resources; output_report = some outputs };
    }
    set_reports apply_phase (resources, outputs) run = record run {
      apply = record run.apply { resource_report = some resources };
    }
    set_reports _ reports run = run

    -- `createReports`, whose reports are compiled from files; `none` is an error.
    abbrev create_reports :
        PhaseType → Option (Report × Report) → Option Run → TfeId → Database J → Database J
    create_reports phase none row id db = db
    create_reports phase (some reports) none id db = db
    create_reports phase (some reports) (some row) id db = record db {
      runs = insert TfeId-discrete id (set_reports phase reports row) db.runs;
    }

    abbrev is_none : Option (Report × Report) → Bool
    is_none none = true
    is_none (some r) = false

    -- The database that a transaction leaves, beside its result.
    abbrev committed :
        Database J → Result ServiceError (Database J × Run) → Database J × Result ServiceError Run
    committed db (ok (after, run)) = (after, ok run)
    committed db (err e) = (db, err e)

    -- `FinishPhase`. The reports are written before the transaction, so they stay if it fails; a
    -- phase whose reports cannot be made counts as failed.
    unfoldable pub finish_phase :
        PhaseType
        → (failed : Bool) → Option (Report × Report)
        → (permitted : Bool) → (clock clock' : ℕ → Time) → TfeId
        → Database J
        → Database J × Result ServiceError Run
    finish_phase phase true reports permitted clock clock' id db =
        committed db (finish_phase_tx phase true permitted clock clock' id db)
    finish_phase phase false reports permitted clock clock' id db =
        let reported = create_reports phase reports (lookup TfeId-discrete id db.runs) id db in
        committed reported
          (finish_phase_tx phase (is_none reports) permitted clock clock' id reported)
