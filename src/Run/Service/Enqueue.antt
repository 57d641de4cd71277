-- ===== src/Run/Service/Enqueue.antt =====
-- What the enqueuing of a plan does with the run and with the lock of its workspace.
use otf.Prelude.{
  ℕ, ◌≡◌, refl, String, Bool, true, false, Option, none, some, List, arith, lookup, insert,
  lookup-insert, ok, err,
}
use otf.Resource.{ResourceId, kind_of, TfeId, TfeId-discrete, tfe, username, run_kind}
use otf.Time.{Time}
use otf.Workspace.Types.{Workspace}
use otf.Workspace.Lock.{
  already_locked, other, service_lock, is_run, toggle_lock, enlock, lock_columns,
}
use otf.Workspace.Lock.Owner.{service_lock-user_held}
use otf.Run.Status.{pending, plan_queued}
use otf.Run.Phase
use otf.Run.Types.{Run}
use otf.Run.Lifecycle.{enqueues_plan, step}
use otf.Run.Store.Written.{update_status-succeeds}
use otf.Run.Service.{
  Database, not_locked, Hooks, run_hooks, update_run, lock_workspace, enqueue_plan,
}

-- The run that a pending run becomes.
step-enqueue_plan :
    (clock : ℕ → Time) (row : Run)
    → row.status ≡ pending
    → let s = step enqueues_plan clock row in
      (s.1 ≡ none)
      × (s.0.status ≡ plan_queued)
      × (s.0.plan.status ≡ Phase.queued)
      × (s.0.workspace_id ≡ row.workspace_id)
      × (s.0.plan_only ≡ row.plan_only)
      × (s.0.id ≡ row.id)
unfolding step
step-enqueue_plan clock row p = ground arith

-- While a user holds the lock of the workspace, the plan of a pending run that is not plan-only
-- cannot be enqueued, and the error is that the workspace is locked.
pub enqueue_plan-user_held :
    {J : Type 0} (hooks : Hooks J) (clock : ℕ → Time) (id : TfeId) (db : Database J) (row : Run)
    (ws : Workspace) (name : String)
    → lookup TfeId-discrete id db.runs ≡ some row
    → lookup TfeId-discrete row.workspace_id db.workspaces ≡ some ws
    → row.status ≡ pending
    → row.plan_only ≡ false
    → row.id.kind ≡ run_kind
    → ws.lock ≡ some (username name)
    → enqueue_plan hooks clock id db ≡ err (not_locked already_locked)
unfolding enqueue_plan update_run lock_workspace
enqueue_plan-user_held hooks clock id db row ws name r w p o k l =
    let (n, s, q, wid, po, rid) = step-enqueue_plan clock row p in
    let (new, u, st, plan, apply) = update_status-succeeds enqueues_plan clock row n in
    let run = (step enqueues_plan clock row).0 in
    let only : run.plan_only ≡ false = cc (po, o) in
    let found : lookup TfeId-discrete run.workspace_id db.workspaces ≡ some ws = cc (wid, w) in
    let refused = service_lock-user_held run.id (other false) name ws (cc (rid, k)) l in
    rw (enqueue_plan, update_run, r, u, lock_workspace, only, found, refused) refl

-- No user holds the lock.
abbrev pub no_user : Option ResourceId → Bool
no_user none = true
no_user (some holder) = is_run (kind_of holder)

service_lock-no_user :
    (run : TfeId) (ws : Workspace)
    → run.kind ≡ run_kind
    → no_user ws.lock ≡ true
    → service_lock (some run) (other false) ws ≡ (record ws { lock = some (tfe run) }, none)
unfolding service_lock toggle_lock enlock lock_columns
service_lock-no_user run ws k h = ground arith

pub lookup-insert_same :
    {V : Type 0} (k : TfeId) (v : V) (m : List (TfeId × V))
    → lookup TfeId-discrete k (insert TfeId-discrete k v m) ≡ some v
lookup-insert_same k v m = ground (arith, lookup-insert TfeId-discrete k k v m)

-- What the database holds once the plan of the run is enqueued.
abbrev pub IsEnqueued :
    {J : Type 0} → Database J → (id : TfeId) → (row : Run) → (ws : Workspace) → Type 0
IsEnqueued db id row ws =
    ((new : Run) × (lookup TfeId-discrete id db.runs ≡ some new)
      × (new.status ≡ plan_queued)
      × (new.plan.status ≡ Phase.queued))
    × (lookup TfeId-discrete row.workspace_id db.workspaces
        ≡ some (record ws { lock = some (tfe row.id) }))
    × (lookup TfeId-discrete row.workspace_id db.latest ≡ some row.id)

-- For a pending run that is not plan-only, of a workspace whose lock no user holds, and with hooks
-- that succeed, enqueuing the plan succeeds: the run and its plan are queued, the run holds the
-- lock of the workspace, it is the workspace's latest, and the rest is what the hooks leave.
pub enqueue_plan-IsEnqueued :
    {J : Type 0} (hooks : Hooks J) (clock : ℕ → Time) (id : TfeId) (db : Database J) (row : Run)
    (ws : Workspace) (j : J)
    → lookup TfeId-discrete id db.runs ≡ some row
    → lookup TfeId-discrete row.workspace_id db.workspaces ≡ some ws
    → row.status ≡ pending
    → row.plan_only ≡ false
    → row.id.kind ≡ run_kind
    → no_user ws.lock ≡ true
    → run_hooks hooks.after_enqueue_plan (step enqueues_plan clock row).0 db.jobs ≡ ok j
    → (after : Database J) × (enqueue_plan hooks clock id db
        ≡ ok (after, (step enqueues_plan clock row).0))
      × IsEnqueued after id row ws
      × (after.jobs ≡ j)
unfolding enqueue_plan update_run lock_workspace
enqueue_plan-IsEnqueued hooks clock id db row ws j r w p o k l hs =
    let (n, s, q, wid, po, rid) = step-enqueue_plan clock row p in
    let (new, u, st, plan, apply) = update_status-succeeds enqueues_plan clock row n in
    let run = (step enqueues_plan clock row).0 in
    let only : run.plan_only ≡ false = cc (po, o) in
    let found : lookup TfeId-discrete run.workspace_id db.workspaces ≡ some ws = cc (wid, w) in
    let taken = service_lock-no_user run.id ws (cc (rid, k)) l in
    let after : Database _ = record {
      runs = insert TfeId-discrete id new db.runs;
      workspaces =
          insert TfeId-discrete run.workspace_id (record ws { lock = some (tfe run.id) })
            db.workspaces;
      latest = insert TfeId-discrete run.workspace_id run.id db.latest;
      jobs = j;
    } in
    (
      after,
      rw (enqueue_plan, update_run, r, u, lock_workspace, only, found, taken, hs) refl,
      (
        (new, lookup-insert_same id new db.runs, cc (st, s), cc (plan, q)),
        cc (
          wid,
          rid,
          lookup-insert_same run.workspace_id (record ws { lock = some (tfe run.id) })
              db.workspaces,
        ),
        cc (wid, rid, lookup-insert_same run.workspace_id run.id db.latest),
      ),
      refl,
    )
