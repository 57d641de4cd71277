-- ===== src/Run/Queue.antt =====
-- internal/run/scheduler.go: the queue of a workspace's runs, and `process`. The slices are read
-- as values: no slice that the code writes in place is still read elsewhere.
pub mod Order
pub mod Decisions
pub mod Unique
pub mod Refinement
use otf.Prelude.{
  Bool, true, false, not, ◌&&◌, Option, none, some, List, [], ◌∷◌, ◌++◌, ite, if◌then◌else◌,
}
use otf.Resource.{TfeId, TfeId-discrete}
use otf.Run.Status.{Status, pending, done}

pub record Queue : Type 0 where
  pub current : Option TfeId
  pub backlog : List TfeId

pub record SchedulerRun : Type 0 where
  pub id : TfeId
  pub status : Status
  pub plan_only : Bool

-- The results of `process`.
pub record Decision : Type 0 where
  pub queue : Queue
  pub enqueue_plan : Bool
  pub unlock : Bool

-- How the loop over the backlog ends: at its end, at the run, or at the run with the rest of the
-- slice closed over it.
pub data Scan : Type 0 where
  missing present : Scan
  removed : List TfeId → Scan

abbrev prepend : TfeId → Scan → Scan
prepend j missing = missing
prepend j present = present
prepend j (removed l) = removed (j ∷ l)

unfoldable pub scan : TfeId → Bool → List TfeId → Scan
scan id finished [] = missing
scan id finished (j ∷ rest) =
    let later = prepend j (scan id finished rest) in
    ite (TfeId-discrete id j) (if finished then removed rest else present) later

abbrev decision : Queue → Bool → Bool → Decision
decision q e u = record { queue = q; enqueue_plan = e; unlock = u }

-- The last `if` of `process`.
next_from : Option TfeId → List TfeId → Bool → Decision
next_from none (id ∷ rest) unlock =
    decision (record { current = some id; backlog = rest }) true false
next_from none [] unlock = decision (record { current = none; backlog = [] }) false unlock
next_from (some c) backlog unlock =
    decision (record { current = some c; backlog = backlog }) false unlock

abbrev is_pending : Status → Bool
is_pending pending = true
is_pending _ = false

-- The backlog's part of `process`, for a run that is not the current one.
enlist : Option TfeId → List TfeId → TfeId → Scan → Decision
enlist current backlog id missing = next_from current (backlog ++ id ∷ []) false
enlist current backlog id present = next_from current backlog false
enlist current backlog id (removed l) =
    decision (record { current = current; backlog = l }) false false

process_run : Option TfeId → List TfeId → SchedulerRun → Decision
unfolding enlist next_from
process_run (some c) backlog run =
    ite (TfeId-discrete c run.id)
      (if done run.status then next_from none backlog true else next_from (some c) backlog false)
      (enlist (some c) backlog run.id (scan run.id (done run.status) backlog))
process_run none backlog run =
    if not (is_pending run.status) && not (done run.status)
    then decision (record { current = some run.id; backlog = backlog }) false false
    else enlist none backlog run.id (scan run.id (done run.status) backlog)

-- `process`.
unfoldable pub process : Queue → Option SchedulerRun → Decision
unfolding process_run next_from
process q none = next_from q.current q.backlog false
process q (some run) = process_run q.current q.backlog run
