-- ===== src/Run/Scheduler/Calls.antt =====
-- The calls that the scheduler makes, and the queue that it keeps.
use otf.Prelude.{
  ◌≡◌, ◌≢◌, true, false, none, some, [], ◌∷◌, ◌++◌, arith, insert, lookup-insert, if◌then◌else◌,
}
use otf.Resource.{TfeId, TfeId-discrete}
use otf.Run.Status.{done, pending}
use otf.Run.Queue.{Queue, SchedulerRun, process}
use otf.Run.Queue.Decisions.{process_pending-enqueue_plan}
use otf.Run.Queue.Order.{entries, contains, scan_lem, process_pending-entries}
use otf.Run.Scheduler.{
  Client, Queues, queue_of, schedule, calls_enqueue_plan, calls_unlock, put_back,
  workspace_already_locked,
}

queue_of-insert :
    (ws : TfeId) (q : Queue) (qs : Queues) → queue_of ws (insert TfeId-discrete ws q qs) ≡ q
unfolding queue_of
queue_of-insert ws q qs = ground (arith, lookup-insert TfeId-discrete ws ws q qs)

-- While another run is current, an event about a run that takes part in the queue calls nothing.
pub schedule_busy-calls :
    (client : Client) (ws c : TfeId) (qs : Queues) (run : SchedulerRun)
    → run.plan_only ≡ false
    → (queue_of ws qs).current ≡ some c
    → c ≢ run.id
    → (schedule client ws qs (some run)).calls ≡ []
unfolding schedule process
schedule_busy-calls client ws c qs run p h n =
    ground (arith, scan_lem run.id (done run.status) (queue_of ws qs).backlog)

-- When the current run, which is not plan-only, reaches an end state, the scheduler's one call is
-- for the plan of the run that waited longest or, if none waits, for the workspace to be unlocked
-- on the run's behalf.
pub schedule-done-calls :
    (client : Client) (ws : TfeId) (qs : Queues) (run : SchedulerRun)
    → run.plan_only ≡ false
    → (queue_of ws qs).current ≡ some run.id
    → done run.status ≡ true
    → (schedule client ws qs (some run)).calls ≡ elim (queue_of ws qs).backlog [
      | [] ↦ calls_unlock ws run.id ∷ []
      | next ∷ rest ↦ calls_enqueue_plan next ∷ []
    ]
unfolding schedule process
schedule-done-calls client ws qs run p h d = ground arith

-- If no run is current and the service answers that the workspace is locked, then a pending run
-- that is not plan-only joins the queue behind the others unless it is in it, none of them is
-- lost, none is current, and there is no error.
pub schedule_locked-entries :
    (client : Client) (ws : TfeId) (qs : Queues) (run : SchedulerRun)
    → run.plan_only ≡ false
    → run.status ≡ pending
    → (queue_of ws qs).current ≡ none
    → ((id : TfeId) → client.enqueue_plan id ≡ some workspace_already_locked)
    → let s = schedule client ws qs (some run) in
      (entries (queue_of ws s.queues) ≡ (
        if contains run.id (entries (queue_of ws qs))
        then entries (queue_of ws qs)
        else entries (queue_of ws qs) ++ run.id ∷ []))
      × ((queue_of ws s.queues).current ≡ none)
      × (s.error ≡ none)
unfolding schedule
schedule_locked-entries client ws qs run p e h locked =
    let q = queue_of ws qs in
    let (on, off, (c, k)) = process_pending-enqueue_plan q run e h in
    let d = process q (some run) in
    ground
      (arith, locked c, process_pending-entries q run e, queue_of-insert ws (put_back d.queue) qs)
