-- ===== src/Run/Scheduler/Isolation.antt =====
-- The workspaces' queues do not disturb one another.
use otf.Prelude.{
  ◌≡◌, refl, ◌≢◌, Bool, true, false, Option, none, some, List, [], ◌∷◌, arith, insert, delete,
  lookup-insert, lookup-delete, Option-cases, inl, inr,
}
use otf.Resource.{TfeId, TfeId-discrete}
use otf.Run.Queue.{Queue, SchedulerRun, Decision, process}
use otf.Run.Scheduler.{
  Client, Queues, Event, run_deleted, run_changed, workspace_deleted, workspace_changed, queue_of,
  schedule, on_event, decide, Call, settle, enqueue_current, put_back, calls_enqueue_plan,
}

-- The workspace that an event is about.
abbrev pub subject : Event → Option TfeId
subject run_deleted = none
subject (run_changed ws run) = some ws
subject (workspace_deleted ws) = some ws
subject (workspace_changed ws locked) = some ws

queue_of-insert_ne :
    (ws other : TfeId) (q : Queue) (qs : Queues)
    → other ≢ ws
    → queue_of other (insert TfeId-discrete ws q qs) ≡ queue_of other qs
unfolding queue_of
queue_of-insert_ne ws other q qs n = ground (arith, lookup-insert TfeId-discrete ws other q qs)

queue_of-delete_ne :
    (ws other : TfeId) (qs : Queues)
    → other ≢ ws
    → queue_of other (delete TfeId-discrete ws qs) ≡ queue_of other qs
unfolding queue_of
queue_of-delete_ne ws other qs n = ground (arith, lookup-delete TfeId-discrete ws other qs)

module _ (client : Client) (ws other : TfeId) (n : other ≢ ws) where
  settle-other :
      (qs : Queues) (cs : List Call) (q : Queue) (u : Bool) (event : Option SchedulerRun)
      → queue_of other (settle client ws qs cs q u event).queues ≡ queue_of other qs
  unfolding settle
  settle-other qs cs q false event = queue_of-insert_ne ws other q qs n
  settle-other qs cs q true none = refl
  settle-other qs cs q true (some run) = ground (arith, queue_of-insert_ne ws other q qs n)

  enqueue_current-other :
      (qs : Queues) (q : Queue) (u : Bool) (event : Option SchedulerRun)
      → queue_of other (enqueue_current client ws qs q u event).queues ≡ queue_of other qs
  unfolding enqueue_current
  enqueue_current-other qs q u event = elim (Option-cases q.current) [
    | inl e ↦ ground arith
    | inr (c, e) ↦ ground (
      arith,
      settle-other qs (calls_enqueue_plan c ∷ []) q u event,
      settle-other qs (calls_enqueue_plan c ∷ []) (put_back q) u event,
    )
  ]

  decide-other :
      (qs : Queues) (d : Decision) (event : Option SchedulerRun)
      → queue_of other (decide client ws qs d event).queues ≡ queue_of other qs
  unfolding decide
  decide-other qs d event = ground (
    arith,
    enqueue_current-other qs d.queue d.unlock event,
    settle-other qs [] d.queue d.unlock event,
  )

  schedule-other :
      (qs : Queues) (event : Option SchedulerRun)
      → queue_of other (schedule client ws qs event).queues ≡ queue_of other qs
  unfolding schedule
  schedule-other qs none = decide-other qs (process (queue_of ws qs) none) none
  schedule-other qs (some run) =
      ground (arith, decide-other qs (process (queue_of ws qs) (some run)) (some run))

-- An event about one workspace leaves the queue of every other workspace as it was, whatever the
-- services answer.
pub on_event-other :
    (client : Client) (e : Event) (qs : Queues) (other : TfeId)
    → subject e ≢ some other
    → queue_of other (on_event client e qs).queues ≡ queue_of other qs
unfolding on_event
on_event-other client run_deleted qs other n = refl
on_event-other client (run_changed ws run) qs other n =
    schedule-other client ws other (λ p. n (cc)) qs (some run)
on_event-other client (workspace_deleted ws) qs other n =
    queue_of-delete_ne ws other qs (λ p. n (cc))
on_event-other client (workspace_changed ws true) qs other n = refl
on_event-other client (workspace_changed ws false) qs other n =
    schedule-other client ws other (λ p. n (cc)) qs none
