-- ===== src/Tests/Queues.antt =====
-- The theorems on the queue of a workspace and on the scheduler, at concrete queues.
use otf.Prelude.{◌≡◌, refl, none, some, List, [], ◌∷◌, arith, String-discrete, refute, lookup}
use otf.Resource.{TfeId-discrete}
use otf.Run.Status.{Status, pending}
use otf.Run.Queue.{Queue, SchedulerRun}
use otf.Run.Queue.Order.{entries}
use otf.Run.Queue.Refinement.{process_all, take_turns, process_all-take_turns}
use otf.Run.Scheduler.{
  Client, EnqueueError, Queues, calls_enqueue_plan, run_changed, on_event, schedule, queue_of,
}
use otf.Run.Scheduler.Isolation.{on_event-other}
use otf.Run.Scheduler.Calls.{schedule-done-calls}
use otf.Tests.Samples.{run_id, workspace_id, event_of, busy_queue}

abbrev idle_queue : Queue
idle_queue = record { current = none; backlog = [] }

abbrev some_events : List SchedulerRun
some_events =
    event_of "4" pending
    ∷ event_of "2" Status.canceled
    ∷ event_of "1" Status.applied
    ∷ event_of "3" pending
    ∷ []

process_all-take_turns_example :
    process_all busy_queue some_events ≡ take_turns (entries busy_queue) some_events
process_all-take_turns_example =
    process_all-take_turns some_events busy_queue (λ h. absurd (ground (arith, h)))

abbrev two_queues : Queues
two_queues = (workspace_id "dev", busy_queue) ∷ (workspace_id "prod", idle_queue) ∷ []

abbrev obliging : Client
obliging = record { enqueue_plan = λ id. none; unlock = λ ws run. none }

abbrev locked_out : Client
locked_out = record {
  enqueue_plan = λ id. some EnqueueError.workspace_already_locked;
  unlock = λ ws run. none;
}

on_event-other_example :
    queue_of
      (workspace_id "prod")
      (on_event obliging
        (run_changed (workspace_id "dev") (event_of "4" pending))
        two_queues).queues
    ≡ queue_of (workspace_id "prod") two_queues
unfolding TfeId-discrete String-discrete
on_event-other_example =
    on_event-other obliging (run_changed (workspace_id "dev") (event_of "4" pending)) two_queues
      (workspace_id "prod")
      (λ p. refute (TfeId-discrete (workspace_id "dev") (workspace_id "prod")) refl (cc p))

schedule-done-calls_example :
    (schedule obliging (workspace_id "dev") two_queues (some (event_of "1" Status.applied))).calls
    ≡ calls_enqueue_plan (run_id "2") ∷ []
unfolding TfeId-discrete String-discrete queue_of lookup
schedule-done-calls_example =
    schedule-done-calls obliging (workspace_id "dev") two_queues (event_of "1" Status.applied) refl
      refl refl
