-- ===== src/Run/Scheduler.antt =====
-- internal/run/scheduler.go: the scheduler of runs. The services that it calls are the
-- interfaces of the code, here the answers of a client, and the calls are recorded.
pub mod Isolation
pub mod Calls
use otf.Prelude.{
  Bool, true, false, Option, none, some, List, [], ◌∷◌, ◌++◌, lookup, insert, delete, if◌then◌else◌,
}
use mathlib.Core.List.{reverse}
use otf.Resource.{TfeId, TfeId-discrete}
use otf.Run.Status.{Status, pending}
use otf.Run.Types.{Run}
use otf.Run.Queue.{Queue, SchedulerRun, Decision, process}

-- The error that `EnqueuePlan` returns: the workspace's lock, or any other.
pub data EnqueueError : Type 0 where
  workspace_already_locked other_enqueue_error : EnqueueError

-- The error that `Unlock` returns.
pub data UnlockError : Type 0 where
  resource_not_found other_unlock_error : UnlockError

-- `schedulerRunClient` and `schedulerWorkspaceClient`: `none` is success.
pub record Client : Type 0 where
  pub enqueue_plan : TfeId → Option EnqueueError
  pub unlock : (workspace run : TfeId) → Option UnlockError

pub data Call : Type 0 where
  calls_enqueue_plan : TfeId → Call
  calls_unlock : (workspace run : TfeId) → Call

pub data SchedulerError : Type 0 where
  enqueuing : EnqueueError → SchedulerError
  unlocking : UnlockError → SchedulerError
  -- a nil pointer is read
  fault : SchedulerError

abbrev pub Queues : Type 0
Queues = List (TfeId × Queue)

pub record Scheduled : Type 0 where
  pub queues : Queues
  pub calls : List Call
  pub error : Option SchedulerError

abbrev scheduled : Queues → List Call → Option SchedulerError → Scheduled
scheduled qs cs e = record { queues = qs; calls = cs; error = e }

-- `s.queues[workspaceID]`: a workspace with no queue reads as an empty one.
abbrev or_empty : Option Queue → Queue
or_empty none = record { current = none; backlog = [] }
or_empty (some q) = q

unfoldable pub queue_of : TfeId → Queues → Queue
unfolding lookup
queue_of ws qs = or_empty (lookup TfeId-discrete ws qs)

-- The current run goes back to the front of the backlog.
abbrev pub put_back : Queue → Queue
put_back q = elim q.current [
  | none ↦ q
  | some c ↦ record { current = none; backlog = c ∷ q.backlog }
]

module _ (client : Client) (ws : TfeId) where
  -- The last part of `schedule`: the unlocking, and the write to the map.
  settle : Queues → List Call → Queue → Bool → Option SchedulerRun → Scheduled
  settle qs cs q false event = scheduled (insert TfeId-discrete ws q qs) cs none
  settle qs cs q true none = scheduled qs cs (some fault)
  settle qs cs q true (some run) =
      let cs' = cs ++ calls_unlock ws run.id ∷ [] in
      elim (client.unlock ws run.id) [
        | none ↦ scheduled (insert TfeId-discrete ws q qs) cs' none
        | some resource_not_found ↦ scheduled qs cs' none
        | some other_unlock_error ↦ scheduled qs cs' (some (unlocking other_unlock_error))
      ]

  -- The call of `EnqueuePlan` for the current run.
  enqueue_current : Queues → Queue → Bool → Option SchedulerRun → Scheduled
  unfolding settle
  enqueue_current qs q unlock event = elim q.current [
    | none ↦ scheduled qs [] (some fault)
    | some c ↦ elim (client.enqueue_plan c) [
      | none ↦ settle qs (calls_enqueue_plan c ∷ []) q unlock event
      | some workspace_already_locked ↦
          settle qs (calls_enqueue_plan c ∷ []) (put_back q) unlock event
      | some other_enqueue_error ↦
          scheduled qs (calls_enqueue_plan c ∷ []) (some (enqueuing other_enqueue_error))
    ]
  ]

  decide : Queues → Decision → Option SchedulerRun → Scheduled
  unfolding enqueue_current settle
  decide qs d event =
      if d.enqueue_plan
      then enqueue_current qs d.queue d.unlock event
      else settle qs [] d.queue d.unlock event

  -- The first branch, for a plan-only run.
  schedule_plan_only : Queues → SchedulerRun → Bool → Scheduled
  schedule_plan_only qs run false = scheduled qs [] none
  schedule_plan_only qs run true = elim (client.enqueue_plan run.id) [
    | none ↦ scheduled qs (calls_enqueue_plan run.id ∷ []) none
    | some e ↦ scheduled qs (calls_enqueue_plan run.id ∷ []) (some (enqueuing e))
  ]

  abbrev is_pending : Status → Bool
  is_pending pending = true
  is_pending _ = false

  -- `schedule`.
  unfoldable pub schedule : Queues → Option SchedulerRun → Scheduled
  unfolding decide schedule_plan_only
  schedule qs none = decide qs (process (queue_of ws qs) none) none
  schedule qs (some run) =
      if run.plan_only
      then schedule_plan_only qs run (is_pending run.status)
      else decide qs (process (queue_of ws qs) (some run)) (some run)

-- The events of the two subscriptions, as far as the scheduler reads them.
pub data Event : Type 0 where
  run_deleted : Event
  run_changed : (workspace : TfeId) → SchedulerRun → Event
  workspace_deleted : (workspace : TfeId) → Event
  workspace_changed : (workspace : TfeId) → (locked : Bool) → Event

-- The body of the loop of `Start`.
unfoldable pub on_event : Client → Event → Queues → Scheduled
on_event client run_deleted qs = scheduled qs [] none
on_event client (run_changed ws run) qs = schedule client ws qs (some run)
on_event client (workspace_deleted ws) qs = scheduled (delete TfeId-discrete ws qs) [] none
on_event client (workspace_changed ws true) qs = scheduled qs [] none
on_event client (workspace_changed ws false) qs = schedule client ws qs none

abbrev scheduler_run : Run → SchedulerRun
scheduler_run r = record { id = r.id; status = r.status; plan_only = r.plan_only }

-- A step that fails ends the loop; else the calls of the later steps follow.
abbrev and_then : Scheduled → (Queues → Scheduled) → Scheduled
and_then s k = elim s.error [
  | some e ↦ s
  | none ↦
      let t = k s.queues in
      record { queues = t.queues; calls = s.calls ++ t.calls; error = t.error }
]

-- The loop over the runs that are there when the scheduler starts, oldest first.
seed_from : Client → List Run → Queues → Scheduled
seed_from client [] qs = scheduled qs [] none
seed_from client (r ∷ rs) qs =
    let later = seed_from client rs in
    and_then (schedule client r.workspace_id qs (some (scheduler_run r))) later

-- `ListRuns` gives the newest first.
unfoldable pub seed : Client → List Run → Scheduled
unfolding seed_from
seed client runs = seed_from client (reverse runs) []

-- `Start`, for the events that arrive one after another; an error ends it.
unfoldable pub watch : Client → List Event → Queues → Scheduled
watch client [] qs = scheduled qs [] none
watch client (e ∷ es) qs = let later = watch client es in and_then (on_event client e qs) later
