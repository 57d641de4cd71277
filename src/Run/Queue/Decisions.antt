-- ===== src/Run/Queue/Decisions.antt =====
-- When `process` asks for a plan, and when for the workspace to be unlocked.
use otf.Prelude.{◌≡◌, ◌↔◌, ◌⊎◌, true, false, none, some, List, [], ◌∷◌, arith, is_some}
use otf.Resource.{TfeId}
use otf.Run.Status.{done, pending}
use otf.Run.Queue.{Queue, SchedulerRun, scan, process, process_run}
use otf.Run.Queue.Order.{entries, scan_lem}

-- An event about a run unlocks the workspace exactly when the run is the current one, has reached
-- an end state, and no run waits behind it.
pub process-unlock_iff :
    (q : Queue) (run : SchedulerRun)
    → ((process q (some run)).unlock ≡ true)
      ↔ ((q.current ≡ some run.id) × (done run.status ≡ true) × (q.backlog ≡ []))
unfolding process
process-unlock_iff q run = ground (arith, scan_lem run.id (done run.status) q.backlog)

-- A plan is asked for only where there was no current run or the current run has reached an end
-- state; then there is a current run, and the workspace is not unlocked.
pub process-enqueue_plan :
    (q : Queue) (run : SchedulerRun)
    → (process q (some run)).enqueue_plan ≡ true
    → ((q.current ≡ none) ⊎ ((q.current ≡ some run.id) × (done run.status ≡ true)))
      × (is_some (process q (some run)).queue.current ≡ true)
      × ((process q (some run)).unlock ≡ false)
unfolding process
process-enqueue_plan q run h = ground (arith, scan_lem run.id (done run.status) q.backlog)

-- A queue that is processed with no event is left idle only if no run waits in it, and it then
-- asks neither for a plan nor for an unlock.
pub process_idle :
    (q : Queue)
    → (process q none).queue.current ≡ none
    → (entries q ≡ []) × ((process q none).enqueue_plan ≡ false) × ((process q none).unlock ≡ false)
unfolding process
process_idle q h = ground arith

first_or : List TfeId → TfeId → TfeId
first_or [] id = id
first_or (x ∷ l) id = x

process_run_pending :
    (b : List TfeId) (run : SchedulerRun)
    → run.status ≡ pending
    → ((process_run none b run).enqueue_plan ≡ true)
      × ((process_run none b run).unlock ≡ false)
      × ((process_run none b run).queue.current ≡ some (first_or b run.id))
unfolding process_run first_or scan
process_run_pending [] run e = ground arith
process_run_pending (x ∷ l) run e = ground (arith, scan_lem run.id (done run.status) (x ∷ l))

-- With no current run, a pending run makes the queue ask for the plan of its first run.
pub process_pending-enqueue_plan :
    (q : Queue) (run : SchedulerRun)
    → run.status ≡ pending
    → q.current ≡ none
    → ((process q (some run)).enqueue_plan ≡ true)
      × ((process q (some run)).unlock ≡ false)
      × ((id : TfeId) × ((process q (some run)).queue.current ≡ some id))
unfolding process
process_pending-enqueue_plan q run e h =
    let (on, off, first) = process_run_pending q.backlog run e in
    (rw (h, process) on, rw (h, process) off, (first_or q.backlog run.id, rw (h, process) first))
