-- ===== src/Run/Queue/Refinement.antt =====
-- The queue of a workspace implements a list of runs whose head is the current one.
use otf.Prelude.{
  ◌≡◌, refl, ap, Bool, true, false, ◌||◌, none, some, List, [], ◌∷◌, ◌++◌, if◌then◌else◌, test,
  Option-cases, inl, inr, arith,
}
use otf.Resource.{TfeId, TfeId-discrete}
use otf.Run.Status.{done}
use otf.Run.Queue.{
  Queue, SchedulerRun, Decision, process, process_run, enlist, next_from, scan, is_pending,
}
use otf.Run.Queue.Order.{entries, contains, erase, scan_lem}

-- The list of runs, with whether the plan of its head is to be enqueued and whether the workspace
-- is to be unlocked.
pub record Turn : Type 0 where
  pub runs : List TfeId
  pub enqueue : Bool
  pub unlock : Bool

abbrev turn : List TfeId → Bool → Bool → Turn
turn l e u = record { runs = l; enqueue = e; unlock = u }

-- The next run has its turn, or the workspace is unlocked.
abbrev pub advance : List TfeId → Turn
advance [] = turn [] false true
advance (b ∷ l) = turn (b ∷ l) true false

-- What an event about a run does to the runs behind the head.
abbrev pub wait : SchedulerRun → List TfeId → List TfeId
wait run l =
    if contains run.id l then (if done run.status then erase run.id l else l) else l ++ run.id ∷ []

abbrev pub take_turn : List TfeId → SchedulerRun → Turn
take_turn [] run = turn (run.id ∷ []) (is_pending run.status || done run.status) false
take_turn (c ∷ l) run =
    if test (TfeId-discrete c run.id)
    then (if done run.status then advance l else turn (c ∷ l) false false)
    else turn (c ∷ wait run l) false false

abbrev turn_of : Decision → Turn
turn_of d = turn (entries d.queue) d.enqueue_plan d.unlock

-- Where no run is current, none waits.
abbrev pub IsSettled : Queue → Type 0
IsSettled q = (q.current ≡ none → q.backlog ≡ [])

settled_none :
    (run : SchedulerRun)
    → let d = process_run none [] run in
      (turn_of d ≡ take_turn [] run) × (d.queue.current ≡ some run.id)
unfolding process_run enlist next_from scan
settled_none run = ground arith

current_run :
    (c : TfeId) (b : List TfeId) (run : SchedulerRun)
    → turn_of (process_run (some c) b run) ≡ take_turn (c ∷ b) run
unfolding process_run enlist next_from
current_run c [] run = ground (arith, scan_lem run.id (done run.status) [])
current_run c (x ∷ b) run = ground (arith, scan_lem run.id (done run.status) (x ∷ b))

current-IsSettled :
    (c : TfeId) (b : List TfeId) (run : SchedulerRun) → IsSettled (process_run (some c) b run).queue
unfolding process_run enlist next_from
current-IsSettled c [] run h = ground (arith, scan_lem run.id (done run.status) [], h)
current-IsSettled c (x ∷ b) run h = ground (arith, scan_lem run.id (done run.status) (x ∷ b), h)

process-take_turn :
    (q : Queue) (run : SchedulerRun)
    → IsSettled q
    → (turn_of (process q (some run)) ≡ take_turn (entries q) run)
      × IsSettled (process q (some run)).queue
unfolding process
process-take_turn q run s = elim (Option-cases q.current) [
  | inl n ↦
      let (same, now) = settled_none run in rw (n, s n) (same, λ h. absurd (ground (arith, now, h)))
  | inr (c, e) ↦ rw e (current_run c q.backlog run, current-IsSettled c q.backlog run)
]

-- The queue after some events, with the turns that they brought.
abbrev pub process_all : Queue → List SchedulerRun → List Turn
process_all q [] = []
process_all q (run ∷ rest) = let d = process q (some run) in turn_of d ∷ process_all d.queue rest

abbrev pub take_turns : List TfeId → List SchedulerRun → List Turn
take_turns l [] = []
take_turns l (run ∷ rest) = let t = take_turn l run in t ∷ take_turns t.runs rest

-- The queue of a workspace, where no run waits without a current one, implements a list of runs:
-- over any events about runs, the current run with those behind it, the plans to be enqueued and
-- the unlocking of the workspace are those of a list in which a run that is not there joins at the
-- end, also one in an end state, whose head takes the workspace, and which a run in an end state
-- leaves.
pub process_all-take_turns :
    (events : List SchedulerRun) (q : Queue)
    → IsSettled q
    → process_all q events ≡ take_turns (entries q) events
process_all-take_turns [] q s = refl
process_all-take_turns (run ∷ rest) q s =
    let (same, after) = process-take_turn q run s in
    let later = process_all-take_turns rest (process q (some run)).queue after in
    rw later (ap (λ t. t ∷ take_turns t.runs rest) same)
