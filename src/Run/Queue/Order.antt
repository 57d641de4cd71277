-- ===== src/Run/Queue/Order.antt =====
-- A queue as the list of its runs in the order in which they are to be planned.
use otf.Prelude.{
  ◌≡◌, refl, Bool, true, false, none, some, List, [], ◌∷◌, ◌++◌, ite, if◌then◌else◌, arith,
}
use otf.Resource.{TfeId, TfeId-discrete}
use otf.Run.Status.{done, pending}
use otf.Run.Queue.{Queue, SchedulerRun, missing, present, removed, scan, process}

-- The current run and those behind it.
abbrev pub entries : Queue → List TfeId
entries q = elim q.current [ none ↦ q.backlog | some c ↦ c ∷ q.backlog ]

abbrev pub contains : TfeId → List TfeId → Bool
contains id [] = false
contains id (j ∷ l) = ite (TfeId-discrete id j) true (contains id l)

-- The list without the first `id`.
abbrev pub erase : TfeId → List TfeId → List TfeId
erase id [] = []
erase id (j ∷ l) = ite (TfeId-discrete id j) l (j ∷ erase id l)

-- The loop over the backlog, against the two functions above.
pub scan_lem :
    (id : TfeId) (finished : Bool) (l : List TfeId)
    → scan id finished l
      ≡ (if contains id l then (if finished then removed (erase id l) else present) else missing)
unfolding scan
scan_lem id finished [] = refl
scan_lem id finished (j ∷ l) = ground (arith, scan_lem id finished l)

-- Without an event nothing joins or leaves the queue.
process-entries : (q : Queue) → entries (process q none).queue ≡ entries q
unfolding process
process-entries q = ground arith

-- A pending run joins the queue at its end, unless it is in it, and no other run moves.
pub process_pending-entries :
    (q : Queue) (run : SchedulerRun)
    → run.status ≡ pending
    → entries (process q (some run)).queue
      ≡ (if contains run.id (entries q) then entries q else entries q ++ run.id ∷ [])
unfolding process
process_pending-entries q run h = ground (arith, scan_lem run.id (done run.status) q.backlog)

-- A run that is in the queue and has reached an end state leaves it, and no other run moves.
pub process-done-entries :
    (q : Queue) (run : SchedulerRun)
    → done run.status ≡ true
    → contains run.id (entries q) ≡ true
    → entries (process q (some run)).queue ≡ erase run.id (entries q)
unfolding process
process-done-entries q run h k = ground (arith, scan_lem run.id (done run.status) q.backlog)

-- A run in an end state that is not in the queue is put at its end all the same.
pub process-done-entries_absent :
    (q : Queue) (run : SchedulerRun)
    → done run.status ≡ true
    → contains run.id (entries q) ≡ false
    → entries (process q (some run)).queue ≡ entries q ++ run.id ∷ []
unfolding process
process-done-entries_absent q run h k = ground (arith, scan_lem run.id (done run.status) q.backlog)
