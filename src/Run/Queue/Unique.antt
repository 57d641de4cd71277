-- ===== src/Run/Queue/Unique.antt =====
-- No run is twice in a queue.
use otf.Prelude.{◌≡◌, refl, ◌⊎◌, true, false, Option, none, some, List, [], ◌∷◌, ◌++◌, arith}
use otf.Resource.{TfeId}
use otf.Run.Status.{done, pending}
use otf.Run.Queue.{Queue, SchedulerRun, process, process_run}
use otf.Run.Queue.Order.{entries, contains, erase, scan_lem}

abbrev pub IsUnique : List TfeId → Type 0
IsUnique [] = Unit
IsUnique (x ∷ l) = (contains x l ≡ false) × IsUnique l

contains-erase :
    (x y : TfeId) (l : List TfeId) → contains x l ≡ false → contains x (erase y l) ≡ false
contains-erase x y [] h = refl
contains-erase x y (z ∷ l) h = ground (arith, contains-erase x y l)

erase-IsUnique : (y : TfeId) (l : List TfeId) → IsUnique l → IsUnique (erase y l)
erase-IsUnique y [] h = tt
erase-IsUnique y (x ∷ l) h = ground (arith, erase-IsUnique y l h.1, contains-erase x y l)

contains-snoc :
    (x y : TfeId) (l : List TfeId)
    → contains x l ≡ false
    → (x ≡ y → ⊥)
    → contains x (l ++ y ∷ []) ≡ false
contains-snoc x y [] h n = ground arith
contains-snoc x y (z ∷ l) h n = ground (arith, contains-snoc x y l)

snoc-IsUnique :
    (y : TfeId) (l : List TfeId) → contains y l ≡ false → IsUnique l → IsUnique (l ++ y ∷ [])
snoc-IsUnique y [] h u = (refl, tt)
snoc-IsUnique y (x ∷ l) h u = ground (arith, snoc-IsUnique y l, contains-snoc x y l u.0)

process_run-IsUnique :
    (cur : Option TfeId) (b : List TfeId) (run : SchedulerRun)
    → (run.status ≡ pending) ⊎ ((done run.status ≡ true) ⊎ (contains run.id b ≡ false))
    → IsUnique (entries (record { current = cur; backlog = b }))
    → IsUnique (entries (process_run cur b run).queue)
unfolding process_run
process_run-IsUnique none b run h u =
    ground
      (arith, scan_lem run.id (done run.status) b, erase-IsUnique run.id b, snoc-IsUnique run.id b)
process_run-IsUnique (some c) b run h u = ground (
  arith,
  scan_lem run.id (done run.status) b,
  erase-IsUnique run.id b,
  snoc-IsUnique run.id b,
  contains-erase c run.id b,
  contains-snoc c run.id b,
)

-- If the runs of a queue are distinct, they are so after an event is processed about a run that is
-- pending, or in an end state, or does not wait in the backlog.
pub process-IsUnique :
    (q : Queue) (run : SchedulerRun)
    → (run.status ≡ pending) ⊎ ((done run.status ≡ true) ⊎ (contains run.id q.backlog ≡ false))
    → IsUnique (entries q)
    → IsUnique (entries (process q (some run)).queue)
unfolding process
process-IsUnique q run h u = process_run-IsUnique q.current q.backlog run h u
