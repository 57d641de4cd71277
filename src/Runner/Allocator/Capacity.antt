-- ===== src/Runner/Allocator/Capacity.antt =====
-- The tallies of the allocator never pass the capacity of a runner that forks.
use otf.Prelude.{
  ◌+◌, ◌≤◌, ◌≡◌, refl, true, Option, none, some, List, [], ◌∷◌, arith, All, ℤ, pos, negsuc,
  pos_part, neg_part, ◌+ℤ◌, +ℤ_parts, eq_of_parts, insert, lookup, lookup-insert, ite, Option-cases,
  Bool-cases, inl, inr,
}
use otf.Resource.{TfeId, TfeId-discrete}
use otf.Runner.Job.{Job, JobStatus, unallocated, allocated, running, finished, errored, canceled}
use otf.Runner.Meta.{RunnerMeta}
use otf.Runner.Allocator.{
  Allocator, Client, tally, is_fork, fits, available, choose, allocate, allocate_by, place,
  allocate_allocated, complete, is_ready,
}
use otf.Runner.Allocator.Choice.{choose-latest, sort_by_ping-All, head-of_All}

abbrev pub Runners : Type 0
Runners = List (TfeId × RunnerMeta)

abbrev pub Counts : Type 0
Counts = List (TfeId × ℤ)

-- Each runner is kept under its own identifier, once.
abbrev pub IsKeyed : Runners → Type 0
IsKeyed runners = All (λ e. lookup TfeId-discrete e.1.id runners ≡ some e.1) runners

-- A runner that forks has at most as many jobs as it may have.
abbrev pub WithinCapacity : Runners → Counts → Type 0
WithinCapacity runners counts =
    (id : TfeId) (r : RunnerMeta)
    → lookup TfeId-discrete id runners ≡ some r
    → is_fork r.executor_kind ≡ true
    → pos_part (tally id counts) ≤ r.max_jobs + neg_part (tally id counts)

-- There is room for one more job.
abbrev HasRoom : RunnerMeta → Counts → Type 0
HasRoom r counts =
    is_fork r.executor_kind ≡ true
    → pos_part (tally r.id counts) + 1 ≤ r.max_jobs + neg_part (tally r.id counts)

pub tally-insert :
    (k id : TfeId) (v : ℤ) (m : Counts)
    → tally id (insert TfeId-discrete k v m) ≡ ite (TfeId-discrete id k) v (tally id m)
unfolding tally
tally-insert k id v m = ground (arith, lookup-insert TfeId-discrete k id v m)

module _ (runners : Runners) (counts : Counts) (w : WithinCapacity runners counts) where
  pub decrement-WithinCapacity :
      (k : TfeId)
      → WithinCapacity runners (insert TfeId-discrete k (tally k counts +ℤ negsuc 0) counts)
  decrement-WithinCapacity k = λ id r l f. ground (
    arith,
    tally-insert k id (tally k counts +ℤ negsuc 0) counts,
    +ℤ_parts (tally k counts) (negsuc 0),
    w id r l f,
  )

  increment-WithinCapacity :
      (r : RunnerMeta)
      → lookup TfeId-discrete r.id runners ≡ some r
      → HasRoom r counts
      → WithinCapacity runners (insert TfeId-discrete r.id (tally r.id counts +ℤ pos 1) counts)
  increment-WithinCapacity r k room = λ id x l f. ground (
    arith,
    tally-insert r.id id (tally r.id counts +ℤ pos 1) counts,
    +ℤ_parts (tally r.id counts) (pos 1),
    w id x l f,
  )

  fits-HasRoom :
      (job : Job) (r : RunnerMeta)
      → lookup TfeId-discrete r.id runners ≡ some r
      → fits counts job r ≡ true
      → HasRoom r counts
  unfolding fits
  fits-HasRoom job r k e =
      λ f. ground (arith, w r.id r k f, eq_of_parts (pos r.max_jobs) (tally r.id counts))

decrement-HasRoom :
    (r : RunnerMeta) (k : TfeId) (counts : Counts)
    → HasRoom r counts
    → HasRoom r (insert TfeId-discrete k (tally k counts +ℤ negsuc 0) counts)
decrement-HasRoom r k counts room = λ f. ground (
  arith,
  tally-insert k r.id (tally k counts +ℤ negsuc 0) counts,
  +ℤ_parts (tally k counts) (negsuc 0),
  room f,
)

-- The runners of a list are those kept under their identifiers.
abbrev AreKept : Runners → List RunnerMeta → Type 0
AreKept runners = All (λ r. lookup TfeId-discrete r.id runners ≡ some r)

available-AreKept :
    (runners : Runners) (counts : Counts) (job : Job) (l : Runners)
    → All (λ e. lookup TfeId-discrete e.1.id runners ≡ some e.1) l
    → AreKept runners (available counts job l)
unfolding available
available-AreKept runners counts job [] k = tt
available-AreKept runners counts job ((id, r) ∷ l) k =
    ground (arith, available-AreKept runners counts job l k.1)

choose-AreKept : (a : Allocator) (job : Job) → IsKeyed a.runners → AreKept a.runners (choose a job)
unfolding choose
choose-AreKept a job k =
    sort_by_ping-All (λ r. lookup TfeId-discrete r.id a.runners ≡ some r) []
      (available a.current_jobs job a.runners) tt
      (available-AreKept a.runners a.current_jobs job a.runners k)

-- The head of the list is kept, and has room.
abbrev HeadHasRoom : Runners → Counts → List RunnerMeta → Type 0
HeadHasRoom runners counts [] = Unit
HeadHasRoom runners counts (r ∷ rest) =
    (lookup TfeId-discrete r.id runners ≡ some r) × HasRoom r counts

head-HasRoom :
    (a : Allocator) (job : Job) (l : List RunnerMeta)
    → IsKeyed a.runners
    → WithinCapacity a.runners a.current_jobs
    → choose a job ≡ l
    → HeadHasRoom a.runners a.current_jobs l
head-HasRoom a job [] k w e = tt
head-HasRoom a job (r ∷ rest) k w e =
    let kept =
      head-of_All (λ x. lookup TfeId-discrete x.id a.runners ≡ some x) (choose a job) r rest e
        (choose-AreKept a job k) in
    (kept, fits-HasRoom a.runners a.current_jobs w job r kept (choose-latest a job r rest e).0)

abbrev Within : Allocator → Type 0
Within a = WithinCapacity a.runners a.current_jobs

place-Within :
    (client : Client) (job : Job) (from : Option TfeId) (l : List RunnerMeta) (a : Allocator)
    → Within a
    → HeadHasRoom a.runners a.current_jobs l
    → Within (place client job from l a).0
unfolding place
place-Within client job none [] a w h = w
place-Within client job (some from) [] a w h = w
place-Within client job none (r ∷ rest) a w h =
    elim (Option-cases (client.allocate_job job.id r.id)) [
      | inl e ↦ rw (e, place) w
      | inr (x, e) ↦ rw (e, place) (increment-WithinCapacity a.runners a.current_jobs w r h.0 h.1)
    ]
place-Within client job (some from) (r ∷ rest) a w h =
    elim (Option-cases (client.reallocate_job job.id r.id)) [
      | inl e ↦ rw (e, place) w
      | inr (x, e) ↦
          rw (e, place)
            (increment-WithinCapacity a.runners _
              (decrement-WithinCapacity a.runners a.current_jobs w from) r h.0
              (decrement-HasRoom r from a.current_jobs h.1))
    ]

allocate_allocated-Within :
    (client : Client) (job : Job) (id : Option TfeId) (a : Allocator)
    → IsKeyed a.runners
    → Within a
    → Within (allocate_allocated client job id a).0
unfolding allocate_allocated
allocate_allocated-Within client job none a k w = w
allocate_allocated-Within client job (some id) a k w =
    elim (Option-cases (lookup TfeId-discrete id a.runners)) [
      | inl e ↦ rw (e, allocate_allocated) w
      | inr (r, e) ↦ elim (Bool-cases (is_ready r.status)) [
        | inl b ↦ rw (e, allocate_allocated, b) w
        | inr b ↦
            rw (e, allocate_allocated, b)
              (place-Within client job (some id) (choose a job) a w
                (head-HasRoom a job (choose a job) k w refl))
      ]
    ]

complete-Within :
    (job : Job) (id : Option TfeId) (a : Allocator) → Within a → Within (complete job id a)
unfolding complete
complete-Within job none a w = w
complete-Within job (some id) a w = decrement-WithinCapacity a.runners a.current_jobs w id

allocate_by-Within :
    (status : JobStatus) (client : Client) (job : Job) (a : Allocator)
    → IsKeyed a.runners
    → Within a
    → Within (allocate_by status client job a).0
unfolding allocate_by
allocate_by-Within allocated client job a k w =
    allocate_allocated-Within client job job.runner_id a k w
allocate_by-Within finished client job a k w = complete-Within job job.runner_id a w
allocate_by-Within canceled client job a k w = complete-Within job job.runner_id a w
allocate_by-Within errored client job a k w = complete-Within job job.runner_id a w
allocate_by-Within running client job a k w = w
allocate_by-Within unallocated client job a k w =
    place-Within client job none (choose a job) a w (head-HasRoom a job (choose a job) k w refl)

-- If every runner is kept once, under its own identifier, and no runner that forks has more jobs
-- by the allocator's tally than it may have, the same holds of the tallies after a job has been
-- allocated, reallocated or completed, or its allocation has failed.
pub allocate-WithinCapacity :
    (client : Client) (job : Job) (a : Allocator)
    → IsKeyed a.runners
    → WithinCapacity a.runners a.current_jobs
    → WithinCapacity (allocate client job a).0.runners (allocate client job a).0.current_jobs
unfolding allocate
allocate-WithinCapacity client job a k w = allocate_by-Within job.status client job a k w
