-- ===== src/Runner/Allocator/Rounds.antt =====
-- The capacity of the runners, over all rounds of the allocator.
use otf.Prelude.{
  ◌≤◌, ◌≡◌, refl, sym, subst, true, Option, none, some, List, [], ◌∷◌, arith, All, pos, insert,
  lookup, lookup-insert, lookup-delete, Option-cases, Bool-cases, inl, inr,
}
use otf.Resource.{TfeId, TfeId-discrete}
use otf.Runner.Job.{Job, JobStatus, unallocated, allocated, running, finished, errored, canceled}
use otf.Runner.Meta.{RunnerMeta, RunnerStatus}
use otf.Runner.Allocator.{
  Allocator, Client, tally, is_fork, allocate, allocate_by, allocate_allocated, complete, place,
  choose, allocate_all, Event, runner_created, runner_updated, runner_deleted, job_created,
  job_updated, job_deleted, on_event, forget_job, round, add_runner, delete_runner, add_runners,
  add_jobs, skips, seed, watch, start,
}
use otf.Runner.Allocator.Capacity.{
  WithinCapacity, allocate-WithinCapacity, decrement-WithinCapacity, tally-insert,
}
use otf.Runner.Allocator.Indexed.{
  AreIndexed, insert-AreIndexed, delete-AreIndexed, lookup-AreIndexed, AreIndexed-IsKeyed,
}

-- What holds of the allocator between its steps.
abbrev IsSound : Allocator → Type 0
IsSound a = AreIndexed a.runners × WithinCapacity a.runners a.current_jobs

-- A runner that forks has at most as many jobs as it may have.
abbrev pub IsFit : RunnerMeta → Type 0
IsFit r = is_fork r.executor_kind ≡ true → r.current_jobs ≤ r.max_jobs

add_runner-IsSound :
    (r : RunnerMeta) (a : Allocator) → IsFit r → IsSound a → IsSound (add_runner r a)
unfolding add_runner
add_runner-IsSound r a f h = (
  insert-AreIndexed r a.runners h.0,
  λ id x l k. ground (
    arith,
    lookup-insert TfeId-discrete r.id id r a.runners,
    tally-insert r.id id (pos r.current_jobs) a.current_jobs,
    h.1 id x,
    f,
  ),
)

delete_runner-IsSound : (k : TfeId) (a : Allocator) → IsSound a → IsSound (delete_runner k a)
unfolding delete_runner tally
delete_runner-IsSound k a h = (
  delete-AreIndexed k a.runners h.0,
  λ id x l f. ground (
    arith,
    lookup-delete TfeId-discrete k id a.runners,
    lookup-delete TfeId-discrete k id a.current_jobs,
    h.1 id x,
  ),
)

place-runners :
    (client : Client) (job : Job) (from : Option TfeId) (l : List RunnerMeta) (a : Allocator)
    → (place client job from l a).0.runners ≡ a.runners
unfolding place
place-runners client job none [] a = refl
place-runners client job (some id) [] a = refl
place-runners client job none (r ∷ l) a = ground arith
place-runners client job (some id) (r ∷ l) a = ground arith

allocate_allocated-runners :
    (client : Client) (job : Job) (id : Option TfeId) (a : Allocator)
    → (allocate_allocated client job id a).0.runners ≡ a.runners
unfolding allocate_allocated
allocate_allocated-runners client job none a = refl
allocate_allocated-runners client job (some id) a =
    ground (arith, place-runners client job (some id) (choose a job) a)

complete-runners :
    (job : Job) (id : Option TfeId) (a : Allocator) → (complete job id a).runners ≡ a.runners
unfolding complete
complete-runners job none a = refl
complete-runners job (some id) a = refl

allocate_by-runners :
    (status : JobStatus) (client : Client) (job : Job) (a : Allocator)
    → (allocate_by status client job a).0.runners ≡ a.runners
unfolding allocate_by
allocate_by-runners allocated client job a = allocate_allocated-runners client job job.runner_id a
allocate_by-runners finished client job a = complete-runners job job.runner_id a
allocate_by-runners canceled client job a = complete-runners job job.runner_id a
allocate_by-runners errored client job a = complete-runners job job.runner_id a
allocate_by-runners running client job a = refl
allocate_by-runners unallocated client job a = place-runners client job none (choose a job) a

allocate-IsSound :
    (client : Client) (job : Job) (a : Allocator) → IsSound a → IsSound (allocate client job a).0
unfolding allocate
allocate-IsSound client job a h = (
  subst AreIndexed (sym (allocate_by-runners job.status client job a)) h.0,
  allocate-WithinCapacity client job a (AreIndexed-IsKeyed a.runners h.0) h.1,
)

allocate_all-IsSound :
    (client : Client) (l : List (TfeId × Job)) (a : Allocator)
    → IsSound a
    → IsSound (allocate_all client l a).0
unfolding allocate_all
allocate_all-IsSound client [] a h = h
allocate_all-IsSound client ((id, job) ∷ l) a h =
    let s = allocate-IsSound client job a h in
    elim (Option-cases ((allocate client job a).1)) [
      | inl e ↦ rw (allocate_all, e) (allocate_all-IsSound client l (allocate client job a).0 s)
      | inr (x, e) ↦ rw (allocate_all, e) s
    ]

-- An event that brings a runner brings one that is fit.
abbrev pub BringsFit : Event → Type 0
BringsFit (runner_created r) = IsFit r
BringsFit _ = Unit

set_runner-IsSound :
    (id : TfeId) (r : RunnerMeta) (status : RunnerStatus) (a : Allocator)
    → lookup TfeId-discrete id a.runners ≡ some r
    → IsSound a
    → IsSound
        (record a { runners = insert TfeId-discrete id (record r { status = status }) a.runners })
set_runner-IsSound id r status a e h =
    let same = lookup-AreIndexed id r a.runners h.0 e in
    (
      subst (λ k. AreIndexed (insert TfeId-discrete k (record r { status = status }) a.runners))
          (sym same) (insert-AreIndexed (record r { status = status }) a.runners h.0),
      λ x y l f. ground (
        arith,
        lookup-insert TfeId-discrete id x (record r { status = status }) a.runners,
        h.1 x r,
        h.1 x y,
      ),
    )

forget_job-IsSound :
    (job : Option Job) (id : TfeId) (a : Allocator) → IsSound a → IsSound (forget_job job id a)
unfolding forget_job
forget_job-IsSound none id a h = h
forget_job-IsSound (some job) id a h = elim (Option-cases job.runner_id) [
  | inl e ↦ rw (forget_job, e) h
  | inr (r, e) ↦ rw (forget_job, e) (h.0, decrement-WithinCapacity a.runners a.current_jobs h.1 r)
]

on_event-IsSound : (e : Event) (a : Allocator) → BringsFit e → IsSound a → IsSound (on_event e a).0
unfolding on_event
on_event-IsSound (runner_created r) a f h = add_runner-IsSound r a f h
on_event-IsSound (runner_updated id status) a f h =
    elim (Option-cases (lookup TfeId-discrete id a.runners)) [
      | inl e ↦ rw (on_event, e) h
      | inr (r, e) ↦ rw (on_event, e) (set_runner-IsSound id r status a e h)
    ]
on_event-IsSound (runner_deleted id) a f h = delete_runner-IsSound id a h
on_event-IsSound (job_created id job) a f h = h
on_event-IsSound (job_updated id status) a f h =
    elim (Option-cases (lookup TfeId-discrete id a.jobs)) [
      | inl e ↦ rw (on_event, e) h
      | inr (r, e) ↦ rw (on_event, e) h
    ]
on_event-IsSound (job_deleted id) a f h =
    forget_job-IsSound (lookup TfeId-discrete id a.jobs) id a h

round-IsSound :
    (client : Client) (e : Event) (a : Allocator)
    → BringsFit e
    → IsSound a
    → IsSound (round client e a).0
unfolding round
round-IsSound client e a f h =
    let s = on_event-IsSound e a f h in
    elim (Option-cases ((on_event e a).1)) [
      | inl q ↦ rw (round, q) (allocate_all-IsSound client (on_event e a).0.jobs (on_event e a).0 s)
      | inr (x, q) ↦ rw (round, q) s
    ]

watch-IsSound :
    (events : List (Client × Event)) (a : Allocator)
    → All (λ e. BringsFit e.1) events
    → IsSound a
    → IsSound (watch events a).0
unfolding watch
watch-IsSound [] a f h = h
watch-IsSound ((client, e) ∷ events) a f h =
    let s = round-IsSound client e a f.0 h in
    elim (Option-cases ((round client e a).1)) [
      | inl q ↦ rw (watch, q) (watch-IsSound events (round client e a).0 f.1 s)
      | inr (x, q) ↦ rw (watch, q) s
    ]

add_runners-IsSound :
    (l : List RunnerMeta) (a : Allocator) → All IsFit l → IsSound a → IsSound (add_runners l a)
unfolding add_runners
add_runners-IsSound [] a f h = h
add_runners-IsSound (r ∷ l) a f h =
    add_runners-IsSound l (add_runner r a) f.1 (add_runner-IsSound r a f.0 h)

add_jobs-IsSound : (l : List Job) (a : Allocator) → IsSound a → IsSound (add_jobs l a)
unfolding add_jobs
add_jobs-IsSound [] a h = h
add_jobs-IsSound (j ∷ l) a h = elim (Bool-cases (skips j.status)) [
  | inl e ↦ rw (add_jobs, e) (add_jobs-IsSound l a h)
  | inr e ↦
      rw (add_jobs, e)
        (add_jobs-IsSound l (record a { jobs = insert TfeId-discrete j.id j a.jobs }) h)
]

seed-IsSound :
    (runners : List RunnerMeta) (jobs : List Job) → All IsFit runners → IsSound (seed runners jobs)
unfolding seed tally lookup
seed-IsSound runners jobs f =
    add_jobs-IsSound jobs _ (add_runners-IsSound runners _ f (tt, λ id r l k. ground arith))

-- If the runners that the allocator starts with, and those that later events bring, have each at
-- most as many jobs as they may have, then whatever the jobs, the events and the answers of the
-- client, no runner that forks has ever more jobs by the allocator's tally than it may have, also
-- where an error ends the loop.
pub start-WithinCapacity :
    (runners : List RunnerMeta) (jobs : List Job) (client : Client) (events : List (Client × Event))
    → All IsFit runners
    → All (λ e. BringsFit e.1) events
    → let a = (start runners jobs client events).0 in WithinCapacity a.runners a.current_jobs
unfolding start
start-WithinCapacity runners jobs client events f g =
    let first = seed runners jobs in
    let s = allocate_all-IsSound client first.jobs first (seed-IsSound runners jobs f) in
    elim (Option-cases ((allocate_all client first.jobs first).1)) [
      | inl q ↦ rw (start, q) (watch-IsSound events (allocate_all client first.jobs first).0 g s).1
      | inr (x, q) ↦ rw (start, q) s.1
    ]
