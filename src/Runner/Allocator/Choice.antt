-- ===== src/Runner/Allocator/Choice.antt =====
-- Which runner a job is given.
use otf.Prelude.{
  ℕ, ◌≤◌, ltb, ◌≡◌, refl, ◌≢◌, Bool, true, false, List, [], ◌∷◌, arith, All, ℤ, Bool-cases, inl,
  inr,
}
use otf.Resource.{TfeId}
use otf.Runner.Job.{Job}
use otf.Runner.Meta.{RunnerMeta}
use otf.Runner.Allocator.{Allocator, fits, available, insert_by_ping, sort_by_ping, choose}

-- No runner of the list has sent a later ping than `t`.
abbrev pub NoneAfter : ℕ → List RunnerMeta → Type 0
NoneAfter t = All (λ r. r.last_ping_at ≤ t)

-- The pings fall along the list.
abbrev Falling : List RunnerMeta → Type 0
Falling [] = Unit
Falling (r ∷ rest) = NoneAfter r.last_ping_at rest × Falling rest

NoneAfter-mono : (s t : ℕ) (l : List RunnerMeta) → s ≤ t → NoneAfter s l → NoneAfter t l
NoneAfter-mono s t [] h n = tt
NoneAfter-mono s t (r ∷ l) h n = (omega arith, NoneAfter-mono s t l h n.1)

insert_by_ping-NoneAfter :
    (t : ℕ) (r : RunnerMeta) (l : List RunnerMeta)
    → r.last_ping_at ≤ t
    → NoneAfter t l
    → NoneAfter t (insert_by_ping r l)
unfolding insert_by_ping
insert_by_ping-NoneAfter t r [] h n = (h, tt)
insert_by_ping-NoneAfter t r (x ∷ l) h n = ground (arith, insert_by_ping-NoneAfter t r l h n.1)

insert_by_ping-Falling :
    (r : RunnerMeta) (l : List RunnerMeta) → Falling l → Falling (insert_by_ping r l)
unfolding insert_by_ping
insert_by_ping-Falling r [] f = (tt, tt)
insert_by_ping-Falling r (x ∷ l) f = ground (
  arith,
  insert_by_ping-Falling r l f.1,
  insert_by_ping-NoneAfter x.last_ping_at r l,
  NoneAfter-mono x.last_ping_at r.last_ping_at l,
)

NoneAfter-of_insert :
    (t : ℕ) (r : RunnerMeta) (l : List RunnerMeta)
    → NoneAfter t (insert_by_ping r l)
    → (r.last_ping_at ≤ t) × NoneAfter t l
unfolding insert_by_ping
NoneAfter-of_insert t r [] n = (n.0, tt)
NoneAfter-of_insert t r (x ∷ l) n = ground (arith, NoneAfter-of_insert t r l)

-- The head of the sorted list has sent the latest ping.
sort_by_ping-NoneAfter :
    (sorted l rest : List RunnerMeta) (h : RunnerMeta)
    → Falling sorted
    → sort_by_ping sorted l ≡ h ∷ rest
    → NoneAfter h.last_ping_at sorted × NoneAfter h.last_ping_at l
unfolding sort_by_ping
sort_by_ping-NoneAfter [] [] rest h f e = (tt, tt)
sort_by_ping-NoneAfter (x ∷ sorted) [] rest h f e = ground arith
sort_by_ping-NoneAfter sorted (r ∷ l) rest h f e =
    let (a, b) =
      sort_by_ping-NoneAfter (insert_by_ping r sorted) l rest h (insert_by_ping-Falling r sorted f)
        e in
    let (c, d) = NoneAfter-of_insert h.last_ping_at r sorted a in (d, (c, b))

-- A property of all members is kept by the sorting.
insert_by_ping-All :
    (P : RunnerMeta → Type 0) (r : RunnerMeta) (l : List RunnerMeta)
    → P r
    → All P l
    → All P (insert_by_ping r l)
unfolding insert_by_ping
insert_by_ping-All P r [] p h = (p, tt)
insert_by_ping-All P r (x ∷ l) p h = elim (Bool-cases (ltb x.last_ping_at r.last_ping_at)) [
  | inl e ↦ rw (e, insert_by_ping) (p, h)
  | inr e ↦ rw (e, insert_by_ping) (h.0, insert_by_ping-All P r l p h.1)
]

pub sort_by_ping-All :
    (P : RunnerMeta → Type 0) (sorted l : List RunnerMeta)
    → All P sorted
    → All P l
    → All P (sort_by_ping sorted l)
unfolding sort_by_ping
sort_by_ping-All P sorted [] h k = h
sort_by_ping-All P sorted (r ∷ l) h k =
    sort_by_ping-All P (insert_by_ping r sorted) l (insert_by_ping-All P r sorted k.0 h) k.1

not_both : {b : Bool} → b ≡ false → b ≡ true → ⊥
not_both e f = cc

pub head-of_All :
    (P : RunnerMeta → Type 0) (l : List RunnerMeta) (r : RunnerMeta) (rest : List RunnerMeta)
    → l ≡ r ∷ rest
    → All P l
    → P r
head-of_All P l r rest e h = (rw e at h).0

insert_by_ping-ne-nil : (r : RunnerMeta) (l : List RunnerMeta) → insert_by_ping r l ≢ []
unfolding insert_by_ping
insert_by_ping-ne-nil r [] = λ e. ground arith
insert_by_ping-ne-nil r (x ∷ l) = λ e. ground arith

sort_by_ping_nil :
    (sorted l : List RunnerMeta) → sort_by_ping sorted l ≡ [] → (sorted ≡ []) × (l ≡ [])
unfolding sort_by_ping
sort_by_ping_nil sorted [] e = (e, refl)
sort_by_ping_nil sorted (r ∷ l) e =
    absurd (insert_by_ping-ne-nil r sorted (sort_by_ping_nil (insert_by_ping r sorted) l e).0)

available_none :
    (counts : List (TfeId × ℤ)) (job : Job) (l : List (TfeId × RunnerMeta))
    → available counts job l ≡ []
    → All (λ e. fits counts job e.1 ≡ false) l
unfolding available
available_none counts job [] e = tt
available_none counts job ((id, r) ∷ l) e = ground (arith, available_none counts job l)

available-fits :
    (counts : List (TfeId × ℤ)) (job : Job) (l : List (TfeId × RunnerMeta))
    → All (λ r. fits counts job r ≡ true) (available counts job l)
unfolding available
available-fits counts job [] = tt
available-fits counts job ((id, r) ∷ l) = ground (arith, available-fits counts job l)

NoneAfter-of_available :
    (t : ℕ) (counts : List (TfeId × ℤ)) (job : Job) (l : List (TfeId × RunnerMeta))
    → NoneAfter t (available counts job l)
    → All (λ e. fits counts job e.1 ≡ true → e.1.last_ping_at ≤ t) l
unfolding available
NoneAfter-of_available t counts job [] n = tt
NoneAfter-of_available t counts job ((id, r) ∷ l) n = elim (Bool-cases (fits counts job r)) [
  | inl e ↦ let m = rw (e, available) at n in (λ f. m.0, NoneAfter-of_available t counts job l m.1)
  | inr e ↦
      let m = rw (e, available) at n in
      (λ f. absurd (not_both e f), NoneAfter-of_available t counts job l m)
]

-- If the list of the runners for a job is not empty, the runner at its head, which the job is
-- given, fits the job, and of the runners that fit the job none has sent a later ping.
pub choose-latest :
    (a : Allocator) (job : Job) (r : RunnerMeta) (rest : List RunnerMeta)
    → choose a job ≡ r ∷ rest
    → (fits a.current_jobs job r ≡ true)
      × All (λ e. fits a.current_jobs job e.1 ≡ true → e.1.last_ping_at ≤ r.last_ping_at) a.runners
unfolding choose
choose-latest a job r rest e = (
  head-of_All (λ x. fits a.current_jobs job x ≡ true) (choose a job) r rest e
      (sort_by_ping-All (λ x. fits a.current_jobs job x ≡ true) []
        (available a.current_jobs job a.runners) tt (available-fits a.current_jobs job a.runners)),
  NoneAfter-of_available r.last_ping_at a.current_jobs job a.runners
      (sort_by_ping-NoneAfter [] (available a.current_jobs job a.runners) rest r tt e).1,
)

-- If no runner is chosen, none fits the job.
pub choose_none :
    (a : Allocator) (job : Job)
    → choose a job ≡ []
    → All (λ e. fits a.current_jobs job e.1 ≡ false) a.runners
unfolding choose
choose_none a job e = available_none a.current_jobs job a.runners (sort_by_ping_nil [] _ e).1
