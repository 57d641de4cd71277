-- ===== src/Runner/Service/Rows.antt =====
-- internal/runner/db.go: what the statement of `updateJob` leaves in the table of jobs.
use otf.Prelude.{◌≡◌, ◌≢◌, ◌⊎◌, refl, inl, inr, List, [], ◌∷◌, map, test, if◌then◌else◌}
use otf.Resource.{TfeId-discrete}
use otf.Runner.Job.{Job}
use otf.Runner.Service.{Jobs, overwrite, write_job}

abbrev pub Overwrites : Job → Job → Job → Type 0
Overwrites j r s =
    ((r.id ≡ j.id) × (s ≡ record r { status = j.status; runner_id = j.runner_id }))
    ⊎ ((r.id ≢ j.id) × (s ≡ r))

-- The rows of a job have its status and its runner, and the other rows are as they were.
abbrev pub IsWritten : Job → List Job → List Job → Type 0
IsWritten j [] [] = Unit
IsWritten j [] (s ∷ ss) = ⊥
IsWritten j (r ∷ rs) [] = ⊥
IsWritten j (r ∷ rs) (s ∷ ss) = Overwrites j r s × IsWritten j rs ss

overwrites :
    (j r : Job) (d : Dec (r.id ≡ j.id))
    → Overwrites j r (if test d then record r { status = j.status; runner_id = j.runner_id } else r)
overwrites j r (yes e) = inl (e, refl)
overwrites j r (no n) = inr (n, refl)

overwrite-IsWritten : (j : Job) (rows : List Job) → IsWritten j rows (map (overwrite j) rows)
overwrite-IsWritten j [] = tt
overwrite-IsWritten j (r ∷ rs) =
    (overwrites j r (TfeId-discrete r.id j.id), overwrite-IsWritten j rs)

pub write_job-IsWritten : (j : Job) (t : Jobs) → IsWritten j t.rows (write_job j t).rows
unfolding write_job
write_job-IsWritten j t = overwrite-IsWritten j t.rows

pub write_job-signals : (j : Job) (t : Jobs) → (write_job j t).signals ≡ t.signals
unfolding write_job
write_job-signals j t = refl
