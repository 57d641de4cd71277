-- ===== src/Run/Timeout/Late.antt =====
-- internal/run/timeout.go: the runs that one check cancels.
use otf.Prelude.{
  ◌≡◌, refl, sym, subst, ◌<◌, ◌^◌, ◌⊎◌, Bool, true, false, Option, none, some, List, [], ◌∷◌,
  Result, ok, ℤ, sub_ℕ, ltb_ℤ, length, Bool-cases, Result-cases, inl, inr, arith,
}
use otf.Resource.{TfeId}
use otf.Time.{Time}
use otf.Resource.Page.{total, max_page_size}
use otf.Resource.Page.ListAll.{serve, list_all-serve}
use otf.Run.Status.{Status}
use otf.Run.Types.{Run}
use otf.Run.Lifecycle.{status_timestamp, RunError}
use otf.Run.Timeout.{Timeout, timed_out, timeout_of, exceeds, check, check_runs}

-- A run that has been in a status for longer than a timeout.
abbrev pub IsOver : Time → Status → ℤ → Run → Type 0
IsOver now status timeout r =
    (r.status ≡ status)
    × ((t : Time) × (status_timestamp r status ≡ ok t) × (ltb_ℤ timeout (sub_ℕ now t) ≡ true))

-- A run that is planning, or applying, for longer than the timeout of that phase.
abbrev pub IsLate : Timeout → (Run → Time) → Run → Type 0
IsLate e now r =
    IsOver (now r) Status.planning e.planning_timeout r
    ⊎ IsOver (now r) Status.applying e.applying_timeout r

-- The late runs are canceled in their order, up to the first that cannot be.
abbrev pub Cancels :
    Timeout → (Run → Time) → (TfeId → Bool) → List Run → List TfeId → Option TfeId → Type 0
Cancels e now can_cancel [] ids failed = (ids ≡ []) × (failed ≡ none)
Cancels e now can_cancel (r ∷ rest) ids failed =
    (¬ (IsLate e now r) × Cancels e now can_cancel rest ids failed)
    ⊎ (IsLate e now r
        × (can_cancel r.id ≡ true)
        × ((others : List TfeId) × (ids ≡ r.id ∷ others)
            × Cancels e now can_cancel rest others failed))
    ⊎ (IsLate e now r × (can_cancel r.id ≡ false) × (ids ≡ []) × (failed ≡ some r.id))

late_cases :
    (e : Timeout) (now : Time) (s : Status) (at : Status → Result RunError Time) (t : Time)
    → at s ≡ ok t
    → exceeds now (timeout_of e s) (at s) ≡ true
    → ((s ≡ Status.planning)
        × ((u : Time) × (at Status.planning ≡ ok u)
            × (ltb_ℤ e.planning_timeout (sub_ℕ now u) ≡ true)))
      ⊎ ((s ≡ Status.applying)
          × ((u : Time) × (at Status.applying ≡ ok u)
              × (ltb_ℤ e.applying_timeout (sub_ℕ now u) ≡ true)))
late_cases e now Status.planning at t f h = inl (refl, (t, f, rw f at h))
late_cases e now Status.applying at t f h = inr (refl, (t, f, rw f at h))
late_cases e now s at t f h = ground (arith, h)

timed_out-IsLate :
    (e : Timeout) (now : Run → Time) (r : Run) → timed_out e now r ≡ true → IsLate e now r
unfolding timed_out
timed_out-IsLate e now r h = elim (Result-cases (status_timestamp r r.status)) [
  | inr (x, f) ↦ absurd (ground (arith, h, f))
  | inl (t, f) ↦ late_cases e (now r) r.status (status_timestamp r) t f h
]

IsLate-timed_out :
    (e : Timeout) (now : Run → Time) (r : Run) → IsLate e now r → timed_out e now r ≡ true
unfolding timed_out
IsLate-timed_out e now r (inl (s, (t, at, over))) =
    subst (λ u. exceeds (now r) (timeout_of e u) (status_timestamp r u) ≡ true) (sym s) (rw at over)
IsLate-timed_out e now r (inr (s, (t, at, over))) =
    subst (λ u. exceeds (now r) (timeout_of e u) (status_timestamp r u) ≡ true) (sym s) (rw at over)

check_runs-Cancels :
    (e : Timeout) (now : Run → Time) (can_cancel : TfeId → Bool) (runs : List Run)
    → let done = check_runs e now can_cancel runs in Cancels e now can_cancel runs done.0 done.1
unfolding check_runs
check_runs-Cancels e now can_cancel [] = (refl, refl)
check_runs-Cancels e now can_cancel (r ∷ rest) =
    let others = check_runs-Cancels e now can_cancel rest in
    elim (Bool-cases (timed_out e now r)) [
      | inr fine ↦
          rw fine (inl ((λ late. ground (arith, fine, IsLate-timed_out e now r late)), others))
      | inl over ↦
          let late = timed_out-IsLate e now r over in
          elim (Bool-cases (can_cancel r.id)) [
            | inl can ↦
                rw (over, can)
                  (inr (inl (late, refl, ((check_runs e now can_cancel rest).0, refl, others))))
            | inr cannot ↦ rw (over, cannot) (inr (inr (late, refl, refl, refl)))
          ]
    ]

-- If the service lists some runs, fewer than 2^62, over all of its pages, then one check, with a
-- unit of fuel for each page, cancels in the order of the list exactly those that have been
-- planning for longer than the timeout of planning, or applying for longer than that of applying,
-- up to the first that cannot be canceled, with which the check ends.
pub check-Cancels :
    (e : Timeout) (now : Run → Time) (can_cancel : TfeId → Bool) (runs : List Run)
    → length runs < 2 ^ 62
    → (ids : List TfeId) × (failed : Option TfeId) × (check e now can_cancel
          (serve runs)
          (total (length runs) max_page_size)
        ≡ some (ok (ids, failed)))
      × Cancels e now can_cancel runs ids failed
unfolding check
check-Cancels e now can_cancel runs few =
    let done = check_runs e now can_cancel runs in
    (done.0, done.1, rw (list_all-serve runs few) refl, check_runs-Cancels e now can_cancel runs)
