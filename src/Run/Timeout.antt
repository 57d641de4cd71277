-- ===== src/Run/Timeout.antt =====
-- internal/run/timeout.go: the check for runs that exceed the timeout of their phase. The pages of
-- runs, the reading of the clock for a run, and whether a run can be canceled are arguments.
pub mod Late
use otf.Prelude.{
  ℕ, ◌≡◌, refl, ◌<◌, ◌^◌, Bool, true, false, Option, none, some, List, [], ◌∷◌, map, if◌then◌else◌,
  Result, ok, err, ℤ, sub_ℕ, ltb_ℤ, keep, All, length, Bool-cases, inl, inr,
}
use otf.Resource.{TfeId}
use otf.Time.{Time}
use otf.Resource.Page.{Fetch, ListError, Listed, list_all, total, max_page_size}
use otf.Resource.Page.ListAll.{serve, list_all-serve}
use otf.Run.Status.{Status}
use otf.Run.Types.{Run}
use otf.Run.Lifecycle.{status_timestamp, RunError}

pub record Timeout : Type 0 where
  pub planning_timeout : ℤ
  pub applying_timeout : ℤ

-- The timeout of a status, where it has one.
abbrev pub timeout_of : Timeout → Status → Option ℤ
timeout_of e Status.planning = some e.planning_timeout
timeout_of e Status.applying = some e.applying_timeout
timeout_of e _ = none

abbrev pub exceeds : Time → Option ℤ → Result RunError Time → Bool
exceeds now none started = false
exceeds now (some timeout) (err e) = false
exceeds now (some timeout) (ok started) = ltb_ℤ timeout (sub_ℕ now started)

unfoldable pub timed_out : Timeout → (Run → Time) → Run → Bool
timed_out e now run = exceeds (now run) (timeout_of e run.status) (status_timestamp run run.status)

-- The loop: the runs that are canceled, and the first that cannot be canceled, which ends it.
unfoldable pub check_runs :
    Timeout → (Run → Time) → (TfeId → Bool) → List Run → List TfeId × Option TfeId
check_runs e now can_cancel [] = ([], none)
check_runs e now can_cancel (r ∷ rest) =
    let others = check_runs e now can_cancel rest in
    if timed_out e now r
    then (if can_cancel r.id then (r.id ∷ others.0, others.1) else ([], some r.id))
    else others

-- `check`, on fuel for the pages: the error of the listing, or what the loop does.
abbrev pub check_listed :
    {E : Type 0}
    → Timeout
    → (Run → Time)
    → (TfeId → Bool)
    → Listed E Run
    → Option (Result (ListError E) (List TfeId × Option TfeId))
check_listed e now can_cancel none = none
check_listed e now can_cancel (some (err x)) = some (err x)
check_listed e now can_cancel (some (ok runs)) = some (ok (check_runs e now can_cancel runs))

unfoldable pub check :
    {E : Type 0}
    → Timeout
    → (Run → Time)
    → (TfeId → Bool)
    → Fetch E Run
    → ℕ
    → Option (Result (ListError E) (List TfeId × Option TfeId))
check e now can_cancel list_runs fuel = check_listed e now can_cancel (list_all list_runs fuel)
