-- ===== src/Run/Periods.antt =====
-- internal/run/run.go: `ElapsedTime` and `PeriodReport`. An index out of range, which panics in
-- Go, is `none`.
pub mod Total
use otf.Prelude.{
  ℕ, zero, suc, Bool, true, false, Option, none, some, List, [], ◌∷◌, ite, if◌then◌else◌, length,
  replicate, last?, ℤ, sub_ℕ, ◌-◌,
}
use mathlib.Core.Option
use otf.Time.{Time}
use otf.Run.Status.{Status, Status-discrete}
use otf.Run.Types.{Run, StatusTimestamp, run_done}

-- Durations are exact: `Sub` does not saturate within the range that the times have.
pub record StatusPeriod : Type 0 where
  pub status : Status
  pub period : ℤ

-- A slot of the report that the loop does not write keeps Go's zero value, here `none`.
pub record PeriodReport : Type 0 where
  pub total_time : ℤ
  pub periods : List (Option StatusPeriod)

abbrev time_since : Time → Option StatusTimestamp → Option ℤ
time_since start none = none
time_since start (some t) = some (sub_ℕ t.timestamp start)

elapsed_from : Bool → List StatusTimestamp → Time → Option ℤ
elapsed_from finished [] now = none
elapsed_from true (p ∷ rest) now = time_since p.timestamp (last? (p ∷ rest))
elapsed_from false (p ∷ rest) now = some (sub_ℕ now p.timestamp)

-- `ElapsedTime`.
unfoldable pub elapsed_time : Run → Time → Option ℤ
unfolding elapsed_from
elapsed_time r now = elapsed_from (run_done r) r.status_timestamps now

-- `report.Periods[i] = …`, and then the rest of the loop.
abbrev assign :
    ℕ → StatusPeriod → Option (List (Option StatusPeriod)) → Option (List (Option StatusPeriod))
assign zero p rest = none
assign (suc n) p rest = Option.map (λ ps. some p ∷ ps) rest

abbrev period : StatusTimestamp → ℤ → StatusPeriod
period current duration = record { status = current.status; period = duration }

-- The loop over the timestamps that are left, with the slots that are left.
periods_from : Status → Bool → Time → List StatusTimestamp → ℕ → Option (List (Option StatusPeriod))
periods_from status finished now [] slots = some (replicate slots none)
periods_from status finished now (current ∷ []) slots =
    let last =
      assign slots (period current (sub_ℕ now current.timestamp))
        (some (replicate (slots - 1) none)) in
    ite (Status-discrete current.status status)
      (if finished then some (replicate slots none) else last) none
periods_from status finished now (current ∷ next ∷ rest) slots =
    let later = periods_from status finished now (next ∷ rest) (slots - 1) in
    ite (Status-discrete current.status status)
      (if finished
        then some (replicate slots none)
        else assign slots (period current (sub_ℕ now current.timestamp)) later)
      (assign slots (period current (sub_ℕ next.timestamp current.timestamp)) later)

abbrev report_of : ℤ → Option (List (Option StatusPeriod)) → Option PeriodReport
report_of total none = none
report_of total (some ps) = some (record { total_time = total; periods = ps })

abbrev report_with : Option ℤ → Option (List (Option StatusPeriod)) → Option PeriodReport
report_with none ps = none
report_with (some total) ps = report_of total ps

-- `PeriodReport`.
unfoldable pub period_report : Run → Time → Option PeriodReport
unfolding elapsed_time periods_from
period_report r now =
    let n = length r.status_timestamps in
    report_with (elapsed_time r now)
      (periods_from r.status (run_done r) now r.status_timestamps (if run_done r then n - 1 else n))
