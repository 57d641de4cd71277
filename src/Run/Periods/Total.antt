-- ===== src/Run/Periods/Total.antt =====
-- The periods of a report add up to its total time.
use otf.Prelude.{
  ◌≡◌, refl, ◌≢◌, Bool, true, false, Option, none, some, List, [], ◌∷◌, arith, length, last?, ℤ,
  pos, sub_ℕ, ◌+ℤ◌, +ℤ_parts, eq_of_parts, sub_ℕ_parts, ◌-◌, if◌then◌else◌,
}
use otf.Time.{Time}
use otf.Run.Status.{Status}
use otf.Run.Types.{Run, StatusTimestamp, run_done}
use otf.Run.Periods.{
  StatusPeriod, PeriodReport, periods_from, elapsed_from, elapsed_time, period_report, period,
  report_with,
}

abbrev pub sum_periods : List (Option StatusPeriod) → ℤ
sum_periods [] = pos 0
sum_periods (none ∷ ps) = sum_periods ps
sum_periods (some p ∷ ps) = p.period +ℤ sum_periods ps

-- The status stands at the end of the list, and nowhere else in it.
abbrev pub EndsIn : Status → List StatusTimestamp → Type 0
EndsIn s [] = ⊥
EndsIn s (x ∷ []) = x.status ≡ s
EndsIn s (x ∷ y ∷ r) = (x.status ≢ s) × EndsIn s (y ∷ r)

telescope : (a b c : Time) → sub_ℕ b a +ℤ sub_ℕ c b ≡ sub_ℕ c a
telescope a b c = eq_of_parts _ _ (
    omega
      (arith, +ℤ_parts (sub_ℕ b a) (sub_ℕ c b), sub_ℕ_parts b a, sub_ℕ_parts c b, sub_ℕ_parts c a))

sum_last : (a : Time) (now : Time) → sub_ℕ now a +ℤ pos 0 ≡ sub_ℕ now a
sum_last a now = eq_of_parts _ _ (omega (arith, +ℤ_parts (sub_ℕ now a) (pos 0)))

-- The loop over a run that is not in an end state.
periods_from-sum :
    (s : Status) (now : Time) (x : StatusTimestamp) (l : List StatusTimestamp)
    → EndsIn s (x ∷ l)
    → (ps : List (Option StatusPeriod)) × (periods_from s false now (x ∷ l) (length (x ∷ l))
        ≡ some ps)
      × (sum_periods ps ≡ sub_ℕ now x.timestamp)
unfolding periods_from
periods_from-sum s now x [] h =
    (some (period x (sub_ℕ now x.timestamp)) ∷ [], ground arith, sum_last x.timestamp now)
periods_from-sum s now x (y ∷ l) h =
    let (ps, e, q) = periods_from-sum s now y l h.1 in
    (
      some (period x (sub_ℕ y.timestamp x.timestamp)) ∷ ps,
      ground arith,
      cc (q, telescope x.timestamp y.timestamp now),
    )

-- The loop over a run in an end state.
periods_from-sum_done :
    (s : Status) (now : Time) (x z : StatusTimestamp) (l : List StatusTimestamp)
    → EndsIn s (x ∷ l)
    → last? (x ∷ l) ≡ some z
    → (ps : List (Option StatusPeriod)) × (periods_from s true now (x ∷ l) (length l) ≡ some ps)
      × (sum_periods ps ≡ sub_ℕ z.timestamp x.timestamp)
unfolding periods_from
periods_from-sum_done s now x z [] h e = ([], ground arith, ground arith)
periods_from-sum_done s now x z (y ∷ l) h e =
    let (ps, k, q) = periods_from-sum_done s now y z l h.1 e in
    (
      some (period x (sub_ℕ y.timestamp x.timestamp)) ∷ ps,
      ground arith,
      cc (q, telescope x.timestamp y.timestamp z.timestamp),
    )

last?-cons :
    (x : StatusTimestamp) (l : List StatusTimestamp)
    → (z : StatusTimestamp) × (last? (x ∷ l) ≡ some z)
last?-cons x [] = (x, refl)
last?-cons x (y ∷ l) = last?-cons y l

abbrev report_at : Status → Bool → Time → List StatusTimestamp → Option PeriodReport
report_at s finished now l =
    report_with (elapsed_from finished l now)
      (periods_from s finished now l (if finished then length l - 1 else length l))

report_at-total :
    (s : Status) (finished : Bool) (now : Time) (l : List StatusTimestamp)
    → EndsIn s l
    → (rep : PeriodReport) × (report_at s finished now l ≡ some rep)
      × (elapsed_from finished l now ≡ some rep.total_time)
      × (sum_periods rep.periods ≡ rep.total_time)
unfolding elapsed_from
report_at-total s finished now [] h = absurd h
report_at-total s false now (x ∷ l) h =
    let (ps, e, q) = periods_from-sum s now x l h in
    (record { total_time = sub_ℕ now x.timestamp; periods = ps }, rw e refl, refl, q)
report_at-total s true now (x ∷ l) h =
    let (z, k) = last?-cons x l in
    let (ps, e, q) = periods_from-sum_done s now x z l h k in
    let n : length (x ∷ l) - 1 ≡ length l = omega arith in
    (
      record { total_time = sub_ℕ z.timestamp x.timestamp; periods = ps },
      rw (n, k, e) refl,
      rw k refl,
      q,
    )

-- For a run whose timestamps show its present status once, at their end, the report exists and
-- its periods add up to its total time, which is the elapsed time, at the same reading of the
-- clock, whether the run is in an end state or not.
pub period_report-total :
    (r : Run) (now : Time)
    → EndsIn r.status r.status_timestamps
    → (rep : PeriodReport) × (period_report r now ≡ some rep)
      × (elapsed_time r now ≡ some rep.total_time)
      × (sum_periods rep.periods ≡ rep.total_time)
unfolding period_report
period_report-total r now h = report_at-total r.status (run_done r) now r.status_timestamps h
