-- ===== src/Run/Phase.antt =====
-- internal/run/phase.go and report.go: a phase of a run, its status and its history.
use otf.Prelude.{
  ℕ, Bool, true, false, not, ◌&&◌, ◌||◌, Option, none, some, List, [], ◌∷◌, ◌++◌, ite,
  if◌then◌else◌, ltb, ◌==◌, ℤ, pos, sub_ℕ, Result, ok, err,
}
use otf.Resource.{TfeId}
use otf.Time.{Time, current_timestamp}

pub data PhaseStatus : Type 0 where
  pending queued running finished canceled errored unreachable : PhaseStatus

pub data PhaseType : Type 0 where
  pending_phase plan_phase apply_phase final_phase unknown_phase : PhaseType

unfoldable pub PhaseType-discrete : Discrete PhaseType
PhaseType-discrete = hlevel

unfoldable pub PhaseStatus-discrete : Discrete PhaseStatus
PhaseStatus-discrete = hlevel

pub record PhaseStatusTimestamp : Type 0 where
  pub phase : PhaseType
  pub status : PhaseStatus
  pub timestamp : Time

-- The counts of a report; the code fills them by counting.
pub record Report : Type 0 where
  pub additions : ℕ
  pub changes : ℕ
  pub destructions : ℕ

pub record Phase : Type 0 where
  pub run_id : TfeId
  pub status : PhaseStatus
  pub status_timestamps : List PhaseStatusTimestamp
  pub phase_type : PhaseType
  pub resource_report : Option Report
  pub output_report : Option Report

-- `ErrStatusTimestampNotFound`.
pub data TimestampError : Type 0 where
  status_timestamp_not_found : TimestampError

-- `r != Report{}`.
abbrev pub report_has_changes : Report → Bool
report_has_changes r = not (r.additions == 0 && r.changes == 0 && r.destructions == 0)

abbrev pub reports_changes : Option Report → Bool
reports_changes none = false
reports_changes (some r) = report_has_changes r

-- `Phase.HasChanges`.
unfoldable pub has_changes : Phase → Bool
has_changes p = reports_changes p.resource_report || reports_changes p.output_report

-- `Phase.UpdateStatus`, which reads the clock once.
abbrev pub update_status : PhaseStatus → Time → Phase → Phase
update_status status reading p = record p {
  status = status;
  status_timestamps =
      p.status_timestamps
      ++ record {
        phase = p.phase_type;
        status = status;
        timestamp = current_timestamp none reading;
      }
        ∷ [];
}

-- `newPhase`. The status that the record literal leaves empty is set at once.
unfoldable pub new_phase : TfeId → PhaseType → Time → Phase
new_phase run_id t reading = update_status pending reading (record {
  run_id = run_id;
  status = pending;
  status_timestamps = [];
  phase_type = t;
  resource_report = none;
  output_report = none;
})

unfoldable pub find_status : PhaseStatus → List PhaseStatusTimestamp → Result TimestampError Time
find_status status [] = err status_timestamp_not_found
find_status status (rst ∷ rest) =
    ite (PhaseStatus-discrete rst.status status) (ok rst.timestamp) (find_status status rest)

-- `Phase.StatusTimestamp`.
unfoldable pub status_timestamp : Phase → PhaseStatus → Result TimestampError Time
unfolding find_status
status_timestamp p status = find_status status p.status_timestamps

-- `Phase.HasStarted`.
unfoldable pub has_started : Phase → Bool
has_started p = elim (status_timestamp p running) [ ok t ↦ true | err e ↦ false ]

-- `Phase.StartedAt`: the zero time where the phase has not started.
unfoldable pub started_at : Phase → Time
started_at p = elim (status_timestamp p running) [ ok t ↦ t | err e ↦ 0 ]

first_after : Time → List PhaseStatusTimestamp → Option Time
first_after start [] = none
first_after start (st ∷ rest) =
    if ltb start st.timestamp then some st.timestamp else first_after start rest

elapsed_since : Time → Time → Option Time → ℤ
elapsed_since now start none = sub_ℕ now start
elapsed_since now start (some t) = sub_ℕ t start

-- `Phase.ElapsedTime`.
unfoldable pub elapsed_time : Phase → Time → ℤ
unfolding status_timestamp first_after elapsed_since
elapsed_time p now = elim (status_timestamp p running) [
  | ok start ↦ elapsed_since now start (first_after start p.status_timestamps)
  | err e ↦ pos 0
]

-- `Phase.Done`.
abbrev pub phase_done : PhaseStatus → Bool
phase_done finished = true
phase_done canceled = true
phase_done errored = true
phase_done unreachable = true
phase_done _ = false
