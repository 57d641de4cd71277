-- ===== src/Run/Store.antt =====
-- internal/run/db.go: `UpdateStatus`, which reads the row of a run, lets an operation change the
-- run and writes what has changed, in one transaction. A row is the run that `scan` reads from it,
-- with its timestamps in the order of time. Timestamps of the same time are taken to be aggregated
-- in the order in which they were written. Only the last of the timestamps that the operation has
-- added is written. The primary keys of the two tables of timestamps, a run or a phase with a
-- status, are not part of the model.
pub mod Sorted
pub mod Written
pub mod Ranks
pub mod Reading
pub mod Reports
use otf.Prelude.{
  ℕ, Bool, true, false, Option, none, some, List, [], ◌∷◌, ◌++◌, ite, Result, ok, err, ltb,
  if◌then◌else◌,
}
use otf.Time.{Time}
use otf.Run.Status.{Status-discrete}
use otf.Run.Phase.{Phase, PhaseStatus-discrete}
use otf.Run.Phase
use otf.Run.Types.{Run, StatusTimestamp}
use otf.Run.Lifecycle.{RunError, Event, step, status_timestamp}

-- The error of the operation, or a timestamp that `StatusTimestamp` does not find.
pub data StoreError : Type 0 where
  operation_failed : RunError → StoreError
  timestamp_missing : StoreError

-- `insertRunStatusTimestamp`, where the status has changed.
unfoldable pub timestamps_written : Run → Run → Option (List StatusTimestamp)
timestamps_written old new =
    ite (Status-discrete new.status old.status) (some old.status_timestamps)
      (elim (status_timestamp new new.status) [
        | ok t ↦ some (old.status_timestamps ++ record { status = new.status; timestamp = t } ∷ [])
        | err e ↦ none
      ])

abbrev phase_with : Phase → Phase → Time → Phase
phase_with old new t = record old {
  status = new.status;
  status_timestamps =
      old.status_timestamps
      ++ record { phase = new.phase_type; status = new.status; timestamp = t } ∷ [];
}

-- `insertPhaseStatusTimestamp`, where the status has changed.
unfoldable pub phase_written : Phase → Phase → Option Phase
phase_written old new =
    ite (PhaseStatus-discrete new.status old.status) (some old)
      (elim (Phase.status_timestamp new new.status) [
        | ok t ↦ some (phase_with old new t)
        | err e ↦ none
      ])

-- The time of a signal is written where there is one.
abbrev signal_written : Option Time → Option Time → Option Time
signal_written old none = old
signal_written old (some t) = some t

abbrev row_with : Run → Run → List StatusTimestamp → Phase → Phase → Run
row_with old new ts plan apply = record old {
  status = new.status;
  status_timestamps = ts;
  plan = plan;
  apply = apply;
  cancel_signaled_at = signal_written old.cancel_signaled_at new.cancel_signaled_at;
}

abbrev row_of : Run → Run → Option (List StatusTimestamp) → Option Phase → Option Phase → Option Run
row_of old new (some ts) (some plan) (some apply) = some (row_with old new ts plan apply)
row_of old new _ _ _ = none

-- `sort.Slice` by time, by insertion, as Go sorts a short list: equal times stay in their order.
abbrev pub insert_by_time {ℓ} : {A : Type ℓ} → (A → Time) → A → List A → List A
insert_by_time time x [] = x ∷ []
insert_by_time time x (y ∷ l) =
    let rest = insert_by_time time x l in if ltb (time y) (time x) then y ∷ rest else x ∷ y ∷ l

abbrev pub sort_by_time {ℓ} : {A : Type ℓ} → (A → Time) → List A → List A
sort_by_time time [] = []
sort_by_time time (x ∷ l) = insert_by_time time x (sort_by_time time l)

abbrev pub scan_phase : Phase → Phase
scan_phase p = record p { status_timestamps = sort_by_time (λ x. x.timestamp) p.status_timestamps }

-- The end of `scan`, which reads a row.
abbrev pub scan : Run → Run
scan r = record r {
  status_timestamps = sort_by_time (λ x. x.timestamp) r.status_timestamps;
  plan = scan_phase r.plan;
  apply = scan_phase r.apply;
}

abbrev pub scan_row : Option Run → Option Run
scan_row none = none
scan_row (some r) = some (scan r)

-- The last function of `UpdateStatus`, with the row that is read afterwards.
unfoldable pub update_row : Run → Run → Option Run
update_row old new = scan_row (
    row_of old new (timestamps_written old new) (phase_written old.plan new.plan)
      (phase_written old.apply new.apply))

-- `UpdateStatus`, with the operation of an event. An error leaves the row as it was.
unfoldable pub update_status : Event → (ℕ → Time) → Run → Run × Option StoreError
update_status e clock row = elim ((step e clock row).1) [
  | some x ↦ (row, some (operation_failed x))
  | none ↦ elim (update_row row (step e clock row).0) [
    | some r ↦ (r, none)
    | none ↦ (row, some timestamp_missing)
  ]
]

unfoldable pub update_statuses : List (Event × (ℕ → Time)) → Run → Run
update_statuses [] row = row
update_statuses ((e, clock) ∷ es) row = update_statuses es (update_status e clock row).0
