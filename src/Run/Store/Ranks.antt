-- ===== src/Run/Store/Ranks.antt =====
-- The statuses that are stored for a run climb, and so none of them comes twice.
use otf.Prelude.{ℕ, ◌<◌, ◌≡◌, refl, ◌⊎◌, inl, inr, some, List, [], ◌∷◌, ◌++◌, arith, Result-cases}
use otf.Time.{Time}
use otf.Run.Status.{
  Status, applied, apply_queued, applying, canceled, confirmed, discarded, errored, force_canceled,
  pending, plan_queued, planned, planned_and_finished, planning, cost_estimated,
}
use otf.Run.Types.{Run, StatusTimestamp}
use otf.Run.Lifecycle.{
  Event, enqueues_plan, enqueues_apply, starts, discards, finishes, cancels, step, status_timestamp,
}
use otf.Run.Store.{timestamps_written}

-- How far a run has come.
abbrev pub rank : Status → ℕ
rank pending = 0
rank plan_queued = 1
rank planning = 2
rank planned = 3
rank cost_estimated = 3
rank confirmed = 3
rank apply_queued = 4
rank applying = 5
rank applied = 6
rank planned_and_finished = 6
rank discarded = 6
rank errored = 6
rank force_canceled = 7
rank canceled = 8

pub step-rank :
    (e : Event) (clock : ℕ → Time) (r : Run)
    → ((step e clock r).0.status ≡ r.status) ⊎ (rank r.status < rank (step e clock r).0.status)
unfolding step
step-rank enqueues_plan clock r = ground arith
step-rank enqueues_apply clock r = ground arith
step-rank starts clock r = ground arith
step-rank discards clock r = ground arith
step-rank (finishes phase failed) clock r = ground arith
step-rank (cancels user force) clock r = ground arith

-- The list ends in the status, and all before it have a lower rank.
abbrev pub ClimbsTo : List StatusTimestamp → Status → Type 0
ClimbsTo [] s = ⊥
ClimbsTo (x ∷ []) s = x.status ≡ s
ClimbsTo (x ∷ y ∷ l) s = (rank x.status < rank s) × ClimbsTo (y ∷ l) s

abbrev pub IsClimbing : Run → Type 0
IsClimbing r = ClimbsTo r.status_timestamps r.status

ClimbsTo-snoc :
    (l : List StatusTimestamp) (s u : Status) (t : Time)
    → ClimbsTo l s
    → rank s < rank u
    → ClimbsTo (l ++ record { status = u; timestamp = t } ∷ []) u
ClimbsTo-snoc [] s u t h k = absurd h
ClimbsTo-snoc (x ∷ []) s u t h k = (ground arith, refl)
ClimbsTo-snoc (x ∷ y ∷ l) s u t h k = (ground arith, ClimbsTo-snoc (y ∷ l) s u t h.1 k)

pub timestamps_written-ClimbsTo :
    (old new : Run) (l : List StatusTimestamp)
    → (new.status ≡ old.status) ⊎ (rank old.status < rank new.status)
    → timestamps_written old new ≡ some l
    → IsClimbing old
    → ClimbsTo l new.status
unfolding timestamps_written
timestamps_written-ClimbsTo old new l d e h =
    elim (Result-cases (status_timestamp new new.status)) [
      | inr (x, q) ↦ ground arith
      | inl (t, q) ↦ ground (arith, ClimbsTo-snoc old.status_timestamps old.status new.status t h)
    ]
