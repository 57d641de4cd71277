-- ===== src/Run/Lifecycle/Clock.antt =====
-- The timestamps of a run stand in the order of time, if the clock does not run backwards.
use otf.Prelude.{ℕ, ◌+◌, ◌≤◌, List, [], ◌∷◌, ◌++◌, none, arith}
use otf.Time.{Time, current_timestamp, current_timestamp_mono}
use otf.Run.Status.{Status}
use otf.Run.Types.{Run, StatusTimestamp}
use otf.Run.Lifecycle.{
  Event, enqueues_plan, enqueues_apply, starts, discards, finishes, cancels, step, run_events,
  move_to,
}

-- The timestamps of `l` rise, and lie between `a` and `b`.
abbrev pub IsRising : Time → List StatusTimestamp → Time → Type 0
IsRising a [] b = a ≤ b
IsRising a (x ∷ xs) b = (a ≤ x.timestamp) × IsRising x.timestamp xs b

-- The run's timestamps rise, up to the time `t`.
abbrev pub RisesTo : Run → Time → Type 0
RisesTo r t = IsRising 0 r.status_timestamps (current_timestamp none t)

-- The readings of `clock` rise, between the times `s` and `t`.
abbrev pub Ticks : Time → (ℕ → Time) → Time → Type 0
Ticks s clock t = (i : ℕ) → (s ≤ clock i) × (clock i ≤ clock (i + 1)) × (clock i ≤ t)

-- The calls follow one another between the times `s` and `t`.
abbrev pub InTurn : Time → List (Event × (ℕ → Time)) → Time → Type 0
InTurn s [] t = s ≤ t
InTurn s ((e, clock) ∷ es) t = (u : Time) × Ticks s clock u × InTurn u es t

IsRising-snoc :
    (a : Time) (l : List StatusTimestamp) (b : Time) (x : StatusTimestamp)
    → IsRising a l b
    → b ≤ x.timestamp
    → IsRising a (l ++ x ∷ []) x.timestamp
IsRising-snoc a [] b x h k = omega arith
IsRising-snoc a (y ∷ l) b x h k = (h.0, IsRising-snoc y.timestamp l b x h.1 k)

IsRising-mono :
    (a : Time) (l : List StatusTimestamp) (b c : Time) → IsRising a l b → b ≤ c → IsRising a l c
IsRising-mono a [] b c h k = omega arith
IsRising-mono a (y ∷ l) b c h k = (h.0, IsRising-mono y.timestamp l b c h.1 k)

pub RisesTo-mono : (r : Run) (s t : Time) → RisesTo r s → s ≤ t → RisesTo r t
RisesTo-mono r s t h k = IsRising-mono 0 r.status_timestamps _ _ h (current_timestamp_mono s t k)

move_to-RisesTo :
    (u : Status) (r : Run) (s t : Time) → RisesTo r s → s ≤ t → RisesTo (move_to u t r) t
move_to-RisesTo u r s t h k =
    IsRising-snoc 0 r.status_timestamps _ _ h (current_timestamp_mono s t k)

-- A move at a reading of the clock, seen from the end of the call.
move_to-RisesTo_end :
    (u : Status) (r : Run) (clock : ℕ → Time) (s t : Time) (i : ℕ)
    → Ticks s clock t
    → RisesTo r s
    → RisesTo (move_to u (clock i) r) t
move_to-RisesTo_end u r clock s t i k h =
    RisesTo-mono (move_to u (clock i) r) (clock i) t (move_to-RisesTo u r s (clock i) h (k i).0)
      (k i).2

-- Two moves, at the readings `i` and `j`.
move_to-move_to-RisesTo :
    (u v : Status) (r : Run) (clock : ℕ → Time) (s t : Time) (i j : ℕ)
    → clock i ≤ clock j
    → Ticks s clock t
    → RisesTo r s
    → RisesTo (move_to v (clock j) (move_to u (clock i) r)) t
move_to-move_to-RisesTo u v r clock s t i j ij k h =
    RisesTo-mono (move_to v (clock j) (move_to u (clock i) r)) (clock j) t
      (move_to-RisesTo v (move_to u (clock i) r) (clock i) (clock j)
        (move_to-RisesTo u r s (clock i) h (k i).0) ij)
      (k j).2

-- An operation keeps the timestamps of a run in the order of time.
pub step-RisesTo :
    (e : Event) (clock : ℕ → Time) (r : Run) (s t : Time)
    → Ticks s clock t
    → RisesTo r s
    → RisesTo (step e clock r).0 t
unfolding step
step-RisesTo enqueues_plan clock r s t k h =
    ground
      (arith, k 0, RisesTo-mono r s t h, move_to-RisesTo_end Status.plan_queued r clock s t 0 k h)
step-RisesTo enqueues_apply clock r s t k h =
    ground
      (arith, k 0, RisesTo-mono r s t h, move_to-RisesTo_end Status.apply_queued r clock s t 0 k h)
step-RisesTo starts clock r s t k h = ground (
  arith,
  k 0,
  RisesTo-mono r s t h,
  move_to-RisesTo_end Status.planning r clock s t 0 k h,
  move_to-RisesTo_end Status.applying r clock s t 2 k h,
)
step-RisesTo discards clock r s t k h =
    ground
      (arith, k 0, RisesTo-mono r s t h, move_to-RisesTo_end Status.discarded r clock s t 0 k h)
step-RisesTo (finishes phase failed) clock r s t k h = ground (
  arith,
  k 0,
  k 3,
  k 4,
  k 5,
  RisesTo-mono r s t h,
  move_to-RisesTo_end Status.errored r clock s t 0 k h,
  move_to-RisesTo_end Status.errored r clock s t 8 k h,
  move_to-RisesTo_end Status.applied r clock s t 10 k h,
  move_to-RisesTo_end Status.planned r clock s t 4 k h,
  move_to-RisesTo_end Status.cost_estimated r clock s t 3 k h,
  λ (ij : clock 4 ≤ clock 6).
      move_to-move_to-RisesTo Status.planned Status.planned_and_finished r clock s t 4 6 ij k h,
  λ (ij : clock 3 ≤ clock 6).
      move_to-move_to-RisesTo Status.cost_estimated Status.planned_and_finished r clock s t 3 6 ij k
        h,
)
step-RisesTo (cancels user force) clock r s t k h = ground (
  arith,
  k 0,
  RisesTo-mono r s t h,
  move_to-RisesTo_end Status.canceled r clock s t 12 k h,
  move_to-RisesTo_end Status.force_canceled r clock s t 11 k h,
)

-- If the timestamps of a run rise up to the time s, and calls follow one another between s and t
-- by clocks that do not run backwards, then the timestamps rise up to t. The times are rounded
-- to milliseconds, and those that rise may be equal.
pub run_events-RisesTo :
    (events : List (Event × (ℕ → Time))) (r : Run) (s t : Time)
    → InTurn s events t
    → RisesTo r s
    → RisesTo (run_events events r) t
unfolding run_events
run_events-RisesTo [] r s t k h = RisesTo-mono r s t h k
run_events-RisesTo ((e, clock) ∷ es) r s t k h =
    run_events-RisesTo es (step e clock r).0 k.0 t k.2 (step-RisesTo e clock r s k.0 k.1 h)
