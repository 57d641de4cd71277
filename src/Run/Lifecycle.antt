-- ===== src/Run/Lifecycle.antt =====
-- internal/run/run.go: the operations that move a run from status to status. A method that
-- changes the run returns it with its error, since Go keeps what was written before a return.
-- `clock k` is the reading at the k-th place, in the order of the text, where the operation reads
-- the clock.
pub mod Diagram
pub mod History
pub mod Phases
pub mod Rules
pub mod Clock
use otf.Prelude.{
  ℕ, ◌+◌, ◌*◌, Bool, true, false, not, ◌&&◌, ◌||◌, Option, none, some, List, [], ◌∷◌, ite,
  if◌then◌else◌, ltb, Result, ok, err,
}
use otf.Time.{Time, second, current_timestamp}
use otf.Run.Status.{
  Status, Status-discrete, applied, apply_queued, applying, canceled, confirmed, discarded, errored,
  force_canceled, pending, plan_queued, planned, planned_and_finished, planning, cost_estimated,
  done,
}
use otf.Run.Phase.{PhaseStatus, PhaseType, pending_phase, plan_phase, apply_phase, unknown_phase}
use otf.Run.Phase
use otf.Run.Types.{Run, StatusTimestamp, update_status, run_done}

-- The errors of errors.go, of run.go, and those built by `fmt.Errorf`.
pub data RunError : Type 0 where
  discard_not_allowed cancel_not_allowed force_cancel_not_allowed : RunError
  phase_already_started invalid_run_state_transition unknown_phase_error : RunError
  status_timestamp_not_found : RunError
  cannot_enqueue cannot_apply : Status → RunError

-- The phase of a run is written through its own `UpdateStatus`.
abbrev pub plan_to : PhaseStatus → Time → Run → Run
plan_to s t r = record r { plan = Phase.update_status s t r.plan }

abbrev pub apply_to : PhaseStatus → Time → Run → Run
apply_to s t r = record r { apply = Phase.update_status s t r.apply }

-- `updateStatus(status, nil)`.
abbrev pub move_to : Status → Time → Run → Run
move_to s t r = update_status s none t r

-- `Run.Phase`.
abbrev phase_of : Status → PhaseType
phase_of pending = pending_phase
phase_of plan_queued = plan_phase
phase_of planning = plan_phase
phase_of planned = plan_phase
phase_of apply_queued = apply_phase
phase_of applying = apply_phase
phase_of applied = apply_phase
phase_of _ = unknown_phase

abbrev pub current_phase : Run → PhaseType
current_phase r = phase_of r.status

-- `Discardable`.
abbrev pub discardable : Status → Bool
discardable pending = true
discardable planned = true
discardable cost_estimated = true
discardable _ = false

-- `Confirmable`.
abbrev pub confirmable : Status → Bool
confirmable planned = true
confirmable _ = false

-- `InProgress`.
abbrev pub in_progress : Status → Bool
in_progress planning = true
in_progress applying = true
in_progress _ = false

is_pending : Status → Bool
is_pending pending = true
is_pending _ = false

-- `Discard`. The second test reads the status that the line above it has just written.
unfoldable pub discard : (ℕ → Time) → Run → Run × Option RunError
unfolding is_pending
discard clock r =
    let r1 = move_to discarded (clock 0) r in
    let r2 = if is_pending r1.status then plan_to PhaseStatus.unreachable (clock 1) r1 else r1 in
    if discardable r.status
    then (apply_to PhaseStatus.unreachable (clock 2) r2, none)
    else (r, some discard_not_allowed)

-- `cancelCoolOff`.
abbrev pub cancel_cool_off : Option Time → Option Time
cancel_cool_off none = none
cancel_cool_off (some t) = some (t + 10 * second)

-- `ForceCancelAvailableAt`.
abbrev pub force_cancel_available_at : Run → Option Time
force_cancel_available_at r = if run_done r then none else cancel_cool_off r.cancel_signaled_at

abbrev not_before : Time → Option Time → Bool
not_before now none = false
not_before now (some available) = not (ltb now available)

-- `ForceCancelable`, which compares the unrounded time.
abbrev pub force_cancelable : Time → Run → Bool
force_cancelable now r = not_before now (force_cancel_available_at r)

abbrev cancelable_status : Status → Bool
cancelable_status pending = true
cancelable_status plan_queued = true
cancelable_status planning = true
cancelable_status apply_queued = true
cancelable_status applying = true
cancelable_status _ = false

abbrev unsignaled : Option Time → Bool
unsignaled none = true
unsignaled (some t) = false

-- `Cancelable`.
abbrev pub cancelable : Run → Bool
cancelable r = unsignaled r.cancel_signaled_at && cancelable_status r.status

-- The switch of `Cancel`: the phases, and whether a signal is to be sent.
cancel_phases : Status → Bool → Bool → (ℕ → Time) → Run → Run × Bool
cancel_phases pending user force clock r = (
  apply_to PhaseStatus.unreachable (clock 2) (plan_to PhaseStatus.unreachable (clock 1) r),
  false,
)
cancel_phases plan_queued user force clock r =
    (apply_to PhaseStatus.unreachable (clock 4) (plan_to PhaseStatus.canceled (clock 3) r), false)
cancel_phases apply_queued user force clock r = (apply_to PhaseStatus.canceled (clock 5) r, false)
cancel_phases planning user force clock r = if user && not force then (r, true) else (
  apply_to PhaseStatus.unreachable (clock 7) (plan_to PhaseStatus.canceled (clock 6) r),
  false,
)
cancel_phases planned user force clock r = (apply_to PhaseStatus.unreachable (clock 8) r, false)
cancel_phases applying user force clock r =
    if user && not force then (r, true) else (apply_to PhaseStatus.canceled (clock 9) r, false)
cancel_phases _ user force clock r = (r, false)

-- What follows the switch.
cancel_end : Bool → (ℕ → Time) → Run × Bool → Run × Option RunError
cancel_end force clock (r, true) =
    if unsignaled r.cancel_signaled_at
    then (record r { cancel_signaled_at = some (current_timestamp none (clock 10)) }, none)
    else (r, some cancel_not_allowed)
cancel_end true clock (r, false) = (move_to force_canceled (clock 11) r, none)
cancel_end false clock (r, false) = (move_to canceled (clock 12) r, none)

-- `Cancel(isUser, force)`.
unfoldable pub cancel : Bool → Bool → (ℕ → Time) → Run → Run × Option RunError
unfolding cancel_phases cancel_end
cancel user force clock r =
    if force && not (user && force_cancelable (clock 0) r)
    then (r, some force_cancel_not_allowed)
    else cancel_end force clock (cancel_phases r.status user force clock r)

enqueue_plan_from : Status → (ℕ → Time) → Run → Run × Option RunError
enqueue_plan_from pending clock r =
    (plan_to PhaseStatus.queued (clock 1) (move_to plan_queued (clock 0) r), none)
enqueue_plan_from s clock r = (r, some (cannot_enqueue s))

-- `EnqueuePlan`.
unfoldable pub enqueue_plan : (ℕ → Time) → Run → Run × Option RunError
unfolding enqueue_plan_from
enqueue_plan clock r = enqueue_plan_from r.status clock r

enqueue_apply_from : Status → (ℕ → Time) → Run → Run × Option RunError
enqueue_apply_from planned clock r =
    (apply_to PhaseStatus.queued (clock 1) (move_to apply_queued (clock 0) r), none)
enqueue_apply_from cost_estimated clock r =
    (apply_to PhaseStatus.queued (clock 1) (move_to apply_queued (clock 0) r), none)
enqueue_apply_from s clock r = (r, some (cannot_apply s))

-- `EnqueueApply`.
unfoldable pub enqueue_apply : (ℕ → Time) → Run → Run × Option RunError
unfolding enqueue_apply_from
enqueue_apply clock r = enqueue_apply_from r.status clock r

unfoldable pub find_status : Status → List StatusTimestamp → Result RunError Time
find_status status [] = err status_timestamp_not_found
find_status status (rst ∷ rest) =
    ite (Status-discrete rst.status status) (ok rst.timestamp) (find_status status rest)

-- `StatusTimestamp`.
unfoldable pub status_timestamp : Run → Status → Result RunError Time
unfolding find_status
status_timestamp r status = find_status status r.status_timestamps

start_from : Status → (ℕ → Time) → Run → Run × Option RunError
start_from plan_queued clock r =
    (plan_to PhaseStatus.running (clock 1) (move_to planning (clock 0) r), none)
start_from apply_queued clock r =
    (apply_to PhaseStatus.running (clock 3) (move_to applying (clock 2) r), none)
start_from planning clock r = (r, some phase_already_started)
start_from applying clock r = (r, some phase_already_started)
start_from _ clock r = (r, some invalid_run_state_transition)

-- `Start`.
unfoldable pub start : (ℕ → Time) → Run → Run × Option RunError
unfolding start_from
start clock r = start_from r.status clock r

-- `HasChanges`.
abbrev pub has_changes : Run → Bool
has_changes r = Phase.has_changes r.plan

-- The results of `Finish`.
pub record Finished : Type 0 where
  pub run : Run
  pub autoapply : Bool
  pub error : Option RunError

abbrev finished : Run → Bool → Option RunError → Finished
finished r a e = record { run = r; autoapply = a; error = e }

finish_plan : Bool → (ℕ → Time) → Run → Finished
finish_plan true clock r =
    finished
      (apply_to PhaseStatus.unreachable (clock 2)
        (plan_to PhaseStatus.errored (clock 1) (move_to errored (clock 0) r)))
      false none
finish_plan false clock r =
    let r1 =
      if r.cost_estimation_enabled
      then move_to cost_estimated (clock 3) r
      else move_to planned (clock 4) r in
    let r2 = plan_to PhaseStatus.finished (clock 5) r1 in
    if not (has_changes r2) || r2.plan_only
    then finished
        (apply_to PhaseStatus.unreachable (clock 7) (move_to planned_and_finished (clock 6) r2))
        false none
    else finished r2 r2.auto_apply none

finish_apply : Bool → (ℕ → Time) → Run → Finished
finish_apply true clock r =
    finished (apply_to PhaseStatus.errored (clock 9) (move_to errored (clock 8) r)) false none
finish_apply false clock r =
    finished (apply_to PhaseStatus.finished (clock 11) (move_to applied (clock 10) r)) false none

finish_from : Status → PhaseType → Bool → (ℕ → Time) → Run → Finished
unfolding finish_plan finish_apply
finish_from canceled phase failed clock r = finished r false none
finish_from planning plan_phase failed clock r = finish_plan failed clock r
finish_from _ plan_phase failed clock r = finished r false (some invalid_run_state_transition)
finish_from applying apply_phase failed clock r = finish_apply failed clock r
finish_from _ apply_phase failed clock r = finished r false (some invalid_run_state_transition)
finish_from _ _ failed clock r = finished r false (some unknown_phase_error)

-- `Finish(phase, opts)`; `failed` is `opts.Errored`.
unfoldable pub finish : PhaseType → Bool → (ℕ → Time) → Run → Finished
unfolding finish_from
finish phase failed clock r = finish_from r.status phase failed clock r

-- A call of one of the operations.
pub data Event : Type 0 where
  enqueues_plan enqueues_apply starts discards : Event
  finishes : PhaseType → (failed : Bool) → Event
  cancels : (user force : Bool) → Event

unfoldable pub step : Event → (ℕ → Time) → Run → Run × Option RunError
unfolding enqueue_plan enqueue_apply start discard finish cancel
step enqueues_plan clock r = enqueue_plan clock r
step enqueues_apply clock r = enqueue_apply clock r
step starts clock r = start clock r
step discards clock r = discard clock r
step (finishes phase failed) clock r = let f = finish phase failed clock r in (f.run, f.error)
step (cancels user force) clock r = cancel user force clock r

-- A sequence of calls, each with its clock. A call that fails leaves what it has written.
unfoldable pub run_events : List (Event × (ℕ → Time)) → Run → Run
run_events [] r = r
run_events ((e, clock) ∷ es) r = run_events es (step e clock r).0
