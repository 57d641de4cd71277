-- ===== src/Run/Store/Written.antt =====
-- What an operation changes is always found when it is written.
use otf.Prelude.{
  ℕ, ◌≡◌, refl, sym, ap, ◌∙◌, ◌⊎◌, inl, inr, Bool, true, false, Option, none, some, List, [], ◌∷◌,
  ◌++◌, arith, Result, ok, err, Result-cases, ite,
}
use otf.Time.{Time, current_timestamp}
use otf.Run.Status.{Status, Status-discrete}
use otf.Run.Phase.{Phase, PhaseStatus, PhaseType, PhaseStatusTimestamp, PhaseStatus-discrete}
use otf.Run.Phase
use otf.Run.Types.{Run, StatusTimestamp}
use otf.Run.Lifecycle.{
  Event, enqueues_plan, enqueues_apply, starts, discards, finishes, cancels, step, status_timestamp,
  find_status, move_to,
}
use otf.Run.Store.{
  timestamps_written, phase_written, phase_with, row_with, scan, update_row, update_status,
}

abbrev is_ok {ℓ κ} : {E : Type ℓ} {A : Type κ} → Result E A → Bool
is_ok (ok a) = true
is_ok (err e) = false

find_status-snoc :
    (l : List StatusTimestamp) (s : Status) (t : Time)
    → is_ok (find_status s (l ++ record { status = s; timestamp = t } ∷ [])) ≡ true
unfolding find_status
find_status-snoc [] s t = ground arith
find_status-snoc (x ∷ l) s t = ground (arith, find_status-snoc l s t)

find_phase_status-snoc :
    (l : List PhaseStatusTimestamp) (p : PhaseType) (s : PhaseStatus) (t : Time)
    → is_ok (Phase.find_status s (l ++ record { phase = p; status = s; timestamp = t } ∷ [])) ≡ true
unfolding Phase.find_status
find_phase_status-snoc [] p s t = ground arith
find_phase_status-snoc (x ∷ l) p s t = ground (arith, find_phase_status-snoc l p s t)

abbrev shows : Run → Bool
shows r = is_ok (status_timestamp r r.status)

-- A run that moves shows the timestamp of its status, whatever becomes of its phases.
move_to-shows :
    (u : Status) (t : Time) (r : Run)
    → is_ok (find_status u (move_to u t r).status_timestamps) ≡ true
move_to-shows u t r = find_status-snoc r.status_timestamps u (current_timestamp none t)

-- An operation shows the timestamp of the status that it has changed.
step-shows :
    (e : Event) (clock : ℕ → Time) (r : Run)
    → ((step e clock r).0.status ≡ r.status) ⊎ (shows (step e clock r).0 ≡ true)
unfolding step status_timestamp
step-shows enqueues_plan clock r = ground (arith, move_to-shows Status.plan_queued (clock 0) r)
step-shows enqueues_apply clock r = ground (arith, move_to-shows Status.apply_queued (clock 0) r)
step-shows starts clock r =
    ground
      (arith, move_to-shows Status.planning (clock 0) r, move_to-shows Status.applying (clock 2) r)
step-shows discards clock r = ground (arith, move_to-shows Status.discarded (clock 0) r)
step-shows (finishes phase failed) clock r = ground (
  arith,
  move_to-shows Status.errored (clock 0) r,
  move_to-shows Status.errored (clock 8) r,
  move_to-shows Status.applied (clock 10) r,
  move_to-shows Status.planned (clock 4) r,
  move_to-shows Status.cost_estimated (clock 3) r,
  move_to-shows Status.planned_and_finished (clock 6) (move_to Status.planned (clock 4) r),
  move_to-shows Status.planned_and_finished (clock 6) (move_to Status.cost_estimated (clock 3) r),
)
step-shows (cancels user force) clock r = ground (
  arith,
  move_to-shows Status.canceled (clock 12) r,
  move_to-shows Status.force_canceled (clock 11) r,
)

-- The same for a phase.
abbrev phase_shows : Phase → Bool
phase_shows p = is_ok (Phase.status_timestamp p p.status)

update_status-phase_shows :
    (s : PhaseStatus) (t : Time) (p : Phase)
    → is_ok (Phase.find_status s (Phase.update_status s t p).status_timestamps) ≡ true
update_status-phase_shows s t p =
    find_phase_status-snoc p.status_timestamps p.phase_type s (current_timestamp none t)

step-plan_shows :
    (e : Event) (clock : ℕ → Time) (r : Run)
    → ((step e clock r).0.plan.status ≡ r.plan.status)
      ⊎ (phase_shows (step e clock r).0.plan ≡ true)
unfolding step Phase.status_timestamp
step-plan_shows enqueues_plan clock r =
    ground (arith, update_status-phase_shows Phase.queued (clock 1) r.plan)
step-plan_shows enqueues_apply clock r = ground arith
step-plan_shows starts clock r =
    ground (arith, update_status-phase_shows Phase.running (clock 1) r.plan)
step-plan_shows discards clock r = ground arith
step-plan_shows (finishes phase failed) clock r = ground (
  arith,
  update_status-phase_shows Phase.errored (clock 1) r.plan,
  update_status-phase_shows Phase.finished (clock 5) r.plan,
)
step-plan_shows (cancels user force) clock r = ground (
  arith,
  update_status-phase_shows Phase.unreachable (clock 1) r.plan,
  update_status-phase_shows Phase.canceled (clock 3) r.plan,
  update_status-phase_shows Phase.canceled (clock 6) r.plan,
)

step-apply_shows :
    (e : Event) (clock : ℕ → Time) (r : Run)
    → ((step e clock r).0.apply.status ≡ r.apply.status)
      ⊎ (phase_shows (step e clock r).0.apply ≡ true)
unfolding step Phase.status_timestamp
step-apply_shows enqueues_plan clock r = ground arith
step-apply_shows enqueues_apply clock r =
    ground (arith, update_status-phase_shows Phase.queued (clock 1) r.apply)
step-apply_shows starts clock r =
    ground (arith, update_status-phase_shows Phase.running (clock 3) r.apply)
step-apply_shows discards clock r =
    ground (arith, update_status-phase_shows Phase.unreachable (clock 2) r.apply)
step-apply_shows (finishes phase failed) clock r = ground (
  arith,
  update_status-phase_shows Phase.unreachable (clock 2) r.apply,
  update_status-phase_shows Phase.unreachable (clock 7) r.apply,
  update_status-phase_shows Phase.errored (clock 9) r.apply,
  update_status-phase_shows Phase.finished (clock 11) r.apply,
)
step-apply_shows (cancels user force) clock r = ground (
  arith,
  update_status-phase_shows Phase.unreachable (clock 2) r.apply,
  update_status-phase_shows Phase.unreachable (clock 4) r.apply,
  update_status-phase_shows Phase.canceled (clock 5) r.apply,
  update_status-phase_shows Phase.unreachable (clock 7) r.apply,
  update_status-phase_shows Phase.unreachable (clock 8) r.apply,
  update_status-phase_shows Phase.canceled (clock 9) r.apply,
)

-- A choice between two values that are there is there.
ite-found {ℓ κ} :
    {P : Type ℓ} {A : Type κ} (d : Dec P) (x : A) (o : Option A)
    → (¬ P → (a : A) × (o ≡ some a))
    → (a : A) × (ite d (some x) o ≡ some a)
ite-found (yes p) x o f = (x, refl)
ite-found (no n) x o f = f n

timestamps_written-found :
    (old new : Run)
    → (new.status ≡ old.status) ⊎ (shows new ≡ true)
    → (l : List StatusTimestamp) × (timestamps_written old new ≡ some l)
unfolding timestamps_written
timestamps_written-found old new d =
    ite-found (Status-discrete new.status old.status) old.status_timestamps _ (λ n.
      elim (Result-cases (status_timestamp new new.status)) [
        | inl (t, q) ↦
            (old.status_timestamps ++ record { status = new.status; timestamp = t } ∷ [], rw q refl)
        | inr (x, q) ↦ absurd (ground (arith, n))
      ])

phase_written-found :
    (old new : Phase)
    → (new.status ≡ old.status) ⊎ (phase_shows new ≡ true)
    → (p : Phase) × (phase_written old new ≡ some p)
unfolding phase_written
phase_written-found old new d = ite-found (PhaseStatus-discrete new.status old.status) old _ (λ n.
    elim (Result-cases (Phase.status_timestamp new new.status)) [
      | inl (t, q) ↦ (phase_with old new t, rw q refl)
      | inr (x, q) ↦ absurd (ground (arith, n))
    ])

phase_written-status : (old new p : Phase) → phase_written old new ≡ some p → p.status ≡ new.status
unfolding phase_written
phase_written-status old new p e = ground arith

-- A signal that an operation leaves in the run is written.
pub update_status-signaled :
    (e : Event) (clock : ℕ → Time) (row r : Run) (t : Time)
    → (step e clock row).1 ≡ none
    → (step e clock row).0.cancel_signaled_at ≡ some t
    → update_status e clock row ≡ (r, none)
    → r.cancel_signaled_at ≡ some t
unfolding update_status update_row
update_status-signaled e clock row r t h s u =
    let run = (step e clock row).0 in
    let (ts, a) = timestamps_written-found row run (step-shows e clock row) in
    let (plan, b) = phase_written-found row.plan run.plan (step-plan_shows e clock row) in
    let (apply, c) = phase_written-found row.apply run.apply (step-apply_shows e clock row) in
    let same : update_status e clock row ≡ (scan (row_with row run ts plan apply), none) =
      rw (update_status, update_row, h, a, b, c) refl in
    ap (λ p. p.0.cancel_signaled_at) (sym u ∙ same) ∙ rw s refl

-- An operation that succeeds is written without an error, and the row that it leaves has the
-- statuses of the run and of its phases that the operation has set.
pub update_status-succeeds :
    (e : Event) (clock : ℕ → Time) (row : Run)
    → (step e clock row).1 ≡ none
    → let run = (step e clock row).0 in
      (r : Run) × (update_status e clock row ≡ (r, none))
      × (r.status ≡ run.status)
      × (r.plan.status ≡ run.plan.status)
      × (r.apply.status ≡ run.apply.status)
unfolding update_status update_row
update_status-succeeds e clock row h =
    let run = (step e clock row).0 in
    let (ts, t) = timestamps_written-found row run (step-shows e clock row) in
    let (plan, p) = phase_written-found row.plan run.plan (step-plan_shows e clock row) in
    let (apply, a) = phase_written-found row.apply run.apply (step-apply_shows e clock row) in
    (
      scan (row_with row run ts plan apply),
      rw (update_status, update_row, h, t, p, a) refl,
      refl,
      phase_written-status row.plan run.plan plan p,
      phase_written-status row.apply run.apply apply a,
    )
