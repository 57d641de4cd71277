-- ===== src/Run/Lifecycle/Phases.antt =====
-- The status of a run against the statuses of its two phases.
use otf.Prelude.{ℕ, ◌≡◌, refl, ◌⊎◌, List, [], ◌∷◌, arith}
use otf.Time.{Time}
use otf.Resource.{TfeId}
use otf.Workspace.Types.{Workspace}
use otf.ConfigVersion.{ConfigurationVersion}
use otf.Run.Status.{
  Status, applied, apply_queued, applying, canceled, confirmed, discarded, errored, force_canceled,
  pending, plan_queued, planned, planned_and_finished, planning, cost_estimated,
}
use otf.Run.Phase.{PhaseStatus, new_phase}
use otf.Run.Types.{Run}
use otf.Run.Create.{CreateOptions, new_run}
use otf.Run.Lifecycle.{
  Event, enqueues_plan, enqueues_apply, starts, discards, finishes, cancels, step, run_events,
}

-- Which statuses of the plan and of the apply go with a status of the run. A canceled run is
-- left out: it keeps what its phases were.
abbrev pub Agree : Status → PhaseStatus → PhaseStatus → Type 0
Agree pending p a = (p ≡ PhaseStatus.pending) × (a ≡ PhaseStatus.pending)
Agree plan_queued p a = (p ≡ PhaseStatus.queued) × (a ≡ PhaseStatus.pending)
Agree planning p a = (p ≡ PhaseStatus.running) × (a ≡ PhaseStatus.pending)
Agree planned p a = (p ≡ PhaseStatus.finished) × (a ≡ PhaseStatus.pending)
Agree cost_estimated p a = (p ≡ PhaseStatus.finished) × (a ≡ PhaseStatus.pending)
Agree planned_and_finished p a = (p ≡ PhaseStatus.finished) × (a ≡ PhaseStatus.unreachable)
Agree apply_queued p a = (p ≡ PhaseStatus.finished) × (a ≡ PhaseStatus.queued)
Agree applying p a = (p ≡ PhaseStatus.finished) × (a ≡ PhaseStatus.running)
Agree applied p a = (p ≡ PhaseStatus.finished) × (a ≡ PhaseStatus.finished)
Agree errored p a =
    ((p ≡ PhaseStatus.errored) × (a ≡ PhaseStatus.unreachable))
    ⊎ ((p ≡ PhaseStatus.finished) × (a ≡ PhaseStatus.errored))
Agree discarded p a =
    ((p ≡ PhaseStatus.pending) ⊎ (p ≡ PhaseStatus.finished)) × (a ≡ PhaseStatus.unreachable)
Agree confirmed p a = ⊥
Agree canceled p a = Unit
Agree force_canceled p a = Unit

abbrev pub PhasesAgree : Run → Type 0
PhasesAgree r = Agree r.status r.plan.status r.apply.status

-- A new run's phases agree with its status.
pub new_run-PhasesAgree :
    (id : TfeId) (clock : ℕ → Time) (ws : Workspace) (cv : ConfigurationVersion)
    (opts : CreateOptions)
    → PhasesAgree (new_run id clock ws cv opts)
unfolding new_run new_phase
new_run-PhasesAgree id clock ws cv opts = (refl, refl)

-- Every operation, on every branch, keeps the phases in agreement with the status.
pub step-PhasesAgree :
    (e : Event) (clock : ℕ → Time) (r : Run) → PhasesAgree r → PhasesAgree (step e clock r).0
unfolding step
step-PhasesAgree enqueues_plan clock r h = ground arith
step-PhasesAgree enqueues_apply clock r h = ground arith
step-PhasesAgree starts clock r h = ground arith
step-PhasesAgree discards clock r h = ground arith
step-PhasesAgree (finishes phase failed) clock r h = ground arith
step-PhasesAgree (cancels user force) clock r h = ground arith

-- If the statuses of a run's phases agree with the run's status, they agree after any sequence of
-- operations. A run that is canceled, by force or not, agrees with any phases.
pub run_events-PhasesAgree :
    (events : List (Event × (ℕ → Time))) (r : Run)
    → PhasesAgree r
    → PhasesAgree (run_events events r)
unfolding run_events
run_events-PhasesAgree [] r h = h
run_events-PhasesAgree ((e, clock) ∷ es) r h =
    run_events-PhasesAgree es (step e clock r).0 (step-PhasesAgree e clock r h)
