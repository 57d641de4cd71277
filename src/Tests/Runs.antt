-- ===== src/Tests/Runs.antt =====
-- The theorems on the life of a run, at concrete runs.
use otf.Prelude.{
  ℕ, ◌+◌, ◌*◌, ◌≤◌, ◌≡◌, refl, ◌↔◌, ◌⊎◌, Bool, true, false, none, some, List, [], ◌∷◌, arith,
}
use otf.Time.{Time, second, current_timestamp, round_millisecond}
use otf.Run.Status.{Status}
use otf.Run.Phase
use otf.Run.Types.{run_done}
use otf.Run.Create.{new_run}
use otf.Run.Lifecycle.{
  Event, enqueues_plan, enqueues_apply, starts, discards, finishes, cancels, run_events, step,
  cancel, has_changes, discard_not_allowed,
}
use otf.Run.Lifecycle.History.{HasHistory, run_events-HasHistory}
use otf.Run.Lifecycle.Phases.{PhasesAgree, run_events-PhasesAgree, new_run-PhasesAgree}
use otf.Run.Lifecycle.Rules.{step_error_unchanged, step_of_done, cancel_forced_iff}
use otf.Run.Lifecycle.Clock.{RisesTo, run_events-RisesTo}
use otf.Tests.Samples.{
  clock_at, dev, config_1, defaults, run_id, pending_run, done_run, planning_run,
}

-- A run that is planned, applied, and finished.
abbrev whole_life : List (Event × (ℕ → Time))
whole_life =
    (enqueues_plan, clock_at 1)
    ∷ (starts, clock_at 2)
    ∷ (finishes Phase.plan_phase false, clock_at 3)
    ∷ (enqueues_apply, clock_at 4)
    ∷ (starts, clock_at 5)
    ∷ (finishes Phase.apply_phase false, clock_at 6)
    ∷ []

run_events-HasHistory_example : HasHistory (run_events whole_life pending_run)
run_events-HasHistory_example = run_events-HasHistory whole_life pending_run (refl, refl)

run_events-PhasesAgree_example : PhasesAgree (run_events whole_life pending_run)
run_events-PhasesAgree_example = run_events-PhasesAgree whole_life pending_run (refl, refl)

new_run-PhasesAgree_example : PhasesAgree (new_run (run_id "1") (clock_at 0) dev config_1 defaults)
new_run-PhasesAgree_example = new_run-PhasesAgree (run_id "1") (clock_at 0) dev config_1 defaults

whole_life-applied : (run_events whole_life pending_run).status ≡ Status.applied
unfolding run_events step has_changes Phase.has_changes new_run
whole_life-applied = refl

discard-refused : (step discards (clock_at 9) done_run).1 ≡ some discard_not_allowed
unfolding step
discard-refused = refl

step_error_unchanged_example : (step discards (clock_at 9) done_run).0 ≡ done_run
step_error_unchanged_example = step_error_unchanged discards (clock_at 9) done_run discard-refused

step_of_done_example :
    ((step (cancels true false) (clock_at 9) done_run).0 ≡ done_run)
    ⊎ ((user : Bool) × (cancels true false ≡ cancels user false)
        × ((step (cancels true false) (clock_at 9) done_run).0.status ≡ Status.canceled))
step_of_done_example = step_of_done (cancels true false) (clock_at 9) done_run refl

cancel_forced_iff_example : ((cancel true true (clock_at 10000000000) planning_run).1 ≡ none) ↔ (
    (true ≡ true)
    × (run_done planning_run ≡ false)
    × (t : Time) × (planning_run.cancel_signaled_at ≡ some t)
    × (t + 10 * second ≤ 10000000000))
cancel_forced_iff_example = cancel_forced_iff true (clock_at 10000000000) planning_run

zero-rises : RisesTo pending_run 0
unfolding current_timestamp round_millisecond
zero-rises = (omega arith, omega arith)

run_events-RisesTo_example :
    RisesTo
      (run_events ((enqueues_plan, clock_at 1000000) ∷ (starts, clock_at 2000000) ∷ []) pending_run)
      2000000
run_events-RisesTo_example =
    run_events-RisesTo ((enqueues_plan, clock_at 1000000) ∷ (starts, clock_at 2000000) ∷ [])
      pending_run 0 2000000
      (
        1000000,
        λ i. (omega arith, omega arith, omega arith),
        (2000000, λ i. (omega arith, omega arith, omega arith), omega arith),
      )
      zero-rises
