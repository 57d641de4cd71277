-- ===== src/Run/Lifecycle/Rules.antt =====
-- What each operation permits, and what it refuses.
use otf.Prelude.{ℕ, ◌+◌, ◌*◌, ◌≤◌, ◌≡◌, refl, ◌⊎◌, ◌↔◌, Bool, true, false, none, some, arith, inr}
use otf.Time.{Time, second}
use otf.Run.Status.{canceled, planning}
use otf.Run.Phase.{PhaseStatus, PhaseType, plan_phase}
use otf.Run.Phase
use otf.Run.Types.{Run, run_done}
use otf.Run.Lifecycle.{
  RunError, Event, enqueues_plan, enqueues_apply, starts, discards, finishes, cancels, step, finish,
  cancel, has_changes,
}

-- An operation that returns an error has changed nothing.
pub step_error_unchanged :
    (e : Event) (clock : ℕ → Time) (r : Run) {x : RunError}
    → (step e clock r).1 ≡ some x
    → (step e clock r).0 ≡ r
unfolding step
step_error_unchanged enqueues_plan clock r h = ground arith
step_error_unchanged enqueues_apply clock r h = ground arith
step_error_unchanged starts clock r h = ground arith
step_error_unchanged discards clock r h = ground arith
step_error_unchanged (finishes phase failed) clock r h = ground arith
step_error_unchanged (cancels user force) clock r h = ground arith

abbrev pub is_cancel : Event → Bool
is_cancel (cancels user force) = true
is_cancel _ = false

-- A run in an end state is changed by no operation but a cancelation without force, which leaves
-- it canceled.
pub step_of_done :
    (e : Event) (clock : ℕ → Time) (r : Run)
    → run_done r ≡ true
    → ((step e clock r).0 ≡ r)
      ⊎ ((user : Bool) × (e ≡ cancels user false) × ((step e clock r).0.status ≡ canceled))
unfolding step
step_of_done enqueues_plan clock r h = ground arith
step_of_done enqueues_apply clock r h = ground arith
step_of_done starts clock r h = ground arith
step_of_done discards clock r h = ground arith
step_of_done (finishes phase failed) clock r h = ground arith
step_of_done (cancels user true) clock r h = ground arith
step_of_done (cancels user false) clock r h = inr (user, refl, ground arith)

-- The end of a plan asks for an automatic apply exactly when the run was planning, the plan did
-- not fail and reports changes, and the run is not plan-only and is set to apply automatically.
pub finish_plan-autoapply :
    (failed : Bool) (clock : ℕ → Time) (r : Run)
    → ((finish plan_phase failed clock r).autoapply ≡ true) ↔ (
        (r.status ≡ planning)
        × (failed ≡ false)
        × (has_changes r ≡ true)
        × (r.plan_only ≡ false)
        × (r.auto_apply ≡ true))
unfolding finish Phase.has_changes
finish_plan-autoapply failed clock r = ground arith

-- A forced cancelation succeeds exactly when a user asks for it, the run is not in an end state, a
-- signal was recorded, and ten seconds have passed since.
pub cancel_forced_iff :
    (user : Bool) (clock : ℕ → Time) (r : Run)
    → ((cancel user true clock r).1 ≡ none) ↔ (
        (user ≡ true)
        × (run_done r ≡ false)
        × (t : Time) × (r.cancel_signaled_at ≡ some t)
        × (t + 10 * second ≤ clock 0))
unfolding cancel
cancel_forced_iff user clock r = ground arith
