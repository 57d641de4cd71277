-- ===== src/Run/Lifecycle/Diagram.antt =====
-- The transition diagram of a run, with the phases and the clock left out.
use otf.Prelude.{◌≡◌, false}
use otf.Run.Status.{
  Status, applied, apply_queued, applying, canceled, discarded, errored, force_canceled, pending,
  plan_queued, planned, planned_and_finished, planning, cost_estimated, done,
}

infix 40 ◌⟶◌
pub data ◌⟶◌ : Status → Status → Type 0 where
  enqueue : pending ⟶ plan_queued
  start_plan : plan_queued ⟶ planning
  plan : planning ⟶ planned
  estimate : planning ⟶ cost_estimated
  fail_plan : planning ⟶ errored
  finish_planned : planned ⟶ planned_and_finished
  finish_estimated : cost_estimated ⟶ planned_and_finished
  approve_planned : planned ⟶ apply_queued
  approve_estimated : cost_estimated ⟶ apply_queued
  start_apply : apply_queued ⟶ applying
  apply : applying ⟶ applied
  fail_apply : applying ⟶ errored
  discard_pending : pending ⟶ discarded
  discard_planned : planned ⟶ discarded
  discard_estimated : cost_estimated ⟶ discarded
  cancel : {s : Status} → s ⟶ canceled
  force_cancel : {s : Status} → done s ≡ false → s ⟶ force_canceled
