-- ===== src/Runner/Job/States.antt =====
-- The state machine of a job.
use otf.Prelude.{◌≡◌, refl, ◌⊎◌, ◌↔◌, Bool, true, false, none, List, [], ◌∷◌, arith, is_some, All}
use otf.Resource.{TfeId}
use otf.Run.Types.{Run}
use otf.Run.Status.{done, planning, applying}
use otf.Run.Status
use otf.Runner.Job.{
  Job, JobStatus, allocated, running, finished, errored, canceled, allocate, reallocate, start_job,
  finish_job, cancel_for, update_status,
}

-- A call of one of the operations on a job.
pub data Event : Type 0 where
  allocates reallocates : (runner : TfeId) → Event
  starts : Event
  finishes : JobStatus → Event
  cancels : Run → Event

unfoldable pub step : Event → Job → Job
unfolding allocate reallocate update_status cancel_for
step (allocates runner) j = (allocate runner j).0
step (reallocates runner) j = (reallocate runner j).0
step starts j = (start_job j).0
step (finishes to) j = (finish_job to j).0
step (cancels run) j = (cancel_for run j).job

unfoldable pub run_events : List Event → Job → Job
run_events [] j = j
run_events (e ∷ es) j = run_events es (step e j)

-- Whether a status is reached only with a runner.
abbrev pub needs_runner : JobStatus → Bool
needs_runner allocated = true
needs_runner running = true
needs_runner finished = true
needs_runner errored = true
needs_runner _ = false

abbrev pub HasRunner : Job → Type 0
HasRunner j = needs_runner j.status ≡ true → is_some j.runner_id ≡ true

abbrev pub is_final : JobStatus → Bool
is_final finished = true
is_final errored = true
is_final canceled = true
is_final _ = false

-- A call that finishes a job names a final status.
abbrev pub IsProper : Event → Type 0
IsProper (finishes to) = is_final to ≡ true
IsProper _ = Unit

step-HasRunner : (e : Event) (j : Job) → IsProper e → HasRunner j → HasRunner (step e j)
unfolding step
step-HasRunner (allocates runner) j f h = λ n. ground arith
step-HasRunner (reallocates runner) j f h = λ n. ground arith
step-HasRunner starts j f h = λ n. ground arith
step-HasRunner (finishes to) j f h = λ n. ground arith
step-HasRunner (cancels run) j f h = λ n. ground arith

-- After any calls on a job, of which those that finish it name a final status, a job that is
-- allocated, running, finished or errored has a runner, if it was so before.
pub run_events-HasRunner :
    (es : List Event) (j : Job) → All IsProper es → HasRunner j → HasRunner (run_events es j)
unfolding run_events
run_events-HasRunner [] j f h = h
run_events-HasRunner (e ∷ es) j f h =
    run_events-HasRunner es (step e j) f.1 (step-HasRunner e j f.0 h)

step_of_final : (e : Event) (j : Job) → is_final j.status ≡ true → step e j ≡ j
unfolding step
step_of_final (allocates runner) j h = ground arith
step_of_final (reallocates runner) j h = ground arith
step_of_final starts j h = ground arith
step_of_final (finishes to) j h = ground arith
step_of_final (cancels run) j h = ground arith

-- No calls change a job that is finished, errored or canceled.
pub run_events_of_final :
    (es : List Event) (j : Job) → is_final j.status ≡ true → run_events es j ≡ j
unfolding run_events
run_events_of_final [] j h = refl
run_events_of_final (e ∷ es) j h =
    let stays = step_of_final e j h in
    let still : is_final (step e j).status ≡ true = ground arith in
    ground (arith, run_events_of_final es (step e j) still)

-- For a job that is not in a final state, a cancelation signals and forces it exactly when the
-- run was forceably canceled, signals it without force exactly when the run is in progress and
-- signaled, and cancels it at once exactly when the run is canceled or forceably canceled.
pub cancel_for_cases :
    (run : Run) (j : Job)
    → is_final j.status ≡ false
    → let c = cancel_for run j in
      (c.error ≡ none)
      × ((c.force ≡ true) ↔ (run.status ≡ Status.force_canceled))
      × ((c.signal ≡ true) ↔ (
          (run.status ≡ Status.force_canceled)
          ⊎ (((run.status ≡ planning) ⊎ (run.status ≡ applying))
              × (is_some run.cancel_signaled_at ≡ true))))
      × ((c.job.status ≡ canceled)
          ↔ ((run.status ≡ Status.canceled) ⊎ (run.status ≡ Status.force_canceled)))
unfolding cancel_for
cancel_for_cases run j h = (
  ground arith,
  (λ k. ground arith, λ k. ground arith),
  (λ k. ground arith, λ k. ground arith),
  (λ k. ground arith, λ k. ground arith),
)
