-- ===== src/Run/Lifecycle/History.antt =====
-- The timestamps of a run are a walk through the transition diagram.
use otf.Prelude.{
  ℕ, ◌≡◌, refl, sym, subst, Bool, true, false, List, [], ◌∷◌, ◌++◌, arith, if◌then◌else◌,
}
use otf.Time.{Time}
use otf.Run.Status.{
  Status, applied, apply_queued, applying, canceled, discarded, errored, force_canceled, pending,
  plan_queued, planned, planned_and_finished, planning, cost_estimated, done,
}
use otf.Run.Phase.{PhaseType, plan_phase, apply_phase}
use otf.Run.Types.{Run, StatusTimestamp}
use otf.Run.Lifecycle.{
  run_events, Event, enqueues_plan, enqueues_apply, starts, discards, finishes, cancels, step,
  move_to, start_from, enqueue_plan_from, enqueue_apply_from, finish_plan, finish_apply,
  finish_from, discard, cancel,
}
use otf.Run.Lifecycle.Diagram.{◌⟶◌}
use otf.Run.Lifecycle.Diagram

-- The statuses of `l`, read after `s`, follow edges of the diagram and end in `t`.
abbrev pub IsPath : Status → List StatusTimestamp → Status → Type 0
IsPath s [] t = s ≡ t
IsPath s (x ∷ xs) t = (s ⟶ x.status) × IsPath x.status xs t

-- A history begins with `pending`.
abbrev pub IsTrail : List StatusTimestamp → Status → Type 0
IsTrail [] t = ⊥
IsTrail (x ∷ xs) t = (x.status ≡ pending) × IsPath x.status xs t

abbrev pub HasHistory : Run → Type 0
HasHistory r = IsTrail r.status_timestamps r.status

IsPath-snoc :
    (s : Status) (l : List StatusTimestamp) (m : Status) (x : StatusTimestamp)
    → IsPath s l m
    → m ⟶ x.status
    → IsPath s (l ++ x ∷ []) x.status
IsPath-snoc s [] m x p e = (subst (λ z. z ⟶ x.status) (sym p) e, refl)
IsPath-snoc s (y ∷ l) m x p e = (p.0, IsPath-snoc y.status l m x p.1 e)

IsTrail-snoc :
    (l : List StatusTimestamp) (m : Status) (x : StatusTimestamp)
    → IsTrail l m
    → m ⟶ x.status
    → IsTrail (l ++ x ∷ []) x.status
IsTrail-snoc [] m x p e = absurd p
IsTrail-snoc (y ∷ l) m x p e = (p.0, IsPath-snoc y.status l m x p.1 e)

-- A run that moves along an edge keeps a history.
move_to-HasHistory :
    (s u : Status) (t : Time) (r : Run)
    → s ⟶ u
    → r.status ≡ s
    → HasHistory r
    → HasHistory (move_to u t r)
move_to-HasHistory s u t r e q h =
    IsTrail-snoc r.status_timestamps s _ (subst (IsTrail r.status_timestamps) q h) e

start_from-HasHistory :
    (s : Status) (clock : ℕ → Time) (r : Run)
    → r.status ≡ s
    → HasHistory r
    → HasHistory (start_from s clock r).0
unfolding start_from
start_from-HasHistory plan_queued clock r q h =
    move_to-HasHistory _ planning (clock 0) r Diagram.start_plan q h
start_from-HasHistory apply_queued clock r q h =
    move_to-HasHistory _ applying (clock 2) r Diagram.start_apply q h
start_from-HasHistory planning clock r q h = h
start_from-HasHistory applying clock r q h = h
start_from-HasHistory _ clock r q h = h

enqueue_plan_from-HasHistory :
    (s : Status) (clock : ℕ → Time) (r : Run)
    → r.status ≡ s
    → HasHistory r
    → HasHistory (enqueue_plan_from s clock r).0
unfolding enqueue_plan_from
enqueue_plan_from-HasHistory pending clock r q h =
    move_to-HasHistory _ plan_queued (clock 0) r Diagram.enqueue q h
enqueue_plan_from-HasHistory _ clock r q h = h

enqueue_apply_from-HasHistory :
    (s : Status) (clock : ℕ → Time) (r : Run)
    → r.status ≡ s
    → HasHistory r
    → HasHistory (enqueue_apply_from s clock r).0
unfolding enqueue_apply_from
enqueue_apply_from-HasHistory planned clock r q h =
    move_to-HasHistory _ apply_queued (clock 0) r Diagram.approve_planned q h
enqueue_apply_from-HasHistory cost_estimated clock r q h =
    move_to-HasHistory _ apply_queued (clock 0) r Diagram.approve_estimated q h
enqueue_apply_from-HasHistory _ clock r q h = h

finish_planned_end :
    (s : Status) (t : Time) (b : Bool) (r : Run)
    → s ⟶ planned_and_finished
    → r.status ≡ s
    → HasHistory r
    → HasHistory (if b then move_to planned_and_finished t r else r)
finish_planned_end s t true r e q h = move_to-HasHistory s planned_and_finished t r e q h
finish_planned_end s t false r e q h = h

finish_plan-HasHistory :
    (failed : Bool) (clock : ℕ → Time) (r : Run)
    → r.status ≡ planning
    → HasHistory r
    → HasHistory (finish_plan failed clock r).run
unfolding finish_plan
finish_plan-HasHistory true clock r q h =
    move_to-HasHistory _ errored (clock 0) r Diagram.fail_plan q h
finish_plan-HasHistory false clock r q h = ground (
  arith,
  move_to-HasHistory planning planned (clock 4) r Diagram.plan q h,
  move_to-HasHistory planning cost_estimated (clock 3) r Diagram.estimate q h,
  move_to-HasHistory planned planned_and_finished (clock 6) (move_to planned (clock 4) r)
      Diagram.finish_planned refl,
  move_to-HasHistory cost_estimated planned_and_finished (clock 6)
      (move_to cost_estimated (clock 3) r) Diagram.finish_estimated refl,
)

finish_apply-HasHistory :
    (failed : Bool) (clock : ℕ → Time) (r : Run)
    → r.status ≡ applying
    → HasHistory r
    → HasHistory (finish_apply failed clock r).run
unfolding finish_apply
finish_apply-HasHistory true clock r q h =
    move_to-HasHistory _ errored (clock 8) r Diagram.fail_apply q h
finish_apply-HasHistory false clock r q h =
    move_to-HasHistory _ applied (clock 10) r Diagram.apply q h

finish_from-HasHistory :
    (s : Status) (phase : PhaseType) (failed : Bool) (clock : ℕ → Time) (r : Run)
    → r.status ≡ s
    → HasHistory r
    → HasHistory (finish_from s phase failed clock r).run
unfolding finish_from
finish_from-HasHistory planning plan_phase failed clock r q h =
    unfold finish_plan in finish_plan-HasHistory failed clock r q h
finish_from-HasHistory applying apply_phase failed clock r q h =
    unfold finish_apply in finish_apply-HasHistory failed clock r q h
finish_from-HasHistory canceled phase failed clock r q h = h
finish_from-HasHistory _ plan_phase failed clock r q h = h
finish_from-HasHistory _ apply_phase failed clock r q h = h
finish_from-HasHistory _ _ failed clock r q h = h

discard-HasHistory : (clock : ℕ → Time) (r : Run) → HasHistory r → HasHistory (discard clock r).0
unfolding discard
discard-HasHistory clock r h = ground (
  arith,
  move_to-HasHistory pending discarded (clock 0) r Diagram.discard_pending,
  move_to-HasHistory planned discarded (clock 0) r Diagram.discard_planned,
  move_to-HasHistory cost_estimated discarded (clock 0) r Diagram.discard_estimated,
)

cancel-HasHistory :
    (user force : Bool) (clock : ℕ → Time) (r : Run)
    → HasHistory r
    → HasHistory (cancel user force clock r).0
unfolding cancel
cancel-HasHistory user force clock r h = ground (
  arith,
  move_to-HasHistory r.status canceled (clock 12) r Diagram.cancel refl h,
  λ (n : done r.status ≡ false).
      move_to-HasHistory r.status force_canceled (clock 11) r (Diagram.force_cancel n) refl h,
)

step-HasHistory :
    (e : Event) (clock : ℕ → Time) (r : Run) → HasHistory r → HasHistory (step e clock r).0
unfolding step
step-HasHistory enqueues_plan clock r h = enqueue_plan_from-HasHistory r.status clock r refl h
step-HasHistory enqueues_apply clock r h = enqueue_apply_from-HasHistory r.status clock r refl h
step-HasHistory starts clock r h = start_from-HasHistory r.status clock r refl h
step-HasHistory discards clock r h = discard-HasHistory clock r h
step-HasHistory (finishes phase failed) clock r h =
    finish_from-HasHistory r.status phase failed clock r refl h
step-HasHistory (cancels user force) clock r h = cancel-HasHistory user force clock r h

-- If the timestamps of a run are a walk through the transition diagram that begins with pending
-- and ends in the run's present status, they stay so whatever operations are called on the run.
pub run_events-HasHistory :
    (events : List (Event × (ℕ → Time))) (r : Run) → HasHistory r → HasHistory (run_events events r)
unfolding run_events
run_events-HasHistory [] r h = h
run_events-HasHistory ((e, clock) ∷ es) r h =
    run_events-HasHistory es (step e clock r).0 (step-HasHistory e clock r h)
