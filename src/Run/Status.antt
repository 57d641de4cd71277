-- ===== src/Run/Status.antt =====
-- internal/runstatus/runstatus.go and internal/run/status.go: the statuses of a run.
use otf.Prelude.{Bool, true, false, List, [], ◌∷◌, ◌++◌}

pub data Status : Type 0 where
  applied apply_queued applying canceled confirmed discarded errored force_canceled : Status
  pending plan_queued planned planned_and_finished planning cost_estimated : Status

unfoldable pub Status-discrete : Discrete Status
Status-discrete = hlevel

-- `Done`: an end state.
abbrev pub done : Status → Bool
done applied = true
done planned_and_finished = true
done discarded = true
done canceled = true
done force_canceled = true
done errored = true
done _ = false

-- `Queued`.
abbrev pub queued : Status → Bool
queued plan_queued = true
queued apply_queued = true
queued _ = false

-- `All`, which leaves out `CostEstimated`.
abbrev pub all : List Status
all =
    applied ∷ apply_queued ∷ applying ∷ canceled ∷ confirmed ∷ discarded ∷ errored ∷ force_canceled
    ∷ pending ∷ plan_queued ∷ planned ∷ planned_and_finished ∷ planning ∷ []

-- `ActiveRun` and `IncompleteRun`.
abbrev pub active_run : List Status
active_run = apply_queued ∷ applying ∷ confirmed ∷ plan_queued ∷ planned ∷ planning ∷ []

abbrev pub incomplete_run : List Status
incomplete_run = active_run ++ pending ∷ []
