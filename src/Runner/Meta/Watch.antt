-- ===== src/Runner/Meta/Watch.antt =====
-- The manager and the state machine of a runner.
use otf.Prelude.{
  ◌+◌, ◌*◌, ◌<◌, ◌≤◌, ◌≡◌, refl, ◌⊎◌, ◌↔◌, ◌≢◌, Bool, true, false, none, List, [], ◌∷◌, arith,
}
use otf.Time.{Time, second}
use otf.Runner.Meta.{
  RunnerMeta, RunnerStatus, exited, errored, unknown, leave, delete, update_to, update, set_status,
  is_final, ping_timeout,
}

-- The status that the manager asks for is never refused by the state machine of the runner.
pub update-set_status :
    (now reading : Time) (m : RunnerMeta) (s : RunnerStatus)
    → update now m ≡ update_to s
    → (set_status s false reading m).1 ≡ none
unfolding update set_status
update-set_status now reading m s h = ground arith

-- The manager deletes a runner exactly when it is errored or exited and its status has not changed
-- for more than an hour.
pub update-delete_iff :
    (now : Time) (m : RunnerMeta)
    → (update now m ≡ delete)
      ↔ (((m.status ≡ errored) ⊎ (m.status ≡ exited)) × (m.last_status_at + 60 * 60 * second < now))
unfolding update
update-delete_iff now m = (λ h. ground arith, λ h. ground arith)

-- A runner that has sent a ping within thirty seconds, and has not reached a final state, is
-- neither deleted nor declared unknown or errored, unless it is unknown already.
pub update_of_pinged :
    (now : Time) (m : RunnerMeta)
    → now ≤ m.last_ping_at + ping_timeout
    → is_final m.status ≡ false
    → m.status ≢ unknown
    → update now m ≡ leave
unfolding update
update_of_pinged now m h f u = ground arith

-- Any changes of status, each with its ping and its reading of the clock.
unfoldable pub set_statuses : List (RunnerStatus × Bool × Time) → RunnerMeta → RunnerMeta
set_statuses [] m = m
set_statuses ((s, ping, t) ∷ rest) m = set_statuses rest (set_status s ping t m).0

-- No changes of status bring a runner out of a final state, nor touch its record.
pub set_statuses_of_final :
    (l : List (RunnerStatus × Bool × Time)) (m : RunnerMeta)
    → is_final m.status ≡ true
    → set_statuses l m ≡ m
unfolding set_statuses set_status
set_statuses_of_final [] m h = refl
set_statuses_of_final ((s, ping, t) ∷ rest) m h = ground (arith, set_statuses_of_final rest m h)
