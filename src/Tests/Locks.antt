-- ===== src/Tests/Locks.antt =====
-- The theorems on the lock of a workspace, at a concrete workspace.
use otf.Prelude.{◌≡◌, refl, true, false, none, some, List, [], ◌∷◌, refute, String-discrete}
use otf.Resource.{ResourceId, username}
use otf.Workspace.Types.{Workspace}
use otf.Workspace.Lock.{user, other, service_unlock}
use otf.Workspace.Lock.Owner.{LockCall, locks, unlocks, apply_locks, apply_locks-service_unlock}
use otf.Tests.Samples.{dev, run_id}

abbrev ann : ResourceId
ann = username "ann"

abbrev held : Workspace
held = record dev { lock = some ann }

-- Others try to lock and to unlock, and the scheduler asks for a run.
abbrev tries : List LockCall
tries =
    locks none (user "bob" true)
    ∷ unlocks none (user "bob" true) false
    ∷ locks (some (run_id "1")) (other true)
    ∷ unlocks (some (run_id "1")) (other true) false
    ∷ []

apply_locks-service_unlock_example :
    (apply_locks tries held ≡ held)
    × (service_unlock none (user "ann" true) false (apply_locks tries held)
        ≡ (record held { lock = none }, none))
unfolding String-discrete
apply_locks-service_unlock_example =
    apply_locks-service_unlock tries "ann" held refl
      (tt, ((refl, refute (String-discrete "bob" "ann") refl), (tt, (refl, tt))))
