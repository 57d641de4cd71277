-- ===== src/Workspace/Lock/Owner.antt =====
-- Who holds the lock of a workspace, and who may take it away.
use otf.Prelude.{
  refl, ◌∙◌, ap, ◌≢◌, All, List, [], ◌∷◌, ◌≡◌, ◌⊎◌, ◌↔◌, Bool, true, false, Option, none, some,
  arith, String,
}
use otf.Resource.{TfeId, ResourceId, tfe, username, kind_of, run_kind}
use otf.Workspace.Types.{Workspace}
use otf.Workspace.Lock.{
  already_locked, Subject, user, other, enlock, unlock, toggle_lock, lock_columns, service_lock,
  service_unlock, user_or_run,
}

-- Locking succeeds exactly when the one who asks is a user or a run and the workspace is free or
-- both the holder and the one who asks are runs.
pub enlock_iff :
    (id : ResourceId) (ws : Workspace)
    → ((enlock id ws).1 ≡ none) ↔ (
        (user_or_run (kind_of id) ≡ true)
        × ((ws.lock ≡ none)
            ⊎ ((holder : ResourceId) × (ws.lock ≡ some holder)
                × (kind_of holder ≡ run_kind)
                × (kind_of id ≡ run_kind))))
unfolding enlock
enlock_iff id ws = (λ h. ground arith, λ h. ground arith)

-- Without force, unlocking succeeds exactly when the one who asks is a user or a run and holds the
-- lock.
pub unlock-holder :
    (id : ResourceId) (ws : Workspace)
    → ((unlock id false ws).1 ≡ none) ↔ ((user_or_run (kind_of id) ≡ true) × (ws.lock ≡ some id))
unfolding unlock
unlock-holder id ws = ground arith

-- Locking and then unlocking on behalf of the same user or run gives a free workspace back as it
-- was.
pub unlock-enlock :
    (id : ResourceId) (force : Bool) (ws : Workspace)
    → user_or_run (kind_of id) ≡ true
    → ws.lock ≡ none
    → unlock id force (enlock id ws).0 ≡ (ws, none)
unfolding unlock enlock
unlock-enlock id force ws u h = ground arith

-- The calls of the service, each on behalf of a run where it names one, with the subject that asks.
pub data LockCall : Type 0 where
  locks : Option TfeId → Subject → LockCall
  unlocks : Option TfeId → Subject → (force : Bool) → LockCall

abbrev pub apply_lock : LockCall → Workspace → Workspace
apply_lock (locks run subject) ws = (service_lock run subject ws).0
apply_lock (unlocks run subject force) ws = (service_unlock run subject force ws).0

abbrev pub apply_locks : List LockCall → Workspace → Workspace
apply_locks [] ws = ws
apply_locks (c ∷ rest) ws = apply_locks rest (apply_lock c ws)

-- The subject is not the user of that name.
abbrev pub IsOther : String → Subject → Type 0
IsOther name (user u permitted) = u ≢ name
IsOther name (other permitted) = Unit

-- A call that is neither an unlock by force nor the user's own unlock.
abbrev pub Spares : String → LockCall → Type 0
Spares name (locks run subject) = Unit
Spares name (unlocks (some run) subject force) = force ≡ false
Spares name (unlocks none subject force) = (force ≡ false) × IsOther name subject

-- Another who locks or unlocks is refused.
enlock_held :
    (id : ResourceId) (name : String) (ws : Workspace)
    → ws.lock ≡ some (username name)
    → (toggle_lock (enlock id) ws).0 ≡ ws
unfolding enlock toggle_lock
enlock_held id name ws h = ground (arith, h)

unlock_held_by :
    (id : ResourceId) (name : String) (ws : Workspace)
    → ws.lock ≡ some (username name)
    → username name ≢ id
    → (toggle_lock (unlock id false) ws).0 ≡ ws
unfolding unlock toggle_lock
unlock_held_by id name ws h n = ground (arith, h, n)

apply_lock_kept :
    (c : LockCall) (name : String) (ws : Workspace)
    → ws.lock ≡ some (username name)
    → Spares name c
    → apply_lock c ws ≡ ws
unfolding service_lock service_unlock
apply_lock_kept (locks (some run) subject) name ws h s = enlock_held (tfe run) name ws h
apply_lock_kept (locks none (user u true)) name ws h s = enlock_held (username u) name ws h
apply_lock_kept (locks none (user u false)) name ws h s = refl
apply_lock_kept (locks none (other true)) name ws h s = refl
apply_lock_kept (locks none (other false)) name ws h s = refl
apply_lock_kept (unlocks (some run) subject force) name ws h s =
    rw s (unlock_held_by (tfe run) name ws h (λ p. ground (arith, p)))
apply_lock_kept (unlocks none (user u true) force) name ws h (s, n) =
    rw s (unlock_held_by (username u) name ws h (λ p. n (ground (arith, p))))
apply_lock_kept (unlocks none (user u false) force) name ws h s = refl
apply_lock_kept (unlocks none (other true) force) name ws h s = refl
apply_lock_kept (unlocks none (other false) force) name ws h s = refl

apply_locks_kept :
    (calls : List LockCall) (name : String) (ws : Workspace)
    → ws.lock ≡ some (username name)
    → All (Spares name) calls
    → apply_locks calls ws ≡ ws
apply_locks_kept [] name ws h s = refl
apply_locks_kept (c ∷ rest) name ws h (s, others) =
    ap (apply_locks rest) (apply_lock_kept c name ws h s) ∙ apply_locks_kept rest name ws h others

own_unlock :
    (name : String) (ws : Workspace)
    → ws.lock ≡ some (username name)
    → service_unlock none (user name true) false ws ≡ (record ws { lock = none }, none)
unfolding service_unlock toggle_lock unlock lock_columns
own_unlock name ws h = ground (arith, h)

-- As long as a user holds the lock of a workspace and neither unlocks it nor has it unlocked by
-- force, no lock or unlock of the service changes the workspace, whoever asks, on behalf of
-- whatever run; and then the user's own unlock leaves it as it was, without a lock.
pub apply_locks-service_unlock :
    (calls : List LockCall) (name : String) (ws : Workspace)
    → ws.lock ≡ some (username name)
    → All (Spares name) calls
    → (apply_locks calls ws ≡ ws)
      × (service_unlock none (user name true) false (apply_locks calls ws)
          ≡ (record ws { lock = none }, none))
apply_locks-service_unlock calls name ws h s =
    let same = apply_locks_kept calls name ws h s in (same, rw same (own_unlock name ws h))

-- A user's lock is not taken by a run: the scheduler's lock on behalf of a run fails, and the
-- workspace is as it was.
pub service_lock-user_held :
    (run : TfeId) (subject : Subject) (name : String) (ws : Workspace)
    → run.kind ≡ run_kind
    → ws.lock ≡ some (username name)
    → service_lock (some run) subject ws ≡ (ws, some already_locked)
unfolding service_lock toggle_lock enlock
service_lock-user_held run subject name ws k h = ground arith
