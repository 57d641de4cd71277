-- ===== src/Workspace/Lock.antt =====
-- internal/workspace: the lock of a workspace (workspace.go), the service's lock and unlock
-- (lock_service.go) and the columns that hold the lock (lock_db.go).
pub mod Owner
use otf.Prelude.{
  Bool, true, false, ◌&&◌, ◌||◌, Option, none, some, ite, if◌then◌else◌, test, String,
}
use otf.Resource.{
  TfeId, Kind, ResourceId, tfe, username, kind_of, ResourceId-discrete, user_kind, run_kind,
}
use otf.Workspace.Types.{Workspace}

pub data LockError : Type 0 where
  not_a_user_or_a_run already_locked already_unlocked : LockError
  locked_by_run locked_by_different_user invalid_lock : LockError
  -- the service's: no permission, or a subject that is no user
  access_not_permitted only_a_run_or_a_user : LockError

abbrev pub user_or_run : Kind → Bool
user_or_run user_kind = true
user_or_run run_kind = true
user_or_run _ = false

abbrev pub is_run : Kind → Bool
is_run run_kind = true
is_run _ = false

-- `Locked`.
abbrev pub locked : Workspace → Bool
locked ws = elim ws.lock [ none ↦ false | some id ↦ true ]

enlock_free : Option ResourceId → ResourceId → Workspace → Workspace × Option LockError
enlock_free none id ws = (record ws { lock = some id }, none)
enlock_free (some holder) id ws =
    if is_run (kind_of holder) && is_run (kind_of id)
    then (record ws { lock = some id }, none)
    else (ws, some already_locked)

-- `Enlock`.
unfoldable pub enlock : ResourceId → Workspace → Workspace × Option LockError
unfolding enlock_free
enlock id ws =
    if user_or_run (kind_of id) then enlock_free ws.lock id ws else (ws, some not_a_user_or_a_run)

unlock_held : Option ResourceId → ResourceId → Bool → Workspace → Workspace × Option LockError
unlock_held none id force ws = (ws, some already_unlocked)
unlock_held (some holder) id force ws =
    ite (ResourceId-discrete holder id) (record ws { lock = none }, none)
      (if force
        then (record ws { lock = none }, none)
        else if is_run (kind_of holder)
        then (ws, some locked_by_run)
        else (ws, some locked_by_different_user))

-- `Workspace.Unlock`.
unfoldable pub unlock : ResourceId → Bool → Workspace → Workspace × Option LockError
unfolding unlock_held
unlock id force ws =
    if user_or_run (kind_of id)
    then unlock_held ws.lock id force ws
    else (ws, some not_a_user_or_a_run)

-- The two columns of a workspace's row that hold its lock.
pub record LockColumns : Type 0 where
  pub lock_username : Option ResourceId
  pub lock_run_id : Option ResourceId

-- The last function of `toggleLock`: what is written, or an error that undoes the update.
unfoldable pub lock_columns : Option ResourceId → Option LockColumns
lock_columns none = some (record { lock_username = none; lock_run_id = none })
lock_columns (some id) = elim (kind_of id) [
  | run_kind ↦ some (record { lock_username = none; lock_run_id = some id })
  | user_kind ↦ some (record { lock_username = some id; lock_run_id = none })
  | _ ↦ none
]

-- `toggleLock`: the update is one transaction, so an error leaves the row as it was.
unfoldable pub toggle_lock :
    (Workspace → Workspace × Option LockError) → Workspace → Workspace × Option LockError
toggle_lock toggle ws = elim ((toggle ws).1) [
  | some e ↦ (ws, some e)
  | none ↦ elim (lock_columns (toggle ws).0.lock) [
    | some columns ↦ ((toggle ws).0, none)
    | none ↦ (ws, some invalid_lock)
  ]
]

-- The subject that asks, as far as the service reads it: a user, or another, and whether the
-- authorizer lets it.
pub data Subject : Type 0 where
  user : String → (permitted : Bool) → Subject
  other : (permitted : Bool) → Subject

-- On whose behalf `Lock` and `Unlock` act.
abbrev behalf : Option TfeId → Subject → Option LockError × Option ResourceId
behalf (some run) subject = (none, some (tfe run))
behalf none (user name true) = (none, some (username name))
behalf none (user name false) = (some access_not_permitted, none)
behalf none (other true) = (some only_a_run_or_a_user, none)
behalf none (other false) = (some access_not_permitted, none)

acting :
    Option LockError × Option ResourceId
    → (ResourceId → Workspace → Workspace × Option LockError)
    → Workspace
    → Workspace × Option LockError
acting (e, some id) act ws = toggle_lock (act id) ws
acting (some e, none) act ws = (ws, some e)
acting (none, none) act ws = (ws, some access_not_permitted)

-- `Service.Lock`, on the row of the workspace.
unfoldable pub service_lock : Option TfeId → Subject → Workspace → Workspace × Option LockError
unfolding acting
service_lock run subject ws = acting (behalf run subject) enlock ws

-- `Service.Unlock`. The permission that the subject needs is that to unlock, or, with `force`, to
-- unlock by force.
unfoldable pub service_unlock :
    Option TfeId → Subject → Bool → Workspace → Workspace × Option LockError
unfolding acting
service_unlock run subject force ws = acting (behalf run subject) (λ id. unlock id force) ws
