-- ===== src/Execution.antt =====
-- internal/workspace/execution/mode.go: the kinds of execution, with the agent pool that the
-- agent kind needs. A kind is one of the three constants: the default case of `isValid`, for any
-- other string, is left out.
use otf.Prelude.{Option, none, some, Result, ok, err, ◌>>◌}
use otf.Resource.{TfeId}

pub data Kind : Type 0 where
  remote_kind local_kind agent_kind : Kind

pub record Mode : Type 0 where
  pub kind : Kind
  pub agent_pool_id : Option TfeId

pub data ModeError : Type 0 where
  agent_execution_mode_without_pool non_agent_execution_mode_with_pool : ModeError

-- `isValid`.
abbrev pub is_valid : Kind → Option TfeId → Result ModeError (Unit {0})
is_valid local_kind (some p) = err non_agent_execution_mode_with_pool
is_valid local_kind none = ok tt
is_valid remote_kind (some p) = err non_agent_execution_mode_with_pool
is_valid remote_kind none = ok tt
is_valid agent_kind none = err agent_execution_mode_without_pool
is_valid agent_kind (some p) = ok tt

-- `NewMode`.
unfoldable pub new_mode : Kind → Option TfeId → Result ModeError Mode
new_mode kind pool = do is_valid kind pool; ok (record { kind = kind; agent_pool_id = pool })

abbrev override_pool : Kind → Option TfeId → Option TfeId → Option TfeId
override_pool agent_kind none default_pool = default_pool
override_pool _ pool default_pool = pool

abbrev override_kind : Option Kind → Kind → Kind
override_kind none default_kind = default_kind
override_kind (some k) default_kind = k

-- `NewModeWithDefaults`.
unfoldable pub new_mode_with_defaults :
    Option Kind → Kind → Option TfeId → Option TfeId → Result ModeError Mode
unfolding new_mode
new_mode_with_defaults kind default_kind pool default_pool =
    let k = override_kind kind default_kind in new_mode k (override_pool k pool default_pool)

-- `RemoteMode`, `LocalMode` and `AgentMode`.
abbrev pub remote_mode : Mode
remote_mode = record { kind = remote_kind; agent_pool_id = none }

abbrev pub local_mode : Mode
local_mode = record { kind = local_kind; agent_pool_id = none }

abbrev pub agent_mode : TfeId → Mode
agent_mode pool = record { kind = agent_kind; agent_pool_id = some pool }

abbrev checked : Mode → Mode × Option ModeError
checked m = elim (is_valid m.kind m.agent_pool_id) [ ok u ↦ (m, none) | err e ↦ (m, some e) ]

-- `Mode.Update`. The receiver is written before the combination is checked, so the mode comes
-- back with the error.
unfoldable pub update : Mode → Option Kind → Option TfeId → Mode × Option ModeError
update m none none = (m, none)
update m none (some p) = checked (record m { agent_pool_id = some p })
update m (some k) pool = checked (record m { kind = k; agent_pool_id = pool })
