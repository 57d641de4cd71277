-- ===== src/Run/Types.antt =====
-- internal/run/run.go: the data of a run.
use otf.Prelude.{ℕ, String, Bool, Option, List, [], ◌∷◌, ◌++◌}
use otf.Resource.{TfeId}
use otf.Time.{Time, current_timestamp}
use otf.Execution.{Kind}
use otf.ConfigVersion.{IngressAttributes}
use otf.Run.Status.{Status, done}
use otf.Run.Phase.{Phase}

pub record RunVariable : Type 0 where
  pub key : String
  pub value : String

pub record StatusTimestamp : Type 0 where
  pub status : Status
  pub timestamp : Time

pub record Run : Type 0 where
  pub id : TfeId
  pub created_at : Time
  pub updated_at : Time
  pub is_destroy : Bool
  pub cancel_signaled_at : Option Time
  pub message : String
  pub organization : String
  pub refresh : Bool
  pub refresh_only : Bool
  pub replace_addrs : List String
  pub position_in_queue : ℕ
  pub target_addrs : List String
  pub engine_version : String
  pub engine : String
  pub allow_empty_apply : Bool
  pub auto_apply : Bool
  pub plan_only : Bool
  pub source : String
  pub status : Status
  pub workspace_id : TfeId
  pub configuration_version_id : TfeId
  pub execution_kind : Kind
  pub variables : List RunVariable
  pub plan : Phase
  pub apply : Phase
  pub status_timestamps : List StatusTimestamp
  pub latest : Bool
  pub ingress_attributes : Option IngressAttributes
  pub created_by : Option String
  pub triggering_run_id : Option TfeId
  pub cost_estimation_enabled : Bool

-- `updateStatus`.
abbrev pub update_status : Status → Option Time → Time → Run → Run
update_status status now reading r = record r {
  status = status;
  status_timestamps =
      r.status_timestamps
      ++ record { status = status; timestamp = current_timestamp now reading } ∷ [];
}

-- `Done`.
abbrev pub run_done : Run → Bool
run_done r = done r.status
