-- ===== src/Workspace/Types.antt =====
-- internal/workspace/workspace.go, version.go and run.go: the data of a workspace.
use otf.Prelude.{String, Bool, Option, List}
use otf.Resource.{TfeId, ResourceId}
use otf.Time.{Time}
use otf.Vcs.{Repo}
use otf.Execution.{Mode}
use otf.Run.Status.{Status}

pub record Version : Type 0 where
  pub latest : Bool
  pub semver : String

pub record LatestRun : Type 0 where
  pub id : TfeId
  pub status : Status

pub record Connection : Type 0 where
  pub branch : String
  pub tags_regex : String
  pub vcs_provider_id : TfeId
  pub repo : Repo
  pub allow_cli_apply : Bool

pub record Workspace : Type 0 where
  pub id : TfeId
  pub created_at : Time
  pub updated_at : Time
  pub allow_destroy_plan : Bool
  pub auto_apply : Bool
  pub auto_apply_run_trigger : Bool
  pub can_queue_destroy_plan : Bool
  pub description : String
  pub environment : String
  pub global_remote_state : Bool
  pub migration_environment : String
  pub name : String
  pub queue_all_runs : Bool
  pub speculative_enabled : Bool
  pub structured_run_output_enabled : Bool
  pub source_name : String
  pub source_url : String
  pub working_directory : String
  pub organization : String
  pub latest_run : Option LatestRun
  pub tags : List String
  pub lock : Option ResourceId
  pub engine : String
  pub engine_version : Option Version
  pub mode : Mode
  pub ssh_key_id : Option TfeId
  pub connection : Option Connection
  pub trigger_patterns : List String
  pub trigger_prefixes : List String
