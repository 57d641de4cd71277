-- ===== src/ConfigVersion.antt =====
-- internal/configversion/configuration_version.go: versions of a workspace's configuration.
use otf.Prelude.{ℕ, String, Bool, Option, List}
use otf.Resource.{TfeId}
use otf.Time.{Time}
use otf.Vcs.{Repo}

pub data ConfigurationStatus : Type 0 where
  errored pending uploaded : ConfigurationStatus

pub record IngressAttributes : Type 0 where
  pub branch : String
  pub commit_sha : String
  pub repo : Repo
  pub is_pull_request : Bool
  pub on_default_branch : Bool
  pub configuration_version_id : TfeId
  pub commit_url : String
  pub pull_request_number : ℕ
  pub pull_request_url : String
  pub pull_request_title : String
  pub tag : String
  pub sender_username : String
  pub sender_avatar_url : String
  pub sender_html_url : String

pub record StatusTimestamp : Type 0 where
  pub configuration_version_id : TfeId
  pub status : ConfigurationStatus
  pub timestamp : Time

pub record ConfigurationVersion : Type 0 where
  pub id : TfeId
  pub created_at : Time
  pub auto_queue_runs : Bool
  pub source : String
  pub speculative : Bool
  pub status : ConfigurationStatus
  pub status_timestamps : List StatusTimestamp
  pub workspace_id : TfeId
  pub ingress_attributes : Option IngressAttributes
