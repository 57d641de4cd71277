-- ===== src/Tests/Samples.antt =====
-- The data of the tests: an organization with a workspace, its runs, and its runners.
use otf.Prelude.{ℕ, true, false, none, some, [], ◌∷◌, List, String}
use otf.Resource.{TfeId, run_kind, workspace_kind, config_version_kind, job_kind, runner_kind}
use otf.Time.{Time}
use otf.Execution.{remote_mode}
use otf.ConfigVersion.{ConfigurationVersion, ConfigurationStatus}
use otf.Workspace.Types.{Workspace}
use otf.Run.Status.{Status, pending}
use otf.Run.Types.{Run, StatusTimestamp}
use otf.Run.Create.{CreateOptions, new_run}
use otf.Run.Phase.{plan_phase, apply_phase, Phase}
use otf.Run.Phase
use otf.Run.Queue.{Queue, SchedulerRun}
use otf.Runner.Job.{Job, JobStatus}
use otf.Runner.Meta.{RunnerMeta, RunnerStatus, fork}

abbrev pub run_id : String → TfeId
run_id s = record { kind = run_kind; id = s }

abbrev pub workspace_id : String → TfeId
workspace_id s = record { kind = workspace_kind; id = s }

-- A clock that stands still during a call.
abbrev pub clock_at : Time → ℕ → Time
clock_at t i = t

abbrev pub dev : Workspace
dev = record {
  id = workspace_id "dev";
  created_at = 0;
  updated_at = 0;
  allow_destroy_plan = true;
  auto_apply = true;
  auto_apply_run_trigger = false;
  can_queue_destroy_plan = false;
  description = "";
  environment = "";
  global_remote_state = false;
  migration_environment = "";
  name = "dev";
  queue_all_runs = false;
  speculative_enabled = true;
  structured_run_output_enabled = true;
  source_name = "";
  source_url = "";
  working_directory = "";
  organization = "acme";
  latest_run = none;
  tags = [];
  lock = none;
  engine = "terraform";
  engine_version = none;
  mode = remote_mode;
  ssh_key_id = none;
  connection = none;
  trigger_patterns = [];
  trigger_prefixes = [];
}

abbrev pub config_1 : ConfigurationVersion
config_1 = record {
  id = record { kind = config_version_kind; id = "1" };
  created_at = 0;
  auto_queue_runs = true;
  source = "tfe-api";
  speculative = false;
  status = ConfigurationStatus.uploaded;
  status_timestamps = [];
  workspace_id = workspace_id "dev";
  ingress_attributes = none;
}

abbrev pub defaults : CreateOptions
defaults = record {
  is_destroy = none;
  refresh = none;
  refresh_only = none;
  message = none;
  configuration_version_id = none;
  target_addrs = [];
  replace_addrs = [];
  auto_apply = none;
  source = "";
  terraform_version = none;
  allow_empty_apply = none;
  plan_only = none;
  variables = [];
  created_by = none;
  engine_version = "1.9.0";
  triggering_run_id = none;
  created_at = none;
  cost_estimation_enabled = false;
  now = none;
}

-- A run of the workspace in a status, with the timestamps that lead there.
abbrev pub run_in : Status → Phase → Phase → List StatusTimestamp → Run
run_in status plan apply l = record (new_run (run_id "1") (clock_at 0) dev config_1 defaults) {
  status = status;
  plan = plan;
  apply = apply;
  status_timestamps = l;
}

abbrev pub reached : Status → Time → StatusTimestamp
reached s t = record { status = s; timestamp = t }

abbrev pub phase_in : Phase.PhaseType → Phase.PhaseStatus → Phase
phase_in t s = record {
  run_id = run_id "1";
  status = s;
  status_timestamps = [];
  phase_type = t;
  resource_report = some (record { additions = 1; changes = 0; destructions = 0 });
  output_report = none;
}

abbrev pub pending_run : Run
pending_run =
    run_in pending (phase_in plan_phase Phase.PhaseStatus.pending)
      (phase_in apply_phase Phase.PhaseStatus.pending) (reached pending 0 ∷ [])

abbrev pub done_run : Run
done_run =
    run_in Status.applied (phase_in plan_phase Phase.PhaseStatus.finished)
      (phase_in apply_phase Phase.PhaseStatus.finished)
      (reached pending 0 ∷ reached Status.plan_queued 3 ∷ reached Status.applied 10 ∷ [])

abbrev pub planning_run : Run
planning_run =
    record (run_in Status.planning (phase_in plan_phase Phase.PhaseStatus.running)
      (phase_in apply_phase Phase.PhaseStatus.pending)
      (reached pending 0 ∷ reached Status.plan_queued 3 ∷ reached Status.planning 10 ∷ [])) {
        auto_apply = true;
        cancel_signaled_at = some 0;
      }

abbrev pub event_of : String → Status → SchedulerRun
event_of s status = record { id = run_id s; status = status; plan_only = false }

abbrev pub busy_queue : Queue
busy_queue = record { current = some (run_id "1"); backlog = run_id "2" ∷ run_id "3" ∷ [] }

abbrev pub job_1 : Job
job_1 = record {
  id = record { kind = job_kind; id = "1" };
  run_id = run_id "1";
  phase = apply_phase;
  status = JobStatus.unallocated;
  agent_pool_id = none;
  organization = "acme";
  workspace_id = workspace_id "dev";
  runner_id = none;
}

abbrev pub runner_id : String → TfeId
runner_id s = record { kind = runner_kind; id = s }

abbrev pub runner_in : String → RunnerStatus → Time → RunnerMeta
runner_in s status ping = record {
  id = runner_id s;
  name = s;
  version = "1.0";
  status = status;
  max_jobs = 2;
  current_jobs = 1;
  last_ping_at = ping;
  last_status_at = 0;
  executor_kind = fork;
  agent_pool = none;
}
