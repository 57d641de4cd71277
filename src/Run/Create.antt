-- ===== src/Run/Create.antt =====
-- internal/run/run.go: `NewRun`. The run's identifier, which is drawn at random, and the readings
-- of the clock are arguments.
use otf.Prelude.{ℕ, String, String-discrete, Bool, true, false, Option, none, some, List, [], ite}
use otf.Resource.{TfeId}
use otf.Time.{Time, current_timestamp}
use otf.ConfigVersion.{ConfigurationVersion}
use otf.Workspace.Types.{Workspace}
use otf.Run.Status.{pending}
use otf.Run.Phase.{plan_phase, apply_phase, new_phase}
use otf.Run.Types.{Run, RunVariable, update_status}

pub record CreateOptions : Type 0 where
  pub is_destroy : Option Bool
  pub refresh : Option Bool
  pub refresh_only : Option Bool
  pub message : Option String
  pub configuration_version_id : Option TfeId
  pub target_addrs : List String
  pub replace_addrs : List String
  pub auto_apply : Option Bool
  pub source : String
  pub terraform_version : Option String
  pub allow_empty_apply : Option Bool
  pub plan_only : Option Bool
  pub variables : List RunVariable
  pub created_by : Option String
  pub engine_version : String
  pub triggering_run_id : Option TfeId
  pub created_at : Option Time
  pub cost_estimation_enabled : Bool
  pub now : Option Time

-- `if opts.F != nil { run.F = *opts.F }`.
abbrev pub or_default {ℓ} : {A : Type ℓ} → Option A → A → A
or_default none a = a
or_default (some b) a = b

abbrev or_api : String → String
or_api source = ite (String-discrete source "") "tfe-api" source

abbrev auto_apply_of : Option TfeId → Workspace → Bool
auto_apply_of (some trigger) ws = ws.auto_apply_run_trigger
auto_apply_of none ws = ws.auto_apply

-- The literal, the phases and the status, in the order of the code.
base_run : TfeId → (ℕ → Time) → Workspace → ConfigurationVersion → CreateOptions → Run
base_run id clock ws cv opts = update_status pending opts.now (clock 3) (record {
  id = id;
  created_at = current_timestamp opts.now (clock 0);
  updated_at = 0;
  is_destroy = false;
  cancel_signaled_at = none;
  message = "";
  organization = ws.organization;
  refresh = true;
  refresh_only = false;
  replace_addrs = opts.replace_addrs;
  position_in_queue = 0;
  target_addrs = opts.target_addrs;
  engine_version = opts.engine_version;
  engine = ws.engine;
  allow_empty_apply = false;
  auto_apply = false;
  plan_only = cv.speculative;
  source = opts.source;
  status = pending;
  workspace_id = ws.id;
  configuration_version_id = cv.id;
  execution_kind = ws.mode.kind;
  variables = opts.variables;
  plan = new_phase id plan_phase (clock 1);
  apply = new_phase id apply_phase (clock 2);
  status_timestamps = [];
  latest = false;
  ingress_attributes = cv.ingress_attributes;
  created_by = opts.created_by;
  triggering_run_id = opts.triggering_run_id;
  cost_estimation_enabled = opts.cost_estimation_enabled;
})

-- `NewRun`.
unfoldable pub new_run : TfeId → (ℕ → Time) → Workspace → ConfigurationVersion → CreateOptions → Run
unfolding base_run
new_run id clock ws cv opts =
    let run = base_run id clock ws cv opts in
    record run {
      source = or_api run.source;
      auto_apply = or_default opts.auto_apply (auto_apply_of opts.triggering_run_id ws);
      created_at = or_default opts.created_at run.created_at;
      engine_version = or_default opts.terraform_version run.engine_version;
      allow_empty_apply = or_default opts.allow_empty_apply run.allow_empty_apply;
      is_destroy = or_default opts.is_destroy run.is_destroy;
      message = or_default opts.message run.message;
      refresh = or_default opts.refresh run.refresh;
      plan_only = or_default opts.plan_only run.plan_only;
    }
