-- ===== src/Run/Reporter.antt =====
-- internal/run/reporter.go: the statuses of runs that are set at the host of the repository. What
-- the clients answer, which may differ from event to event, comes with each event; an answer that
-- is an error is `none`. The texts of descriptions are left unprinted, and the events are a list,
-- after which the subscription has ended.
pub mod Changes
use otf.Prelude.{
  Bool, true, false, ◌||◌, String, String-discrete, Option, none, some, List, [], ◌∷◌, Result, ok,
  err, ◌>>=◌, if◌then◌else◌, test, lookup, insert, delete,
}
use otf.Resource.{TfeId, TfeId-discrete}
use otf.Vcs.{Repo}
use otf.ConfigVersion.{ConfigurationVersion, IngressAttributes}
use otf.Workspace.Types.{Workspace, Connection}
use otf.Run.Status.{Status}
use otf.Run.Status
use otf.Run.Phase.{Report}
use otf.Run.Types.{Run, run_done}
use otf.Pubsub
use otf.Pubsub.{EventType}

pub data VcsStatus : Type 0 where
  pending_status success_status error_status failure_status : VcsStatus

unfoldable pub VcsStatus-discrete : Discrete VcsStatus
VcsStatus-discrete = hlevel

-- The fields of `Event` that are read here.
pub record RunEvent : Type 0 where
  pub id : TfeId
  pub status : Status
  pub workspace_id : TfeId
  pub configuration_version_id : TfeId
  pub source : String

pub data Description : Type 0 where
  no_description : Description
  planned_report applied_report : Report → Description
  status_string : Status → Description

pub record SetStatusOptions : Type 0 where
  pub workspace : String
  pub repo : Repo
  pub ref : String
  pub status : VcsStatus
  pub target_url : String
  pub description : Description

pub data ReporterError : Type 0 where
  retrieving_config retrieving_workspace not_connected retrieving_vcs_client : ReporterError
  retrieving_run unknown_run_status setting_status : ReporterError

-- `SetStatus` of a provider: whether the status is set.
abbrev pub VcsClient : Type 0
VcsClient = SetStatusOptions → Bool

pub record Clients : Type 0 where
  pub get_config_version : TfeId → Option ConfigurationVersion
  pub get_workspace : TfeId → Option Workspace
  pub get_vcs_provider : TfeId → Option VcsClient
  pub get_run : TfeId → Option Run
  pub url : TfeId → String

-- A status that is to be set unless it was the last, with whether the run is done.
pub record StatusReport : Type 0 where
  pub id : TfeId
  pub options : SetStatusOptions
  pub client : VcsClient
  pub is_done : Bool

abbrev pub or_error {ℓ} : {A : Type ℓ} → ReporterError → Option A → Result ReporterError A
or_error e none = err e
or_error e (some a) = ok a

abbrev pub described : (Report → Description) → Option Report → Description
described f none = no_description
described f (some r) = f r

-- The switch on the status of the run.
abbrev pub report_status : Status → Run → Result ReporterError (VcsStatus × Description)
report_status Status.pending run = ok (pending_status, no_description)
report_status Status.plan_queued run = ok (pending_status, no_description)
report_status Status.apply_queued run = ok (pending_status, no_description)
report_status Status.planning run = ok (pending_status, no_description)
report_status Status.applying run = ok (pending_status, no_description)
report_status Status.planned run = ok (pending_status, no_description)
report_status Status.confirmed run = ok (pending_status, no_description)
report_status Status.planned_and_finished run =
    ok (success_status, described planned_report run.plan.resource_report)
report_status Status.applied run =
    ok (success_status, described applied_report run.apply.resource_report)
report_status Status.errored run = ok (error_status, status_string Status.errored)
report_status Status.canceled run = ok (error_status, status_string Status.canceled)
report_status Status.force_canceled run = ok (error_status, status_string Status.force_canceled)
report_status Status.discarded run = ok (error_status, status_string Status.discarded)
report_status Status.cost_estimated run = err unknown_run_status

abbrev pub report_of :
    Clients
    → RunEvent
    → Workspace
    → IngressAttributes
    → VcsClient
    → Run
    → VcsStatus × Description
    → Option StatusReport
report_of c e ws ingress client run (status, description) = some (record {
  id = e.id;
  options = record {
    workspace = ws.name;
    repo = ingress.repo;
    ref = ingress.commit_sha;
    status = status;
    target_url = c.url e.id;
    description = description;
  };
  client = client;
  is_done = run_done run;
})

abbrev pub gather_from :
    Clients → RunEvent → Option IngressAttributes → Result ReporterError (Option StatusReport)
gather_from c e none = ok none
gather_from c e (some ingress) =
    or_error retrieving_workspace (c.get_workspace e.workspace_id) >>= λ ws.
    or_error not_connected ws.connection >>= λ connection.
    or_error retrieving_vcs_client (c.get_vcs_provider connection.vcs_provider_id) >>= λ client.
    or_error retrieving_run (c.get_run e.id) >>= λ run.
    report_status e.status run >>= λ s. ok (report_of c e ws ingress client run s)

-- `handleRun` up to the cache: the report of the run, where it has one.
unfoldable pub gather : Clients → RunEvent → Result ReporterError (Option StatusReport)
gather c e =
    if test (String-discrete e.source "tfe-ui") || test (String-discrete e.source "tfe-api")
    then ok none
    else or_error retrieving_config (c.get_config_version e.configuration_version_id) >>= λ cv.
        gather_from c e cv.ingress_attributes

abbrev pub Cache : Type 0
Cache = List (TfeId × VcsStatus)

abbrev pub is_same : Option VcsStatus → VcsStatus → Bool
is_same none status = false
is_same (some last) status = test (VcsStatus-discrete last status)

abbrev pub next_cache : StatusReport → Cache → Cache
next_cache r cache =
    if r.is_done
    then delete TfeId-discrete r.id cache
    else insert TfeId-discrete r.id r.options.status cache

abbrev pub set_report :
    Cache → Option StatusReport → Result ReporterError (Cache × Option StatusReport)
set_report cache none = ok (cache, none)
set_report cache (some r) =
    if is_same (lookup TfeId-discrete r.id cache) r.options.status
    then ok (cache, none)
    else if r.client r.options
    then ok (next_cache r cache, some r)
    else err setting_status

-- `handleRun`: the cache, with the report whose status was set.
unfoldable pub handle_run :
    Clients → RunEvent → Cache → Result ReporterError (Cache × Option StatusReport)
handle_run c e cache = gather c e >>= set_report cache

unfoldable pub handle_event :
    Clients → Pubsub.Event RunEvent → Cache → Result ReporterError (Cache × Option StatusReport)
handle_event c e cache = elim e.type [
  | EventType.deleted ↦ ok (cache, none)
  | EventType.created ↦ handle_run c e.payload cache
  | EventType.updated ↦ handle_run c e.payload cache
]

abbrev pub cons_set :
    Option StatusReport
    → List StatusReport × Option ReporterError
    → List StatusReport × Option ReporterError
cons_set none p = p
cons_set (some r) (l, e) = (r ∷ l, e)

-- `Start`: the statuses that are set, and the error that ended it before the subscription did.
unfoldable pub start :
    Cache → List (Clients × Pubsub.Event RunEvent) → List StatusReport × Option ReporterError
start cache [] = ([], none)
start cache ((c, e) ∷ rest) = elim (handle_event c e cache) [
  | err x ↦ ([], some x)
  | ok (next, set) ↦ cons_set set (start next rest)
]
