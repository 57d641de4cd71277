-- ===== src/Tests/Events.antt =====
-- The theorems on the broker of events and on the reporter, at concrete events.
use otf.Prelude.{
  ◌≡◌, refl, sym, ap, true, false, none, some, Option, List, [], ◌∷◌, String, String-discrete,
  Result, ok, Bool, lookup,
}
use otf.Resource.{TfeId-discrete, vcs_provider_kind}
use otf.ConfigVersion.{IngressAttributes}
use otf.Workspace.Types.{Workspace}
use otf.Run.Status.{Status}
use otf.Run.Reporter.{
  Clients, RunEvent, StatusReport, ReporterError, VcsStatus-discrete, start, gather, pending_status,
  error_status,
}
use otf.Run.Reporter.Changes.{due, dues, changes, statuses, CanSet, start-changes}
use otf.Pubsub.{Event, SqlEvent, new_broker, subscribe, EventType}
use otf.Pubsub.Received.{
  Step, forwards, receives, subscribes, run_all, received, forwarded, Follows,
}
use otf.Pubsub.Delivery.{run_all-received}
use otf.Tests.Samples.{run_id, workspace_id, dev, config_1, planning_run}

abbrev inserted : String → SqlEvent
inserted row = record { action = "INSERT"; row = row; time = 0 }

-- Two events for a buffer of one, and one that comes after the first is received.
abbrev some_steps : List Step
some_steps =
    forwards (inserted "1")
    ∷ receives 0
    ∷ subscribes
    ∷ forwards (inserted "2")
    ∷ forwards (inserted "3")
    ∷ receives 0
    ∷ []

abbrev rows : String → Option String
rows row = some row

run_all-received_example :
    Follows 1 0
      (run_all 1 rows some_steps (subscribe new_broker).0)
      (received 1 rows 0 some_steps (subscribe new_broker).0)
      (forwarded rows some_steps)
unfolding subscribe
run_all-received_example = run_all-received 1 0 rows some_steps new_broker refl

abbrev ingress : IngressAttributes
ingress = record {
  branch = "main";
  commit_sha = "abc";
  repo = record { owner = "acme"; name = "infra" };
  is_pull_request = false;
  on_default_branch = true;
  configuration_version_id = config_1.id;
  commit_url = "";
  pull_request_number = 0;
  pull_request_url = "";
  pull_request_title = "";
  tag = "";
  sender_username = "ann";
  sender_avatar_url = "";
  sender_html_url = "";
}

abbrev connected : Workspace
connected = record dev {
  connection = some (record {
    branch = "";
    tags_regex = "";
    allow_cli_apply = false;
    vcs_provider_id = record { kind = vcs_provider_kind; id = "github" };
    repo = record { owner = "acme"; name = "infra" };
  });
}

abbrev all_known : Clients
all_known = record {
  get_config_version = λ id. some (record config_1 { ingress_attributes = some ingress });
  get_workspace = λ id. some connected;
  get_vcs_provider = λ id. some (λ options. true);
  get_run = λ id. some planning_run;
  url = λ id. id.id;
}

abbrev changed_to : Status → Event RunEvent
changed_to status = record {
  type = EventType.updated;
  payload = record {
    id = run_id "1";
    status = status;
    workspace_id = workspace_id "dev";
    configuration_version_id = config_1.id;
    source = "github";
  };
  time = 0;
}

abbrev run_changes : List (Clients × Event RunEvent)
run_changes =
    (all_known, changed_to Status.planning)
    ∷ (all_known, changed_to Status.planned)
    ∷ (all_known, changed_to Status.discarded)
    ∷ []

abbrev tells : Result ReporterError (Option StatusReport) → Bool
tells (ok (some r)) = r.client r.options
tells _ = true

run_changes-CanSet : CanSet run_changes
unfolding due gather String-discrete
run_changes-CanSet =
    ((λ r q. sym (ap tells q)), ((λ r q. sym (ap tells q)), ((λ r q. sym (ap tells q)), tt)))

start-changes_example :
    statuses (run_id "1") (start [] run_changes).0 ≡ changes none (dues (run_id "1") run_changes)
unfolding lookup
start-changes_example = start-changes (run_id "1") run_changes [] run_changes-CanSet

-- The second event, which is also pending, sets nothing.
run_changes-changes :
    changes none (dues (run_id "1") run_changes) ≡ pending_status ∷ error_status ∷ []
unfolding due gather String-discrete TfeId-discrete VcsStatus-discrete
run_changes-changes = refl
