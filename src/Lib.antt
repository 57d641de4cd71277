-- ===== src/Lib.antt =====
-- Verification of otf, an open server for terraform: organizations have workspaces, a workspace has
-- runs, and a run has a plan phase and an apply phase. This library models the core of it in
-- internal/: the life of a run, the queue of runs of a workspace and its scheduler, the lock of a
-- workspace, its variables, the authorizer with its roles and subjects, the members of teams, and
-- the runners with the jobs that the allocator gives them.
--
-- The parts and their files:
--
-- * Run.Status, Run.Phase, Run.Types, Run.Create and Run.Lifecycle are internal/runstatus and
--   internal/run (run.go, phase.go, report.go, errors.go). A Run is the record of the code, and each
--   method that changes it (Discard, Cancel, EnqueuePlan, EnqueueApply, Start, Finish) is a function
--   that gives back the run with its error, since Go keeps what is written before a return.
--   Run.Lifecycle.step calls one of them, run_events a list of them.
-- * Run.Periods is ElapsedTime and PeriodReport of run.go.
-- * Run.Store is UpdateStatus of internal/run/db.go: what an operation's changes leave in the
--   database, and the sort of the timestamps by scan, which reads it. Run.Service is
--   internal/run/service.go: EnqueuePlan, StartPhase, FinishPhase, ApplyRun, DiscardRun, CancelRun
--   and ForceCancelRun as transactions on runs and workspaces.
-- * Run.Chunk is the sections of logs of internal/run/chunk.go, Run.Tailer the tail of them in
--   tailer.go, where the events of the subscription are a list. Run.Timeout is the check of
--   timeout.go.
-- * Run.Queue is the queue of scheduler.go with process, Run.Queue.Refinement the list of runs that
--   it implements; Run.Scheduler is schedule, the seeding and the loop of Start. The services are a
--   Client, whose answers are arguments, and the calls are recorded.
-- * Workspace.Types, Workspace.Settings, Workspace.Lock and Workspace.Policy are internal/workspace:
--   workspace.go (NewWorkspace and Update in Workspace.Settings.Create and .Update; Locked, Enlock
--   and Unlock in Workspace.Lock), lock_service.go, lock_db.go and policy.go. The scheduler and the
--   services of runs lock a workspace on behalf of a run.
-- * Execution is internal/workspace/execution/mode.go, ConfigVersion the records of
--   internal/configversion, Vcs is internal/vcs/repo.go.
-- * Authz.Role is internal/authz/role.go, Authz.Request is request.go and generateRequest of
--   authorizer.go. The resolvers of parents and the getter of policies, which other packages
--   register, are arguments. Authz.Subject is Authorize and CanAccess of authorizer.go over the
--   types of subjects, each with its own CanAccess.
-- * Team is internal/team/team.go, User is internal/user/user.go, and User.Members is the service
--   and the tables of both packages: the creation, update and deletion of teams and users and the
--   memberships between them, with the hook that makes the creator of an owners team its member.
-- * Organization is organization.go and token.go of internal/organization.
-- * Runner.Job is internal/runner/job.go, Runner.Meta is meta.go with the manager, and
--   Runner.Allocator is allocator.go. Runner.Service is service.go: the operations on jobs, on the
--   table of db.go, with the hooks that it registers with Run.Service, whose database has that table
--   as the part that only hooks change.
-- * Variable is internal/variable: variable.go and set.go in Variable, with Merge in Variable.Merge
--   and WriteTerraformVars in Variable.Terraform; Variable.Store is conflict_checker.go and the
--   operations of service.go on the tables of db.go, each in a transaction under the lock of the
--   tables. A run's variables come from Run.Types.
-- * StateVersion is internal/state: version.go, db.go and service.go, with the tables of versions
--   and outputs and the current version of each workspace. The reading of state files and the hash
--   of a state are arguments.
-- * Pubsub is the broker of internal/pubsub, which gives each subscriber the events of a table
--   through a channel with a bounded buffer; its steps are Pubsub.Received. Run.Reporter is
--   run/reporter.go, which gets events of runs and sets statuses at the host of the repository.
-- * Resource is internal/resource, with pagination.go in Resource.Page and the reading of
--   identifiers in Resource.Parse. Time is internal/time.go.
-- * Prelude holds what the modules share, Tests the theorems at concrete data.
--
-- Conventions. A time is a native number of nanoseconds; where an operation reads the clock it is
-- given the reading, and clock k is the k-th place of the text that reads it, so no property rests
-- on two readings being equal. A duration is an exact integer. Go's maps are association lists (the
-- subscriptions of Pubsub a set of numbers), and ranging over one visits it in that order. A nil
-- pointer that is read, or an index out of range, is a result of its own. Identifiers that the code
-- draws at random are arguments.
--
-- Fuel. The loop over the parents of a resource (Authz.Request.resolve_lineage) needs more fuel than
-- the rank of the resource, in any ranking of the kinds that the resolvers descend; the loop of
-- ListAll (Resource.Page.list_from) as much as there are pages, where the pages are those of a list;
-- and the search for a delimiter (Variable.Terraform.find_delimiter) as much as the value has bytes.
-- All other loops are by recursion on a list, a text or the number of subscriptions.
--
-- Bounds. An offset of a page is computed in 64 bits with its wrap-around. The number of pages is a
-- floating point quotient in the source, which is exact for fewer than 2^46 items. Other integers of
-- the source count things that are in memory.
--
-- Authorization. The operations on tables (Variable.Store, StateVersion, User.Members,
-- Runner.Service) stand for calls that the authorizer lets through, and one that is refused changes
-- nothing.
--
-- Not modelled: SQL, as far as it is more than the rows that UpdateStatus and toggleLock write,
-- with the primary keys of the tables of timestamps, and the order of aggregation, which is taken
-- to be that of writing; the HTTP handlers and templates; the clients of version control hosts; the
-- execution of terraform; tokens; modules and notifications; logs and metrics; the pools of runners
-- and their registration; the hooks that services other than that of jobs register.
pub mod Prelude
pub mod Authz
pub mod ConfigVersion
pub mod Execution
pub mod Organization
pub mod Pubsub
pub mod Resource
pub mod Run
pub mod Runner
pub mod StateVersion
pub mod Team
pub mod Time
pub mod User
pub mod Variable
pub mod Vcs
pub mod Workspace
pub mod Tests
