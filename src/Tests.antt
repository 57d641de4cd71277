-- ===== src/Tests.antt =====
-- The theorems at concrete runs, queues, workspaces and runners.
mod Texts
mod Variables
mod Samples
mod Runs
mod Queues
mod Access
mod Locks
mod Settings
mod Services
mod Runners
mod Jobs
mod States
mod Users
mod Events
