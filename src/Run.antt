-- ===== src/Run.antt =====
-- internal/run and internal/runstatus: runs, their phases, logs, and the queue of runs of a
-- workspace.
pub mod Status
pub mod Phase
pub mod Types
pub mod Create
pub mod Lifecycle
pub mod Chunk
pub mod Tailer
pub mod Timeout
pub mod Store
pub mod Service
pub mod Periods
pub mod Queue
pub mod Scheduler
pub mod Reporter
