-- ===== src/Runner.antt =====
-- internal/runner: runners, the jobs that they do, and the services that allot the ones to the
-- others.
pub mod Job
pub mod Meta
pub mod Service
pub mod Allocator
