-- ===== src/Workspace.antt =====
-- internal/workspace: workspaces, their locks, their policies and their settings.
pub mod Types
pub mod Lock
pub mod Policy
pub mod Settings
