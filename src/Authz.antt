-- ===== src/Authz.antt =====
-- internal/authz: who may do what.
pub mod Role
pub mod Request
pub mod Subject
