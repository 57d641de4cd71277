-- ===== src/Authz/Role/Inheritance.antt =====
-- The workspace roles form a chain, and what the weaker ones leave out.
use otf.Prelude.{String, ◌≡◌, Bool, true, false, some, arith}
use otf.Resource.{Kind, Action, get, list, watch, download, tail}
use otf.Authz.Role.{
  Role, is_allowed, workspace_read_role, workspace_plan_role, workspace_write_role,
  workspace_admin_role, workspace_manager_role, role_string, workspace_role_from_string,
}

-- Each workspace role is allowed all that the next weaker one is: read, plan, write, admin,
-- workspace manager.
pub is_allowed-chain :
    (action : Action) (kind : Kind)
    → (is_allowed workspace_read_role action kind ≡ true
        → is_allowed workspace_plan_role action kind ≡ true)
      × (is_allowed workspace_plan_role action kind ≡ true
          → is_allowed workspace_write_role action kind ≡ true)
      × (is_allowed workspace_write_role action kind ≡ true
          → is_allowed workspace_admin_role action kind ≡ true)
      × (is_allowed workspace_admin_role action kind ≡ true
          → is_allowed workspace_manager_role action kind ≡ true)
unfolding is_allowed
is_allowed-chain action kind =
    (λ h. ground arith, λ h. ground arith, λ h. ground arith, λ h. ground arith)

abbrev pub is_read : Action → Bool
is_read get = true
is_read list = true
is_read watch = true
is_read download = true
is_read tail = true
is_read _ = false

-- The read role is allowed nothing but to get, list, watch, download and tail.
pub workspace_read_role-is_read :
    (action : Action) (kind : Kind)
    → is_allowed workspace_read_role action kind ≡ true
    → is_read action ≡ true
unfolding is_allowed
workspace_read_role-is_read action kind h = ground arith

-- A name that is read back as a role is the name of that role.
pub workspace_role_from_string-role_string :
    (name : String) (role : Role)
    → workspace_role_from_string name ≡ some role
    → role_string role ≡ name
unfolding workspace_role_from_string
workspace_role_from_string-role_string name role h = ground arith
