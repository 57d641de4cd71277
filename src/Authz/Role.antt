-- ===== src/Authz/Role.antt =====
-- internal/authz/role.go: roles as tables of permitted actions, each with a role that it
-- inherits. The maps are read as tests on the kind and the action.
pub mod Inheritance
use otf.Prelude.{String, String-discrete, Bool, true, false, ◌||◌, Option, none, some, ite}
use otf.Resource.{
  Kind, Action, site_kind, organization_kind, workspace_kind, run_kind, config_version_kind,
  chunk_kind, user_kind, team_kind, module_kind, module_version_kind,
  notification_configuration_kind, runner_kind, state_version_kind, state_version_output_kind,
  variable_set_kind, variable_kind, vcs_provider_kind, ssh_key_kind, run_trigger_kind,
  plan_file_kind, tag_kind, entitlement_kind, get, list, create, update, delete, watch, download,
  apply, cancel, lock, force_unlock, unlock, add, remove, set_permission, unset_permission, tail,
}

-- `inherits` is a pointer to a role, so a role is a chain of tables.
pub data Role : Type 0 where
  root : String → (Kind → Action → Bool) → Role
  inheriting : String → (Kind → Action → Bool) → Role → Role

-- `IsAllowed`.
unfoldable pub is_allowed : Role → Action → Kind → Bool
is_allowed (root name permissions) action kind = permissions kind action
is_allowed (inheriting name permissions parent) action kind =
    permissions kind action || is_allowed parent action kind

abbrev reads : Action → Bool
reads get = true
reads list = true
reads _ = false

abbrev reads_watch : Action → Bool
reads_watch get = true
reads_watch list = true
reads_watch watch = true
reads_watch _ = false

abbrev edits : Action → Bool
edits create = true
edits update = true
edits delete = true
edits _ = false

abbrev gets : Action → Bool
gets get = true
gets _ = false

abbrev gets_download : Action → Bool
gets_download get = true
gets_download download = true
gets_download _ = false

abbrev lists : Action → Bool
lists list = true
lists _ = false

abbrev creates : Action → Bool
creates create = true
creates _ = false

abbrev creates_deletes : Action → Bool
creates_deletes create = true
creates_deletes delete = true
creates_deletes _ = false

abbrev tails : Action → Bool
tails tail = true
tails _ = false

abbrev minimum_table : Kind → Action → Bool
minimum_table organization_kind a = gets a
minimum_table user_kind a = reads a
minimum_table module_kind a = reads a
minimum_table team_kind a = reads a
minimum_table vcs_provider_kind a = reads a
minimum_table variable_set_kind a = reads a
minimum_table ssh_key_kind a = reads a
minimum_table run_trigger_kind a = reads a
minimum_table runner_kind a = reads_watch a
minimum_table entitlement_kind a = gets a
minimum_table tag_kind a = lists a
minimum_table _ a = false

-- `OrganizationMinPermissions`.
abbrev pub organization_min_permissions : Role
organization_min_permissions = root "minimum" minimum_table

abbrev read_table : Kind → Action → Bool
read_table run_kind a = reads_watch a
read_table plan_file_kind a = gets a
read_table workspace_kind a = gets a
read_table state_version_kind a = gets_download a
read_table state_version_output_kind a = gets a
read_table config_version_kind a = gets_download a
read_table notification_configuration_kind a = reads a
read_table variable_kind a = reads a
read_table chunk_kind a = tails a
read_table _ a = false

-- `WorkspaceReadRole`.
abbrev pub workspace_read_role : Role
workspace_read_role = root "read" read_table

abbrev plan_table : Kind → Action → Bool
plan_table run_kind a = creates a
plan_table config_version_kind a = creates a
plan_table _ a = false

-- `WorkspacePlanRole`.
abbrev pub workspace_plan_role : Role
workspace_plan_role = inheriting "plan" plan_table workspace_read_role

abbrev applies_cancels : Action → Bool
applies_cancels apply = true
applies_cancels cancel = true
applies_cancels _ = false

abbrev locks : Action → Bool
locks lock = true
locks unlock = true
locks _ = false

abbrev write_table : Kind → Action → Bool
write_table run_kind a = applies_cancels a
write_table workspace_kind a = locks a
write_table notification_configuration_kind a = edits a
write_table variable_kind a = edits a
write_table _ a = false

-- `WorkspaceWriteRole`.
abbrev pub workspace_write_role : Role
workspace_write_role = inheriting "write" write_table workspace_plan_role

abbrev administers : Action → Bool
administers update = true
administers delete = true
administers force_unlock = true
administers set_permission = true
administers unset_permission = true
administers _ = false

abbrev admin_table : Kind → Action → Bool
admin_table workspace_kind a = administers a
admin_table run_trigger_kind a = creates_deletes a
admin_table _ a = false

-- `WorkspaceAdminRole`.
abbrev pub workspace_admin_role : Role
workspace_admin_role = inheriting "admin" admin_table workspace_write_role

abbrev manages : Action → Bool
manages create = true
manages list = true
manages update = true
manages _ = false

abbrev adds_removes : Action → Bool
adds_removes add = true
adds_removes remove = true
adds_removes _ = false

abbrev manager_table : Kind → Action → Bool
manager_table workspace_kind a = manages a
manager_table tag_kind a = adds_removes a
manager_table _ a = false

-- `WorkspaceManagerRole`.
abbrev pub workspace_manager_role : Role
workspace_manager_role = inheriting "workspace-manager" manager_table workspace_admin_role

abbrev vcs_table : Kind → Action → Bool
vcs_table vcs_provider_kind a = creates_deletes a
vcs_table _ a = false

-- `VCSManagerRole`.
abbrev pub vcs_manager_role : Role
vcs_manager_role = root "vcs-manager" vcs_table

abbrev registry_table : Kind → Action → Bool
registry_table module_kind a = edits a
registry_table module_version_kind a = creates a
registry_table _ a = false

-- `RegistryManagerRole`.
abbrev pub registry_manager_role : Role
registry_manager_role = root "registry-manager" registry_table

-- `Role.String`.
abbrev pub role_string : Role → String
role_string (root name permissions) = name
role_string (inheriting name permissions parent) = name

-- `WorkspaceRoleFromString`; `none` is the error for an unknown role.
unfoldable pub workspace_role_from_string : String → Option Role
workspace_role_from_string role = ite (String-discrete role "read") (some workspace_read_role) (
    ite (String-discrete role "plan") (some workspace_plan_role) (
      ite (String-discrete role "write") (some workspace_write_role)
        (ite (String-discrete role "admin") (some workspace_admin_role) none)))
