-- ===== src/Workspace/Settings/Triggers.antt =====
-- Which events trigger runs of a workspace: a regex of tags and patterns of paths exclude one
-- another. Here for a new workspace.
pub mod Updates
use otf.Prelude.{
  ℕ, ◌≡◌, ◌≢◌, refl, ◌⊎◌, inl, inr, String, Bool, true, false, Option, none, some, List, [], ◌∷◌,
  arith, Result, ok, err, Option-cases, Bool-cases, is_some, Result-cases, subst, ◌>>=◌,
}
use otf.Resource.{TfeId}
use otf.Time.{Time}
use otf.Vcs.{Repo}
use otf.Execution
use otf.Workspace.Types.{Workspace, Connection, Version}
use otf.Workspace.Settings.{
  Syntax, SettingsError, ConnectOptions, Outcome, and_then, or_kept, check_triggers,
  set_trigger_patterns, set_tags_regex, add_connection, add_connection_to, regex_of, non_empty,
  is_true, has_patterns, set_name, clear_tags_regex,
}
use otf.Workspace.Settings.Update.{
  UpdateOptions, update, update_steps, update_triggers, update_patterns, update_connection, connect,
  trigger_always, stamp, assign_first, assign_rest, update_mode, name_step,
}
use otf.Workspace.Settings.Modes.{new_workspace_of_ok, result_of-ok}
use otf.Workspace.Settings.Create
use otf.Workspace.Settings.Create.{
  CreateOptions, new_workspace, create_steps, trigger_steps, valid_name, default_mode, mode_of,
}

abbrev pub regex_in : Option Connection → String
regex_in none = ""
regex_in (some c) = c.tags_regex

-- The workspace has no regex of tags, or no patterns.
abbrev pub IsExclusive : Workspace → Type 0
IsExclusive ws = (regex_in ws.connection ≡ "") ⊎ (ws.trigger_patterns ≡ [])

pub add_connection-keeps :
    (syntax : Syntax) (opts : ConnectOptions) (ws : Workspace)
    → (add_connection syntax opts ws).0.trigger_patterns ≡ ws.trigger_patterns
unfolding add_connection set_tags_regex
add_connection-keeps syntax opts ws = ground arith

-- A connection that is made has the regex of the options, or none where they hold no regex.
pub add_connection-regex :
    (syntax : Syntax) (opts : ConnectOptions) (ws : Workspace)
    → non_empty opts.tags_regex ≡ false
    → ws.connection ≡ none
    → regex_in (add_connection syntax opts ws).0.connection ≡ ""
unfolding add_connection set_tags_regex
add_connection-regex syntax opts ws e n = ground arith

-- What the tests on the triggers leave: with a regex there are no patterns, and no more is asked.
pub check_triggers_lem :
    (c : Option ConnectOptions) (patterns : Option (List String)) (always : Option Bool)
    → check_triggers c patterns always ≡ none
    → (non_empty (regex_of c) ≡ false) ⊎ ((patterns ≡ none) × (is_true always ≡ false))
unfolding check_triggers
check_triggers_lem c patterns always e = ground arith

set_trigger_patterns-connection :
    (syntax : Syntax) (patterns : List String) (ws : Workspace)
    → (set_trigger_patterns syntax patterns ws).0.connection ≡ ws.connection
unfolding set_trigger_patterns
set_trigger_patterns-connection syntax patterns ws = ground arith

connect_step-IsExclusive :
    (syntax : Syntax) (c : Option ConnectOptions) (patterns : Option (List String)) (ws : Workspace)
    → ws.connection ≡ none
    → ws.trigger_patterns ≡ []
    → (non_empty (regex_of c) ≡ false) ⊎ (patterns ≡ none)
    → IsExclusive
        (and_then (Create.connect_step syntax c ws) (λ w. Create.patterns_step syntax patterns w)).0
connect_step-IsExclusive syntax none none ws n p d = inr p
connect_step-IsExclusive syntax none (some l) ws n p d =
    inl (rw (set_trigger_patterns-connection syntax l ws, n) refl)
connect_step-IsExclusive syntax (some c) none ws n p d =
    inr (ground (arith, add_connection-keeps syntax c ws))
connect_step-IsExclusive syntax (some c) (some l) ws n p d = inl (
    ground (
      arith,
      add_connection-regex syntax c ws,
      set_trigger_patterns-connection syntax l (add_connection syntax c ws).0,
    ))

trigger_steps-IsExclusive :
    (syntax : Syntax) (opts : CreateOptions) (ws : Workspace)
    → ws.connection ≡ none
    → ws.trigger_patterns ≡ []
    → IsExclusive (trigger_steps syntax opts ws).0
unfolding trigger_steps
trigger_steps-IsExclusive syntax opts ws n p =
    elim (Option-cases (check_triggers opts.connect opts.trigger_patterns opts.always_trigger)) [
      | inl e ↦
          rw (trigger_steps, e)
            (connect_step-IsExclusive syntax opts.connect opts.trigger_patterns ws n p
              (elim (check_triggers_lem _ _ _ e) [ inl h ↦ inl h | inr h ↦ inr h.0 ]))
      | inr (x, e) ↦ rw (trigger_steps, e) (inr p)
    ]

with_latest-IsExclusive :
    (syntax : Syntax) (opts : CreateOptions) (latest : Option String) (ws : Workspace)
    → ws.connection ≡ none
    → ws.trigger_patterns ≡ []
    → IsExclusive
        (and_then
          (Create.with_latest latest ws)
          (λ u. trigger_steps syntax opts (Create.assign_rest opts u))).0
with_latest-IsExclusive syntax opts none ws n p = inr p
with_latest-IsExclusive syntax opts (some semver) ws n p =
    trigger_steps-IsExclusive syntax opts _ n p

version_step-IsExclusive :
    (syntax : Syntax) (client : Create.Client) (opts : CreateOptions) (v : Option Version)
    (ws : Workspace)
    → ws.connection ≡ none
    → ws.trigger_patterns ≡ []
    → IsExclusive
        (and_then
          (Create.version_step client v (Create.assign opts ws))
          (λ u. trigger_steps syntax opts (Create.assign_rest opts u))).0
version_step-IsExclusive syntax client opts (some v) ws n p =
    trigger_steps-IsExclusive syntax opts _ n p
version_step-IsExclusive syntax client opts none ws n p =
    with_latest-IsExclusive syntax opts _ (Create.assign opts ws) n p

create_steps-IsExclusive :
    (syntax : Syntax) (client : Create.Client) (opts : CreateOptions) (name : String)
    (ws : Workspace)
    → ws.connection ≡ none
    → ws.trigger_patterns ≡ []
    → IsExclusive (create_steps syntax client opts name ws).0
unfolding create_steps set_name
create_steps-IsExclusive syntax client opts name ws n p = elim (Bool-cases (syntax.is_name name)) [
  | inr e ↦ rw (create_steps, set_name, e) (inr p)
  | inl e ↦
      rw (create_steps, set_name, e)
        (version_step-IsExclusive syntax client opts opts.engine_version (record ws { name = name })
          n p)
]

-- A new workspace does not have a regex of tags along with patterns of paths.
pub new_workspace-IsExclusive :
    (syntax : Syntax) (client : Create.Client) (engine : String) (id : TfeId) (clock : ℕ → Time)
    (opts : CreateOptions) (ws : Workspace)
    → new_workspace syntax client engine id clock opts ≡ ok ws
    → IsExclusive ws
new_workspace-IsExclusive syntax client engine id clock opts ws e =
    let (name, org, default, mode, m, r) =
      new_workspace_of_ok syntax client engine id clock opts ws e in
    let blank = Create.blank id clock engine org mode in
    subst IsExclusive (result_of-ok (create_steps syntax client opts name blank) ws r)
      (create_steps-IsExclusive syntax client opts name blank refl refl)
