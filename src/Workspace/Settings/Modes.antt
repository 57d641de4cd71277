-- ===== src/Workspace/Settings/Modes.antt =====
-- The execution mode of a workspace fits its agent pool.
use otf.Prelude.{
  ℕ, ◌≡◌, refl, subst, sym, String, Bool, true, false, Option, none, some, List, arith, ok,
  Result-cases, Option-cases, inl, inr,
}
use otf.Resource.{TfeId}
use otf.Time.{Time}
use otf.Execution.{Kind, Mode, is_valid, new_mode, new_mode_with_defaults}
use otf.Execution
use otf.Workspace.Types.{Workspace, Connection, Version}
use otf.Workspace.Settings.{
  Syntax, ConnectOptions, Outcome, and_then, check_triggers, set_trigger_patterns, set_tags_regex,
  add_connection, is_true, set_name,
}
use otf.Workspace.Settings.Update.{
  UpdateOptions, update, update_steps, update_triggers, update_patterns, connect, trigger_always,
  stamp, assign_first, assign_rest, update_mode, name_step,
}
use otf.Workspace.Settings.Create
use otf.Workspace.Settings.Create.{
  CreateOptions, new_workspace, create_steps, trigger_steps, valid_name, default_mode, mode_of,
}

-- The agent kind has an agent pool, and the others have none.
abbrev pub HasFittingMode : Workspace → Type 0
HasFittingMode ws = is_valid ws.mode.kind ws.mode.agent_pool_id ≡ ok tt

abbrev FitsUnlessFailed : Outcome → Type 0
FitsUnlessFailed o = o.1 ≡ none → HasFittingMode o.0

and_then-FitsUnlessFailed :
    (o : Outcome) (next : Workspace → Outcome)
    → FitsUnlessFailed o
    → ((w : Workspace) → HasFittingMode w → FitsUnlessFailed (next w))
    → FitsUnlessFailed (and_then o next)
and_then-FitsUnlessFailed (ws, none) next h k = k ws (h refl)
and_then-FitsUnlessFailed (ws, some e) next h k = λ n. absurd (ground (arith, n))

connect-mode :
    (syntax : Syntax) (d : Bool) (c : Option ConnectOptions) (old : Option Connection)
    (ws : Workspace)
    → (connect syntax d c old ws).0.mode ≡ ws.mode
unfolding connect add_connection set_tags_regex
connect-mode syntax d c old ws = ground arith

and_then-mode :
    (o : Outcome) (next : Workspace → Outcome) (m : Mode)
    → o.0.mode ≡ m
    → ((w : Workspace) → (next w).0.mode ≡ w.mode)
    → (and_then o next).0.mode ≡ m
and_then-mode (ws, none) next m e k = cc (e, k ws)
and_then-mode (ws, some x) next m e k = e

update_patterns-mode :
    (syntax : Syntax) (patterns : Option (List String)) (ws : Workspace)
    → (update_patterns syntax patterns ws).0.mode ≡ ws.mode
unfolding update_patterns set_trigger_patterns
update_patterns-mode syntax patterns ws = ground arith

trigger_always-mode : (b : Bool) (ws : Workspace) → (trigger_always b ws).mode ≡ ws.mode
trigger_always-mode true ws = refl
trigger_always-mode false ws = refl

update_triggers-mode :
    (syntax : Syntax) (opts : UpdateOptions) (ws : Workspace)
    → (update_triggers syntax opts ws).0.mode ≡ ws.mode
unfolding update_triggers
update_triggers-mode syntax opts ws =
    elim (Option-cases (check_triggers opts.connect opts.trigger_patterns opts.always_trigger)) [
      | inr (x, e) ↦ rw (update_triggers, e) refl
      | inl e ↦
          let u = trigger_always (is_true opts.always_trigger) ws in
          rw (update_triggers, e)
            (and_then-mode (update_patterns syntax opts.trigger_patterns u) _ ws.mode
              (cc (
                update_patterns-mode syntax opts.trigger_patterns u,
                trigger_always-mode (is_true opts.always_trigger) ws,
              ))
              (λ w. connect-mode syntax opts.disconnect opts.connect w.connection w))
    ]

update_mode-FitsUnlessFailed :
    (opts : UpdateOptions) (ws : Workspace)
    → HasFittingMode ws
    → FitsUnlessFailed (update_mode opts ws)
unfolding Execution.update
update_mode-FitsUnlessFailed opts ws h = λ n. ground arith

operations-HasFittingMode :
    (opts : UpdateOptions) (ws : Workspace)
    → HasFittingMode ws
    → HasFittingMode (assign_rest opts ws)
operations-HasFittingMode opts ws h = ground arith

name_step-FitsUnlessFailed :
    (syntax : Syntax) (name : Option String) (ws : Workspace)
    → HasFittingMode ws
    → FitsUnlessFailed (name_step syntax name ws)
unfolding set_name
name_step-FitsUnlessFailed syntax none ws h = λ n. h
name_step-FitsUnlessFailed syntax (some name) ws h = λ n. ground arith

update_steps-FitsUnlessFailed :
    (syntax : Syntax) (opts : UpdateOptions) (ws : Workspace)
    → HasFittingMode ws
    → FitsUnlessFailed (update_steps syntax opts ws)
unfolding update_steps
update_steps-FitsUnlessFailed syntax opts ws h =
    and_then-FitsUnlessFailed (name_step syntax opts.name ws) _
      (name_step-FitsUnlessFailed syntax opts.name ws h)
      (λ w i.
        and_then-FitsUnlessFailed (update_mode opts (assign_first opts w)) _
          (update_mode-FitsUnlessFailed opts (assign_first opts w) i)
          (λ v j n.
            subst (λ m. is_valid m.kind m.agent_pool_id ≡ ok tt)
              (sym (update_triggers-mode syntax opts (assign_rest opts v)))
              (operations-HasFittingMode opts v j)))

stamp-HasFittingMode :
    (b : Bool) (t : Time) (ws : Workspace) → HasFittingMode ws → HasFittingMode (stamp b t ws)
stamp-HasFittingMode true t ws h = h
stamp-HasFittingMode false t ws h = h

-- If the mode of a workspace fits its agent pool, it does so after every update that succeeds.
pub update-HasFittingMode :
    (syntax : Syntax) (opts : UpdateOptions) (reading : Time) (ws : Workspace)
    {connects : Option Bool}
    → HasFittingMode ws
    → (update syntax opts reading ws).1 ≡ ok connects
    → HasFittingMode (update syntax opts reading ws).0
unfolding update
update-HasFittingMode syntax opts reading ws h s =
    elim (Option-cases ((update_steps syntax opts ws).1)) [
      | inl e ↦
          rw (update, e)
            (stamp-HasFittingMode _ reading (update_steps syntax opts ws).0
              (update_steps-FitsUnlessFailed syntax opts ws h e))
      | inr (x, e) ↦ absurd (ground (arith, rw (update, e) at s))
    ]

mode_of-fits :
    (opts : CreateOptions) (default mode : Mode)
    → mode_of opts default ≡ ok mode
    → is_valid mode.kind mode.agent_pool_id ≡ ok tt
unfolding mode_of new_mode_with_defaults new_mode
mode_of-fits opts default mode e = ground arith

set_name-mode :
    (syntax : Syntax) (name : String) (ws : Workspace) → (set_name syntax name ws).0.mode ≡ ws.mode
unfolding set_name
set_name-mode syntax name ws = ground arith

version_step-mode :
    (client : Create.Client) (v : Option Version) (ws : Workspace)
    → (Create.version_step client v ws).0.mode ≡ ws.mode
version_step-mode client v ws = ground arith

connect_step-mode :
    (syntax : Syntax) (c : Option ConnectOptions) (ws : Workspace)
    → (Create.connect_step syntax c ws).0.mode ≡ ws.mode
unfolding add_connection set_tags_regex
connect_step-mode syntax c ws = ground arith

patterns_step-mode :
    (syntax : Syntax) (patterns : Option (List String)) (ws : Workspace)
    → (Create.patterns_step syntax patterns ws).0.mode ≡ ws.mode
unfolding set_trigger_patterns
patterns_step-mode syntax patterns ws = ground arith

trigger_steps-mode :
    (syntax : Syntax) (opts : CreateOptions) (ws : Workspace)
    → (trigger_steps syntax opts ws).0.mode ≡ ws.mode
unfolding trigger_steps
trigger_steps-mode syntax opts ws =
    elim (Option-cases (check_triggers opts.connect opts.trigger_patterns opts.always_trigger)) [
      | inr (x, e) ↦ rw (trigger_steps, e) refl
      | inl e ↦
          rw (trigger_steps, e)
            (and_then-mode (Create.connect_step syntax opts.connect ws) _ ws.mode
              (connect_step-mode syntax opts.connect ws)
              (λ w. patterns_step-mode syntax opts.trigger_patterns w))
    ]

create_steps-mode :
    (syntax : Syntax) (client : Create.Client) (opts : CreateOptions) (name : String)
    (ws : Workspace)
    → (create_steps syntax client opts name ws).0.mode ≡ ws.mode
unfolding create_steps
create_steps-mode syntax client opts name ws =
    and_then-mode (set_name syntax name ws) _ ws.mode (set_name-mode syntax name ws) (λ w.
      and_then-mode (Create.version_step client opts.engine_version (Create.assign opts w)) _ w.mode
        (version_step-mode client opts.engine_version (Create.assign opts w))
        (λ v. trigger_steps-mode syntax opts (Create.assign_rest opts v)))

-- What a new workspace is made of: a mode that was checked, and the steps that follow.
pub new_workspace_of_ok :
    (syntax : Syntax) (client : Create.Client) (engine : String) (id : TfeId) (clock : ℕ → Time)
    (opts : CreateOptions) (ws : Workspace)
    → new_workspace syntax client engine id clock opts ≡ ok ws
    → (name : String) × (org : String) × (default : Mode) × (mode : Mode) × (mode_of opts default
        ≡ ok mode)
      × (Create.result_of
            (create_steps syntax client opts name (Create.blank id clock engine org mode))
          ≡ ok ws)
unfolding new_workspace
new_workspace_of_ok syntax client engine id clock opts ws e =
    elim (Result-cases (valid_name syntax opts.name)) [
      | inr (x, q) ↦ absurd (ground (arith, rw (q, new_workspace) at e))
      | inl (name, q) ↦ elim (Result-cases (default_mode client opts.organization)) [
        | inr (x, k) ↦ absurd (ground (arith, rw (q, k, new_workspace) at e))
        | inl (org, k) ↦ elim (Result-cases (mode_of opts org.1)) [
          | inr (x, m) ↦ absurd (ground (arith, rw (q, k, m, new_workspace) at e))
          | inl (mode, m) ↦ (name, org.0, org.1, mode, m, rw (q, k, m, new_workspace) at e)
        ]
      ]
    ]

pub result_of-ok : (o : Outcome) (ws : Workspace) → Create.result_of o ≡ ok ws → o.0 ≡ ws
result_of-ok (w, none) ws e = ground arith
result_of-ok (w, some x) ws e = ground arith

-- The mode of a new workspace fits its agent pool, also where it is the organization's default.
pub new_workspace-HasFittingMode :
    (syntax : Syntax) (client : Create.Client) (engine : String) (id : TfeId) (clock : ℕ → Time)
    (opts : CreateOptions) (ws : Workspace)
    → new_workspace syntax client engine id clock opts ≡ ok ws
    → HasFittingMode ws
new_workspace-HasFittingMode syntax client engine id clock opts ws e =
    let (name, org, default, mode, m, r) =
      new_workspace_of_ok syntax client engine id clock opts ws e in
    let blank = Create.blank id clock engine org mode in
    let same : ws.mode ≡ mode = cc (
      result_of-ok (create_steps syntax client opts name blank) ws r,
      create_steps-mode syntax client opts name blank,
    ) in
    subst (λ x. is_valid x.kind x.agent_pool_id ≡ ok tt) (sym same)
      (mode_of-fits opts default mode m)
