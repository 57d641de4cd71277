-- ===== src/Workspace/Settings/Triggers/Updates.antt =====
-- The regex of tags and the patterns of a workspace after an update.
use otf.Prelude.{
  ◌≡◌, refl, ◌⊎◌, inl, inr, String, Bool, true, false, Option, none, some, List, [], arith, ok,
  Option-cases, is_some,
}
use otf.Time.{Time}
use otf.Execution
use otf.Workspace.Types.{Workspace, Connection}
use otf.Workspace.Settings.{
  Syntax, ConnectOptions, Outcome, and_then, check_triggers, set_trigger_patterns, set_tags_regex,
  add_connection, regex_of, non_empty, is_true, set_name,
}
use otf.Workspace.Settings.Triggers.{
  regex_in, IsExclusive, add_connection-keeps, add_connection-regex, check_triggers_lem,
}
use otf.Workspace.Settings.Update.{
  UpdateOptions, update, update_steps, update_triggers, update_patterns, update_connection, connect,
  trigger_always, stamp, assign_first, assign_rest, update_mode, name_step,
}

-- A workspace without a connection has no patterns.
abbrev pub IsBare : Workspace → Type 0
IsBare ws = ws.connection ≡ none → ws.trigger_patterns ≡ []

trigger_always-IsExclusive :
    (b : Bool) (ws : Workspace) → IsExclusive ws → IsExclusive (trigger_always b ws)
trigger_always-IsExclusive true ws h = inr refl
trigger_always-IsExclusive false ws h = h

trigger_always-IsBare : (b : Bool) (ws : Workspace) → IsBare ws → IsBare (trigger_always b ws)
trigger_always-IsBare true ws h = λ n. refl
trigger_always-IsBare false ws h = h

update_patterns-IsExclusive :
    (syntax : Syntax) (patterns : Option (List String)) (ws : Workspace)
    → IsExclusive ws
    → IsExclusive (update_patterns syntax patterns ws).0
unfolding update_patterns set_trigger_patterns
update_patterns-IsExclusive syntax none ws h = h
update_patterns-IsExclusive syntax (some l) ws h = ground arith

update_connection-IsExclusive :
    (syntax : Syntax) (c : ConnectOptions) (old : Connection) (ws : Workspace)
    → ws.connection ≡ some old
    → IsExclusive ws
    → IsExclusive (update_connection syntax c old ws).0
unfolding update_connection set_tags_regex
update_connection-IsExclusive syntax c old ws e h = ground arith

-- A connection is added to a workspace that has no patterns, or with no regex of tags.
connect-IsExclusive :
    (syntax : Syntax) (d : Bool) (c : Option ConnectOptions) (old : Option Connection)
    (ws : Workspace)
    → ws.connection ≡ old
    → IsExclusive ws
    → (non_empty (regex_of c) ≡ false) ⊎ IsBare ws
    → IsExclusive (connect syntax d c old ws).0
unfolding connect
connect-IsExclusive syntax true (some c) old ws e h k = h
connect-IsExclusive syntax true none none ws e h k = h
connect-IsExclusive syntax true none (some old) ws e h k = h
connect-IsExclusive syntax false none old ws e h k = h
connect-IsExclusive syntax false (some c) none ws e h (inl r) =
    inl (add_connection-regex syntax c ws r e)
connect-IsExclusive syntax false (some c) none ws e h (inr k) =
    inr (rw (add_connection-keeps syntax c ws) (k e))
connect-IsExclusive syntax false (some c) (some old) ws e h k =
    update_connection-IsExclusive syntax c old ws e h

update_patterns-IsBare :
    (syntax : Syntax) (patterns : Option (List String)) (ws : Workspace)
    → patterns ≡ none
    → IsBare ws
    → IsBare (update_patterns syntax patterns ws).0
unfolding update_patterns
update_patterns-IsBare syntax none ws e h = h
update_patterns-IsBare syntax (some l) ws e h = ground arith

and_then-IsExclusive :
    (o : Outcome) (next : Workspace → Outcome)
    → IsExclusive o.0
    → (IsExclusive o.0 → IsExclusive (next o.0).0)
    → IsExclusive (and_then o next).0
and_then-IsExclusive (ws, none) next h k = k h
and_then-IsExclusive (ws, some e) next h k = h

update_triggers-IsExclusive :
    (syntax : Syntax) (opts : UpdateOptions) (ws : Workspace)
    → IsExclusive ws
    → IsBare ws
    → IsExclusive (update_triggers syntax opts ws).0
unfolding update_triggers
update_triggers-IsExclusive syntax opts ws h b =
    elim (Option-cases (check_triggers opts.connect opts.trigger_patterns opts.always_trigger)) [
      | inr (x, e) ↦ rw (update_triggers, e) h
      | inl e ↦
          let u = trigger_always (is_true opts.always_trigger) ws in
          let o = update_patterns syntax opts.trigger_patterns u in
          rw (update_triggers, e)
            (and_then-IsExclusive o
              (λ w. connect syntax opts.disconnect opts.connect w.connection w)
              (update_patterns-IsExclusive syntax opts.trigger_patterns u
                (trigger_always-IsExclusive (is_true opts.always_trigger) ws h))
              (λ k.
                connect-IsExclusive syntax opts.disconnect opts.connect o.0.connection o.0 refl k
                  (elim (check_triggers_lem _ _ _ e) [
                    | inl r ↦ inl r
                    | inr r ↦ inr (
                        update_patterns-IsBare syntax opts.trigger_patterns u r.0
                          (trigger_always-IsBare (is_true opts.always_trigger) ws b))
                  ])))
    ]

-- The triggers of `ws` are those of `w`.
abbrev HasTriggersOf : Workspace → Workspace → Type 0
HasTriggersOf w ws = (ws.connection ≡ w.connection) × (ws.trigger_patterns ≡ w.trigger_patterns)

-- A step that leaves the triggers alone may come first.
and_then-HasTriggersOf :
    (o : Outcome) (next : Workspace → Outcome) (ws : Workspace)
    → HasTriggersOf ws o.0
    → IsExclusive ws
    → IsBare ws
    → ((w : Workspace) → IsExclusive w → IsBare w → IsExclusive (next w).0)
    → IsExclusive (and_then o next).0
and_then-HasTriggersOf (w, some x) next ws e h b k = ground arith
and_then-HasTriggersOf (w, none) next ws e h b k = k w (ground arith) (λ n. ground arith)

name_step-HasTriggersOf :
    (syntax : Syntax) (name : Option String) (ws : Workspace)
    → HasTriggersOf ws (name_step syntax name ws).0
unfolding set_name
name_step-HasTriggersOf syntax none ws = (refl, refl)
name_step-HasTriggersOf syntax (some name) ws = ground arith

update_steps-IsExclusive :
    (syntax : Syntax) (opts : UpdateOptions) (ws : Workspace)
    → IsExclusive ws
    → IsBare ws
    → IsExclusive (update_steps syntax opts ws).0
unfolding update_steps
update_steps-IsExclusive syntax opts ws h b =
    and_then-HasTriggersOf (name_step syntax opts.name ws) _ ws
      (name_step-HasTriggersOf syntax opts.name ws) h b
      (λ w i c.
        and_then-HasTriggersOf (update_mode opts (assign_first opts w)) _ w (refl, refl) i c
          (λ v j d. update_triggers-IsExclusive syntax opts (assign_rest opts v) j d))

stamp-IsExclusive :
    (b : Bool) (t : Time) (ws : Workspace) → IsExclusive ws → IsExclusive (stamp b t ws)
stamp-IsExclusive true t ws h = h
stamp-IsExclusive false t ws h = h

-- If a workspace does not have a regex of tags along with patterns, and has no patterns where it
-- has no connection, then after an update, also one that fails, it does not have a regex of tags
-- along with patterns.
pub update-IsExclusive :
    (syntax : Syntax) (opts : UpdateOptions) (reading : Time) (ws : Workspace)
    → IsExclusive ws
    → IsBare ws
    → IsExclusive (update syntax opts reading ws).0
unfolding update
update-IsExclusive syntax opts reading ws h b =
    let s = update_steps-IsExclusive syntax opts ws h b in
    elim (Option-cases ((update_steps syntax opts ws).1)) [
      | inl e ↦ rw (update, e) (stamp-IsExclusive _ reading (update_steps syntax opts ws).0 s)
      | inr (x, e) ↦ rw (update, e) s
    ]

-- An update that connects a workspace, which was not connected, to a repository with a regex of
-- tags that compiles, and that asks for no change of the name, the mode and the triggers besides,
-- succeeds, and leaves the workspace with that regex and with the patterns that it had.
pub update-regex_and_patterns :
    (syntax : Syntax) (opts : UpdateOptions) (reading : Time) (ws : Workspace) (c : ConnectOptions)
    (regex : String)
    → ws.connection ≡ none
    → opts.name ≡ none
    → opts.execution_kind ≡ none
    → opts.agent_pool_id ≡ none
    → opts.trigger_patterns ≡ none
    → opts.always_trigger ≡ none
    → opts.disconnect ≡ false
    → opts.connect ≡ some c
    → is_some c.repo_path ≡ true
    → is_some c.vcs_provider_id ≡ true
    → c.tags_regex ≡ some regex
    → syntax.is_regex regex ≡ true
    → let w = update syntax opts reading ws in
      (w.1 ≡ ok (some true))
      × (regex_in w.0.connection ≡ regex)
      × (w.0.trigger_patterns ≡ ws.trigger_patterns)
unfolding update update_steps update_triggers update_patterns connect add_connection set_tags_regex
    check_triggers Execution.update
update-regex_and_patterns syntax opts reading ws c regex n na ek ap tp at d co rp vp tr ir =
    ground arith
