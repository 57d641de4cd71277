-- ===== src/Variable/Store/Invariant.antt =====
-- internal/variable/service.go: the operations one after the other, from empty tables.
use otf.Prelude.{String, List, [], ◌∷◌, Result, ok, err}
use otf.Resource.{TfeId}
use otf.Variable.{VariableOptions, CreateVariableSetOptions, UpdateVariableSetOptions}
use otf.Variable.Store.{
  Tables, StoreError, create_variable, update_variable, delete_variable, create_variable_set,
  update_variable_set, delete_variable_set, apply_set_to_workspaces, delete_set_from_workspaces,
  get_variable_set,
}
use otf.Variable.Store.Conflicts.{
  IsConsistent, Leaves, Leaves-bind, create-IsConsistent, update-IsConsistent, delete-IsConsistent,
}
use otf.Variable.Store.Sets.{
  create_set-IsConsistent, update_set-IsConsistent, delete_set-IsConsistent,
}

-- The operations of the service that write, with what they make up.
pub data Operation : Type 0 where
  creates : TfeId → String → TfeId → VariableOptions → Operation
  updates : TfeId → String → VariableOptions → Operation
  deletes : TfeId → Operation
  creates_set : String → String → CreateVariableSetOptions → Operation
  updates_set : TfeId → UpdateVariableSetOptions → Operation
  deletes_set : TfeId → Operation
  applies_set : TfeId → List TfeId → Operation
  withdraws_set : TfeId → List TfeId → Operation

abbrev pub perform : Operation → Tables → Result StoreError Tables
perform (creates id version parent opts) t = create_variable id version parent opts t
perform (updates id version opts) t = update_variable id version opts t
perform (deletes id) t = delete_variable id t
perform (creates_set id organization opts) t = create_variable_set id organization opts t
perform (updates_set id opts) t = update_variable_set id opts t
perform (deletes_set id) t = delete_variable_set id t
perform (applies_set id ws) t = apply_set_to_workspaces id ws t
perform (withdraws_set id ws) t = delete_set_from_workspaces id ws t

abbrev pub empty : Tables
empty = record { variables = []; sets = []; set_workspaces = [] }

-- A transaction that fails is rolled back.
abbrev pub committed : Tables → Result StoreError Tables → Tables
committed t (ok u) = u
committed t (err e) = t

abbrev pub perform_all : List Operation → Tables → Tables
perform_all [] t = t
perform_all (o ∷ os) t = perform_all os (committed t (perform o t))

perform-IsConsistent :
    (o : Operation) (t : Tables) → IsConsistent t → Leaves IsConsistent (perform o t)
unfolding apply_set_to_workspaces delete_set_from_workspaces
perform-IsConsistent (creates id version parent opts) t h =
    create-IsConsistent id version parent opts t h
perform-IsConsistent (updates id version opts) t h = update-IsConsistent id version opts t h
perform-IsConsistent (deletes id) t h = delete-IsConsistent id t h
perform-IsConsistent (creates_set id organization opts) t h =
    create_set-IsConsistent id organization opts t h
perform-IsConsistent (updates_set id opts) t h = update_set-IsConsistent id opts t h
perform-IsConsistent (deletes_set id) t h = delete_set-IsConsistent id t h
perform-IsConsistent (applies_set id ws) t h =
    Leaves-bind IsConsistent (get_variable_set t id) _ λ s got. h
perform-IsConsistent (withdraws_set id ws) t h =
    Leaves-bind IsConsistent (get_variable_set t id) _ λ s got. h

committed-IsConsistent :
    (t : Tables) (r : Result StoreError Tables)
    → IsConsistent t
    → Leaves IsConsistent r
    → IsConsistent (committed t r)
committed-IsConsistent t (ok u) h l = l
committed-IsConsistent t (err e) h l = h

performed : (os : List Operation) (t : Tables) → IsConsistent t → IsConsistent (perform_all os t)
performed [] t h = h
performed (o ∷ os) t h =
    performed os (committed t (perform o t))
      (committed-IsConsistent t (perform o t) h (perform-IsConsistent o t h))

-- Whatever operations the service performs from empty tables, failing ones included: no two
-- variables have the same key and category if they have the same parent, or if the parents of both
-- are global sets of one organization; and the set that a variable belongs to exists.
pub perform_all-IsConsistent : (os : List Operation) → IsConsistent (perform_all os empty)
perform_all-IsConsistent os = performed os empty (λ v w m n e. absurd m, λ v m. absurd m)
