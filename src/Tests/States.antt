-- ===== src/Tests/States.antt =====
-- The theorems on the versions of state, at concrete tables.
use otf.Prelude.{
  ℕ, ◌≡◌, refl, true, none, some, List, [], ◌∷◌, arith, lookup, insert, String, String-discrete,
  pos, ℤ,
}
use otf.Resource.{TfeId, TfeId-discrete, state_version_kind, state_version_output_kind}
use otf.StateVersion.{
  VersionStatus, VersionStatus-discrete, Version, StateTables, Factory, CreateStateVersionOptions,
  FileOutput, new_version, rollback, known, get_current_version,
}
use otf.StateVersion.Current.{HasCurrent}
use otf.StateVersion.Operations.{
  call_all, call_all-HasCurrent, creates, deletes, rolls_back, Event, tables_of, or_as_before,
}
use otf.StateVersion.Creation.{IsCurrent, Follows, new_version-IsCurrent, rollback-IsCurrent}
use otf.Tests.Samples.{workspace_id}

abbrev version_id : String → TfeId
version_id s = record { kind = state_version_kind; id = s }

-- A hash that tells the empty state from others, and a file with one output.
abbrev toy_hash : List ℕ → String
toy_hash [] = "empty"
toy_hash (b ∷ bs) = "some"

abbrev toy_output : FileOutput
toy_output = record { value = 1 ∷ []; sensitive = true; value_type = some "number" }

abbrev factory : Factory
factory = record {
  md5 = toy_hash;
  read_file = λ state. some (("address", toy_output) ∷ []);
  fresh = version_id "b";
  fresh_output = λ name. record { kind = state_version_output_kind; id = name };
  now = 7;
}

abbrev version_in : String → ℤ → VersionStatus → Version
version_in s serial status = record {
  id = version_id s;
  created_at = 1;
  serial = serial;
  state = some (5 ∷ []);
  status = status;
  outputs = [];
  workspace_id = workspace_id "dev";
}

abbrev first : Version
first = version_in "a" (pos 3) VersionStatus.finalized

abbrev left_over : Version
left_over = record (version_in "p" (pos 4) VersionStatus.pending) { state = none }

abbrev states : StateTables
states = record {
  versions = (version_id "a", first) ∷ (version_id "p", left_over) ∷ [];
  outputs = [];
  workspaces = (workspace_id "dev", some (version_id "a")) ∷ [];
}

abbrev no_states : StateTables
no_states = record { versions = []; outputs = []; workspaces = (workspace_id "dev", none) ∷ [] }

abbrev creation : CreateStateVersionOptions
creation = record {
  state = some (6 ∷ []);
  workspace_id = workspace_id "dev";
  serial = some (pos 4);
}

abbrev some_events : List (Factory × Event)
some_events =
    (factory, creates creation)
    ∷ (factory, deletes (version_id "b"))
    ∷ (record factory { fresh = version_id "c" }, rolls_back (version_id "b"))
    ∷ []

no_states-HasCurrent : HasCurrent no_states
unfolding lookup
no_states-HasCurrent w id h = absurd (ground (arith, h))

call_all-HasCurrent_example : HasCurrent (call_all some_events no_states)
call_all-HasCurrent_example = call_all-HasCurrent some_events no_states no_states-HasCurrent

abbrev after_creation : StateTables
after_creation = or_as_before states (tables_of (new_version factory creation states))

new_version-IsCurrent_example :
    (serial : ℤ) × (creation.serial ≡ some serial)
    × IsCurrent (workspace_id "dev") (version_id "b") serial (6 ∷ []) after_creation
    × Follows factory serial (6 ∷ []) (known (get_current_version (workspace_id "dev") states))
unfolding lookup TfeId-discrete String-discrete new_version otf.StateVersion.check_serial
    get_current_version otf.StateVersion.get_version otf.StateVersion.new_without_validation
    otf.StateVersion.create_version otf.StateVersion.upload_state_and_outputs
    otf.StateVersion.new_outputs VersionStatus-discrete otf.StateVersion.upload_state_and_finalize
    insert otf.StateVersion.update_current_version otf.StateVersion.discard_any_pending
new_version-IsCurrent_example =
    new_version-IsCurrent factory creation (6 ∷ []) states after_creation _ refl refl

abbrev after_rollback : StateTables
after_rollback = or_as_before states (tables_of (rollback factory (version_id "a") states))

rollback-IsCurrent_example :
    IsCurrent (workspace_id "dev") (version_id "b") (pos 3) (5 ∷ []) after_rollback
unfolding lookup TfeId-discrete String-discrete rollback otf.StateVersion.get_version
    otf.StateVersion.new_without_validation otf.StateVersion.create_version
    otf.StateVersion.upload_state_and_outputs otf.StateVersion.new_outputs VersionStatus-discrete
    otf.StateVersion.upload_state_and_finalize insert otf.StateVersion.update_current_version
    otf.StateVersion.discard_any_pending
rollback-IsCurrent_example =
    rollback-IsCurrent factory (version_id "a") first (5 ∷ []) states after_rollback _ refl refl
      refl
