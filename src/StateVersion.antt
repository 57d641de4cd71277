-- ===== src/StateVersion.antt =====
-- internal/state: version.go, db.go and service.go: the versions of the state of a workspace, their
-- creation, upload, deletion and rollback on the tables, each in a transaction. What reads a state
-- file is an argument, so is the hash of a state. A statement fails where it changes no row, where
-- a key is taken, where a version refers to a workspace that is not there, and where the version
-- that is deleted is the current one of a workspace.
pub mod Current
pub mod Operations
pub mod Creation
use otf.Prelude.{
  ℕ, ◌≡◌, Bool, true, false, ◌&&◌, not, String, String-discrete, Option, none, some, List, [], ◌∷◌,
  ◌++◌, map, Result, ok, err, ◌>>=◌, if◌then◌else◌, test, keep, any, lookup, insert, delete,
  is_some, ℤ, pos, negsuc, ltb_ℤ, map_values,
}
use otf.Resource.{TfeId, TfeId-discrete}
use otf.Time.{Time}

pub data VersionStatus : Type 0 where
  pending finalized discarded : VersionStatus

unfoldable pub VersionStatus-discrete : Discrete VersionStatus
VersionStatus-discrete = hlevel String-discrete

pub record Output : Type 0 where
  pub id : TfeId
  pub name : String
  pub output_type : String
  pub value : List ℕ
  pub sensitive : Bool
  pub state_version_id : TfeId

-- `Version`; a state that is nil is `none`.
pub record Version : Type 0 where
  pub id : TfeId
  pub created_at : Time
  pub serial : ℤ
  pub state : Option (List ℕ)
  pub status : VersionStatus
  pub outputs : List (String × Output)
  pub workspace_id : TfeId

pub record CreateStateVersionOptions : Type 0 where
  pub state : Option (List ℕ)
  pub workspace_id : TfeId
  pub serial : Option ℤ

pub data StateError : Type 0 where
  missing_serial serial_not_greater_than_current serial_md5_mismatch upload_non_pending : StateError
  current_version_deletion_attempt state_not_found duplicate_version no_workspace bad_state :
      StateError

-- The rows of versions by their identifier, which is the key, without outputs; the rows of outputs;
-- and the column of workspaces that names the current version.
pub record StateTables : Type 0 where
  pub versions : List (TfeId × Version)
  pub outputs : List Output
  pub workspaces : List (TfeId × Option TfeId)

-- An output of a state file; the type is nil where the value cannot be read.
pub record FileOutput : Type 0 where
  pub value : List ℕ
  pub sensitive : Bool
  pub value_type : Option String

-- What the creation of versions takes from outside.
pub record Factory : Type 0 where
  pub md5 : List ℕ → String
  pub read_file : List ℕ → Option (List (String × FileOutput))
  pub fresh : TfeId
  pub fresh_output : String → TfeId
  pub now : Time

unfoldable pub create_version : Version → StateTables → Result StateError StateTables
create_version v t =
    if is_some (lookup TfeId-discrete v.id t.versions)
    then err duplicate_version
    else if not (is_some (lookup TfeId-discrete v.workspace_id t.workspaces))
    then err no_workspace
    else ok
        (record t { versions = insert TfeId-discrete v.id (record v { outputs = [] }) t.versions })

abbrev pub finalize_found :
    TfeId → List ℕ → StateTables → Option Version → Result StateError StateTables
finalize_found id state t none = err state_not_found
finalize_found id state t (some v) = ok (record t {
  versions =
      insert TfeId-discrete id (record v { state = some state; status = finalized }) t.versions;
})

unfoldable pub upload_state_and_finalize :
    TfeId → List ℕ → StateTables → Result StateError StateTables
upload_state_and_finalize id state t =
    finalize_found id state t (lookup TfeId-discrete id t.versions)

abbrev pub discard_row : TfeId → Version → Version
discard_row ws v =
    if test (TfeId-discrete v.workspace_id ws) && test (VersionStatus-discrete v.status pending)
    then record v { status = discarded }
    else v

unfoldable pub discard_any_pending : TfeId → StateTables → StateTables
discard_any_pending ws t = record t { versions = map_values (discard_row ws) t.versions }

unfoldable pub update_current_version : TfeId → TfeId → StateTables → Result StateError StateTables
update_current_version ws id t =
    if is_some (lookup TfeId-discrete ws t.workspaces)
    then ok (record t { workspaces = insert TfeId-discrete ws (some id) t.workspaces })
    else err state_not_found

abbrev pub with_outputs : StateTables → Version → Version
with_outputs t v = record v {
  outputs =
      map (λ o. (o.name, o)) (keep (λ o. test (TfeId-discrete o.state_version_id v.id)) t.outputs);
}

abbrev pub scan_version : StateTables → TfeId → Option Version → Result StateError Version
scan_version t id none = err state_not_found
scan_version t id (some v) = ok (with_outputs t (record v { id = id }))

-- `getVersion` and `getVersionForUpdate`.
unfoldable pub get_version : TfeId → StateTables → Result StateError Version
get_version id t = scan_version t id (lookup TfeId-discrete id t.versions)

abbrev pub current_id : StateTables → Option (Option TfeId) → Result StateError Version
current_id t none = err state_not_found
current_id t (some none) = err state_not_found
current_id t (some (some id)) = get_version id t

unfoldable pub get_current_version : TfeId → StateTables → Result StateError Version
get_current_version ws t = current_id t (lookup TfeId-discrete ws t.workspaces)

abbrev pub names : TfeId → Option TfeId → Bool
names id none = false
names id (some cur) = test (TfeId-discrete cur id)

-- `deleteVersion`; the rows of its outputs are deleted with it.
unfoldable pub delete_version : TfeId → StateTables → Result StateError StateTables
delete_version id t =
    if any (λ p. names id p.1) t.workspaces
    then err current_version_deletion_attempt
    else if is_some (lookup TfeId-discrete id t.versions)
    then ok (record t {
      versions = delete TfeId-discrete id t.versions;
      outputs = keep (λ o. not (test (TfeId-discrete o.state_version_id id))) t.outputs;
    })
    else err state_not_found

abbrev pub output_of : Factory → TfeId → String → FileOutput → String → Output
output_of f sv name o typ = record {
  id = f.fresh_output name;
  name = name;
  output_type = typ;
  value = o.value;
  sensitive = o.sensitive;
  state_version_id = sv;
}

abbrev pub typed_output :
    Factory → TfeId → String → FileOutput → Option String → Result StateError Output
typed_output f sv name o none = err bad_state
typed_output f sv name o (some typ) = ok (output_of f sv name o typ)

unfoldable pub new_outputs :
    Factory → TfeId → List (String × FileOutput) → Result StateError (List Output)
new_outputs f sv [] = ok []
new_outputs f sv ((name, o) ∷ rest) = do
  out ← typed_output f sv name o o.value_type
  outs ← new_outputs f sv rest
  ok (out ∷ outs)

abbrev pub read_outputs :
    Factory → TfeId → Option (List (String × FileOutput)) → Result StateError (List Output)
read_outputs f sv none = err bad_state
read_outputs f sv (some file) = new_outputs f sv file

-- The statements of an upload.
abbrev pub upload : Version → List ℕ → List Output → StateTables → Result StateError StateTables
upload sv state outs t =
    upload_state_and_finalize sv.id state (record t { outputs = t.outputs ++ outs }) >>= λ u.
    update_current_version sv.workspace_id sv.id (discard_any_pending sv.workspace_id u)

unfoldable pub upload_state_and_outputs :
    Factory → Version → List ℕ → StateTables → Result StateError (StateTables × Version)
upload_state_and_outputs f sv state t = do
  outs ← read_outputs f sv.id (f.read_file state)
  if test (VersionStatus-discrete sv.status pending)
      then (upload sv state outs t >>= λ u.
          ok (u, record sv { status = finalized; outputs = map (λ o. (o.name, o)) outs }))
      else err upload_non_pending

abbrev pub created_version : Factory → CreateStateVersionOptions → ℤ → Version
created_version f opts serial = record {
  id = f.fresh;
  created_at = f.now;
  serial = serial;
  state = opts.state;
  status = pending;
  outputs = [];
  workspace_id = opts.workspace_id;
}

abbrev pub upload_if :
    Factory → Version → Option (List ℕ) → StateTables → Result StateError (StateTables × Version)
upload_if f sv none t = ok (t, sv)
upload_if f sv (some state) t = upload_state_and_outputs f sv state t

-- `newWithoutValidation`, with the serial, which is not nil.
unfoldable pub new_without_validation :
    Factory
    → CreateStateVersionOptions
    → ℤ
    → StateTables
    → Result StateError (StateTables × Version)
new_without_validation f opts serial t =
    create_version (created_version f opts serial) t
    >>= upload_if f (created_version f opts serial) opts.state

abbrev pub bytes_of_state : Option (List ℕ) → List ℕ
bytes_of_state none = []
bytes_of_state (some state) = state

abbrev pub same_serial : Factory → Option (List ℕ) → Option (List ℕ) → Result {0, 0} StateError Unit
same_serial f current none = err serial_not_greater_than_current
same_serial f current (some state) =
    if test (String-discrete (f.md5 (bytes_of_state current)) (f.md5 state))
    then ok tt
    else err serial_md5_mismatch

-- The serial and the state that a new version is compared with; -1 where there is no current
-- version.
abbrev pub known : Result StateError Version → ℤ × Option (List ℕ)
known (ok v) = (v.serial, v.state)
known (err e) = (negsuc 0, none)

unfoldable pub check_serial :
    Factory → ℤ → Option (List ℕ) → ℤ × Option (List ℕ) → Result {0, 0} StateError Unit
check_serial f serial state (current, current_state) =
    if ltb_ℤ serial current
    then err serial_not_greater_than_current
    else if ltb_ℤ current serial
    then ok tt
    else same_serial f current_state state

abbrev pub new_with :
    Factory
    → CreateStateVersionOptions
    → Option ℤ
    → StateTables
    → Result StateError (StateTables × Version)
new_with f opts none t = err missing_serial
new_with f opts (some serial) t =
    check_serial f serial opts.state (known (get_current_version opts.workspace_id t)) >>= λ _.
    new_without_validation f opts serial t

-- `new`, which `CreateStateVersion` of the service calls.
unfoldable pub new_version :
    Factory → CreateStateVersionOptions → StateTables → Result StateError (StateTables × Version)
new_version f opts t = new_with f opts opts.serial t

unfoldable pub rollback : Factory → TfeId → StateTables → Result StateError (StateTables × Version)
rollback f id t = get_version id t >>= λ sv.
    new_without_validation f
      (record { state = sv.state; workspace_id = sv.workspace_id; serial = some sv.serial })
      sv.serial t

-- `UploadState`.
unfoldable pub upload_state :
    Factory → TfeId → List ℕ → StateTables → Result StateError (StateTables × Version)
upload_state f id state t = get_version id t >>= λ sv. upload_state_and_outputs f sv state t
