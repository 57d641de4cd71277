-- ===== src/Variable.antt =====
-- internal/variable/variable.go, category.go and set.go: variables and sets of variables. The
-- identifier and the version that a call makes up are arguments.
pub mod Steps
pub mod Terraform
pub mod Merge
pub mod Store
pub mod Secrets
pub mod Bounds
use Prim.Native.String.{len}
use otf.Prelude.{
  ℕ, ◌*◌, ltb, Bool, true, false, ◌&&◌, not, or_keep, String, Option, none, some, List, [], ◌∷◌,
  Result, ok, err, ◌>>=◌, if◌then◌else◌, test, any,
}
use otf.Prelude.TextSearch.{trim_space}
use otf.Resource.{TfeId, TfeId-discrete}

-- category.go: a category is a text; `other_category` stands for any that has no constant.
pub data VariableCategory : Type 0 where
  terraform_category env_category : VariableCategory
  other_category : String → VariableCategory

abbrev pub variable_description_max_chars : ℕ
variable_description_max_chars = 512

abbrev pub variable_key_max_chars : ℕ
variable_key_max_chars = 128

abbrev pub variable_value_max_kb : ℕ
variable_value_max_kb = 256

pub data VariableError : Type 0 where
  description_max_exceeded key_max_exceeded value_max_exceeded : VariableError
  missing_key missing_category invalid_category : VariableError
  sensitive_key sensitive_hcl sensitive_to_non_sensitive : VariableError

pub record Variable : Type 0 where
  pub id : TfeId
  pub key : String
  pub value : String
  pub description : String
  pub category : VariableCategory
  pub sensitive : Bool
  pub hcl : Bool
  pub parent_id : TfeId
  pub version_id : String

-- `CreateVariableOptions` and `UpdateVariableOptions`.
pub record VariableOptions : Type 0 where
  pub key : Option String
  pub value : Option String
  pub description : Option String
  pub category : Option VariableCategory
  pub sensitive : Option Bool
  pub hcl : Option Bool

abbrev pub Edited : Type 0
Edited = Result VariableError Variable

unfoldable pub set_key : String → Variable → Edited
set_key key v =
    if ltb variable_key_max_chars (len key)
    then err key_max_exceeded
    else ok (record v { key = trim_space key })

unfoldable pub set_value : String → Variable → Edited
set_value value v =
    if ltb (variable_value_max_kb * 1024) (len value)
    then err value_max_exceeded
    else ok (record v { value = trim_space value })

unfoldable pub set_description : String → Variable → Edited
set_description desc v =
    if ltb variable_description_max_chars (len desc)
    then err description_max_exceeded
    else ok (record v { description = desc })

unfoldable pub set_category : VariableCategory → Variable → Edited
set_category terraform_category v = ok (record v { category = terraform_category })
set_category env_category v = ok (record v { category = env_category })
set_category (other_category c) v = err invalid_category

unfoldable pub set_sensitive : Bool → Variable → Edited
set_sensitive sensitive v =
    if v.sensitive && not sensitive
    then err sensitive_to_non_sensitive
    else ok (record v { sensitive = sensitive })

-- A field that an option leaves alone.
abbrev pub optional : {A : Type 0} → Option A → (A → Variable → Edited) → Variable → Edited
optional none set v = ok v
optional (some a) set v = set a v

abbrev pub required :
    {A : Type 0} → VariableError → Option A → (A → Variable → Edited) → Variable → Edited
required e none set v = err e
required e (some a) set v = set a v

abbrev pub put_sensitive : Bool → Variable → Edited
put_sensitive b v = ok (record v { sensitive = b })

abbrev pub put_hcl : Bool → Variable → Edited
put_hcl b v = ok (record v { hcl = b })

-- The variable before its fields are set: a category that is not set is the empty text.
abbrev pub blank : TfeId → String → TfeId → Variable
blank id version parent_id = record {
  id = id;
  key = "";
  value = "";
  description = "";
  category = other_category "";
  sensitive = false;
  hcl = false;
  parent_id = parent_id;
  version_id = version;
}

-- `newVariable`.
unfoldable pub new_variable : TfeId → String → TfeId → VariableOptions → Edited
new_variable id version parent_id opts =
    required missing_key opts.key set_key (blank id version parent_id)
    >>= required missing_category opts.category set_category
    >>= optional opts.value set_value
    >>= optional opts.description set_description
    >>= optional opts.sensitive put_sensitive
    >>= optional opts.hcl put_hcl

unfoldable pub change_key : String → Variable → Edited
change_key key v = if v.sensitive then err sensitive_key else set_key key v

unfoldable pub change_hcl : Bool → Variable → Edited
change_hcl true v =
    if not v.hcl && v.sensitive then err sensitive_hcl else ok (record v { hcl = true })
change_hcl false v =
    if v.hcl && v.sensitive then err sensitive_hcl else ok (record v { hcl = false })

abbrev pub put_version : String → Variable → Edited
put_version version v = ok (record v { version_id = version })

-- `update`.
unfoldable pub update : String → VariableOptions → Variable → Edited
update version opts v =
    optional opts.key change_key v
    >>= optional opts.value set_value
    >>= optional opts.description set_description
    >>= optional opts.category set_category
    >>= optional opts.hcl change_hcl
    >>= optional opts.sensitive set_sensitive
    >>= put_version version

-- `Matches`.
abbrev pub matches : Variable → List Variable → Bool
matches v vars = any (λ w. test (TfeId-discrete v.id w.id)) vars

-- set.go.
pub record VariableSet : Type 0 where
  pub id : TfeId
  pub name : String
  pub description : String
  pub global : Bool
  pub workspaces : List TfeId
  pub organization : String
  pub variables : List Variable

pub record CreateVariableSetOptions : Type 0 where
  pub name : String
  pub description : String
  pub global : Bool
  pub workspaces : List TfeId

pub record UpdateVariableSetOptions : Type 0 where
  pub name : Option String
  pub description : Option String
  pub global : Option Bool
  pub workspaces : Option (List TfeId)

-- `newSet`.
unfoldable pub new_set : TfeId → String → CreateVariableSetOptions → VariableSet
new_set id organization opts = record {
  id = id;
  name = opts.name;
  description = opts.description;
  global = opts.global;
  workspaces = [];
  organization = organization;
  variables = [];
}

-- `VariableSet.update`, which raises no error.
unfoldable pub update_set : UpdateVariableSetOptions → VariableSet → VariableSet
update_set opts s = record s {
  name = or_keep opts.name s.name;
  description = or_keep opts.description s.description;
  global = or_keep opts.global s.global;
  workspaces = or_keep opts.workspaces s.workspaces;
}
