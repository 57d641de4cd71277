-- ===== src/Vcs.antt =====
-- internal/vcs/repo.go: a repository's name in two parts, and its text.
pub mod RoundTrip
use Prim.Native.Char.{Char}
use Prim.Native.String.{◌++◌, len}
use otf.Prelude.{String, Option, none, some, Result, ok, err, ◌==◌, if◌then◌else◌}
use otf.Prelude.Text.{split_last}

pub record Repo : Type 0 where
  pub owner : String
  pub name : String

pub data RepoError : Type 0 where
  empty_owner empty_name invalid_repo : RepoError

abbrev pub slash : Char
slash = "/"

-- `NewRepo`.
unfoldable pub new_repo : String → String → Result RepoError Repo
new_repo owner name =
    if len owner == 0
    then err empty_owner
    else if len name == 0
    then err empty_name
    else ok (record { owner = owner; name = name })

abbrev pub of_last : Option (String × String) → Result RepoError Repo
of_last none = err invalid_repo
of_last (some (owner, name)) =
    if len name == 0 then err invalid_repo else ok (record { owner = owner; name = name })

-- `NewRepoFromString`: the slash is the last character just when nothing stands behind it.
unfoldable pub new_repo_from_string : String → Result RepoError Repo
new_repo_from_string s = of_last (split_last slash s)

-- `String`, which `MarshalText` and `Value` write.
abbrev pub repo_string : Repo → String
repo_string r = r.owner ++ String.◌∷◌ slash r.name

abbrev assign : Repo → Result RepoError Repo → Repo × Option RepoError
assign r (ok x) = (x, none)
assign r (err e) = (r, some e)

-- `UnmarshalText`: the receiver after the call, and the error.
unfoldable pub unmarshal_text : Repo → String → Repo × Option RepoError
unmarshal_text r s = if len s == 0 then (r, none) else assign r (new_repo_from_string s)
