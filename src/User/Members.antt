-- ===== src/User/Members.antt =====
-- internal/user/service.go and db.go, internal/team/service.go and db.go: teams, users and the
-- memberships between them, as tables. Authorization is not part of the model: an operation that is
-- refused does nothing. A statement fails where it changes no row, where the identifier of a team
-- or its name in its organization is taken, or where a membership refers to a user who is not
-- there. The table of memberships has no key, so a member may stand in it twice. Tokens are left
-- out.
pub mod Owners
use otf.Prelude.{
  ◌≡◌, Bool, true, false, not, ◌&&◌, String, String-discrete, Option, none, some, List, [], ◌∷◌,
  ◌++◌, map, Result, ok, err, ◌>>=◌, if◌then◌else◌, test, keep, any, lookup, insert, delete,
  is_some, length, leb,
}
use otf.Resource.{TfeId, TfeId-discrete}
use otf.Time.{Time}
use otf.Team.{Team, TeamOptions, TeamError, new_team, is_owners}
use otf.Team

-- Teams by their identifier, the names of the users, and the memberships.
pub record MemberTables : Type 0 where
  pub teams : List (TfeId × Team)
  pub users : List String
  pub memberships : List (TfeId × String)

pub data MemberError : Type 0 where
  team_not_found user_not_found duplicate_team duplicate_user no_rows no_user_in_context :
      MemberError
  removing_owners_team_not_permitted cannot_delete_only_owner invalid_username : MemberError
  new_team_failed : TeamError → MemberError

abbrev pub same_name : String → String → Bool
same_name a b = test (String-discrete a b)

abbrev pub is_member : MemberTables → TfeId → String → Bool
is_member t team user =
    any (λ m. test (TfeId-discrete m.0 team) && same_name m.1 user) t.memberships

-- `listTeamUsers`: each user who is a member, once.
unfoldable pub list_team_users : MemberTables → TfeId → List String
list_team_users t team = keep (is_member t team) t.users

abbrev pub is_user : MemberTables → String → Bool
is_user t name = any (same_name name) t.users

-- `Create` of a user.
unfoldable pub create_user : String → MemberTables → Result MemberError MemberTables
create_user name t =
    if same_name name ""
    then err invalid_username
    else if is_user t name
    then err duplicate_user
    else ok (record t { users = t.users ++ name ∷ [] })

-- The loop of `AddTeamMembership` over the names.
unfoldable pub create_missing : List String → MemberTables → Result MemberError MemberTables
create_missing [] t = ok t
create_missing (name ∷ names) t =
    (if is_user t name then ok t else create_user name t) >>= create_missing names

-- The statement of `addTeamMembership`.
unfoldable pub add_rows : TfeId → List String → MemberTables → Result MemberError MemberTables
add_rows team names t =
    if leb (length names) 0
    then err no_rows
    else if any (λ n. not (is_user t n)) names
    then err user_not_found
    else ok (record t { memberships = t.memberships ++ map (λ n. (team, n)) names })

-- `AddTeamMembership`.
unfoldable pub add_team_membership :
    TfeId → List String → MemberTables → Result MemberError MemberTables
add_team_membership team names t =
    if is_some (lookup TfeId-discrete team t.teams)
    then (create_missing names t >>= add_rows team names)
    else err team_not_found

abbrev pub is_removed : TfeId → List String → TfeId × String → Bool
is_removed team names (id, user) = test (TfeId-discrete id team) && any (same_name user) names

-- The statement of `removeTeamMembership`.
unfoldable pub remove_rows : TfeId → List String → MemberTables → Result MemberError MemberTables
remove_rows team names t =
    if any (is_removed team names) t.memberships
    then ok (record t { memberships = keep (λ m. not (is_removed team names m)) t.memberships })
    else err no_rows

abbrev pub remove_from :
    TfeId → List String → MemberTables → Option Team → Result MemberError MemberTables
remove_from team names t none = err team_not_found
remove_from team names t (some found) =
    if is_owners found && leb (length (list_team_users t team)) (length names)
    then err cannot_delete_only_owner
    else remove_rows team names t

-- `RemoveTeamMembership`.
unfoldable pub remove_team_membership :
    TfeId → List String → MemberTables → Result MemberError MemberTables
remove_team_membership team names t = remove_from team names t (lookup TfeId-discrete team t.teams)

-- Whether another team of the organization has the name.
abbrev pub is_taken : TfeId → Team → TfeId × Team → Bool
is_taken id team (other, row) =
    not (test (TfeId-discrete other id))
    && same_name row.organization team.organization
    && same_name row.name team.name

-- The statement of `createTeam`.
unfoldable pub insert_team : Team → MemberTables → Result MemberError MemberTables
insert_team team t =
    if is_some (lookup TfeId-discrete team.id t.teams)
    then err duplicate_team
    else if any (is_taken team.id team) t.teams
    then err duplicate_team
    else ok (record t { teams = insert TfeId-discrete team.id team t.teams })

-- The hook after the creation of a team, with the user of the context.
abbrev pub add_owner : Option String → TfeId → MemberTables → Result MemberError MemberTables
add_owner none team t = err no_user_in_context
add_owner (some user) team t = add_team_membership team (user ∷ []) t

unfoldable pub after_create_team :
    Option String → Team → MemberTables → Result MemberError MemberTables
after_create_team user team t = if is_owners team then add_owner user team.id t else ok t

abbrev pub insert_new :
    Option String → Result TeamError Team → MemberTables → Result MemberError MemberTables
insert_new user (err e) t = err (new_team_failed e)
insert_new user (ok team) t = insert_team team t >>= after_create_team user team

-- `CreateTeam`.
unfoldable pub create_team :
    Option String
    → TfeId
    → Time
    → String
    → TeamOptions
    → MemberTables
    → Result MemberError MemberTables
create_team user id now org opts t = insert_new user (new_team id now org opts) t

abbrev pub write_team : TfeId → Team → MemberTables → Result MemberError MemberTables
write_team id team t =
    if any (is_taken id team) t.teams
    then err duplicate_team
    else ok (record t { teams = insert TfeId-discrete id team t.teams })

abbrev pub update_found :
    TfeId → TeamOptions → MemberTables → Option Team → Result MemberError MemberTables
update_found id opts t none = err team_not_found
update_found id opts t (some team) = write_team id (Team.update opts team) t

-- `UpdateTeam`.
unfoldable pub update_team : TfeId → TeamOptions → MemberTables → Result MemberError MemberTables
update_team id opts t = update_found id opts t (lookup TfeId-discrete id t.teams)

abbrev pub delete_found : TfeId → MemberTables → Option Team → Result MemberError MemberTables
delete_found id t none = err team_not_found
delete_found id t (some team) =
    if is_owners team
    then err removing_owners_team_not_permitted
    else ok (record t {
      teams = delete TfeId-discrete id t.teams;
      memberships = keep (λ m. not (test (TfeId-discrete m.0 id))) t.memberships;
    })

-- `DeleteTeam`; the memberships are deleted with the team.
unfoldable pub delete_team : TfeId → MemberTables → Result MemberError MemberTables
delete_team id t = delete_found id t (lookup TfeId-discrete id t.teams)

-- `Delete` of a user, whose memberships are deleted too.
unfoldable pub delete_user : String → MemberTables → Result MemberError MemberTables
delete_user name t =
    if is_user t name
    then ok (record t {
      users = keep (λ u. not (same_name u name)) t.users;
      memberships = keep (λ m. not (same_name m.1 name)) t.memberships;
    })
    else err no_rows
