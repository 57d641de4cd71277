-- ===== src/User/Members/Owners/Operations.antt =====
-- internal/user/service.go and internal/team/service.go: the operations on teams and memberships.
use otf.Prelude.{
  ◌≡◌, ◌<◌, inl, inr, refl, sym, ap, ◌∙◌, subst, true, false, not, ◌&&◌, String, String-discrete,
  Option, some, List, Result, ok, keep, any, In, In-keep, In-of_keep, In-of_any, Bool-cases,
  Option-cases, arith, test, test_yes, test_no, affirm, lookup, insert, lookup-insert_cases,
  is_some, length, leb,
}
use otf.Resource.{TfeId, TfeId-discrete}
use otf.Team.{Team, is_owners}
use otf.User.Members.{
  MemberTables, MemberError, same_name, is_member, list_team_users, add_team_membership, is_removed,
  remove_rows, remove_team_membership, insert_team, is_taken,
}
use otf.User.Members.Owners.{
  AreDistinct, IsStaffed, HasOwners, Extends-HasOwners, add_team_membership-Extends,
}
use otf.User.Members.Owners.Choice.{choose_other, keep-AreDistinct}

pub ok_tables : {a b : MemberTables} → Path (Result MemberError MemberTables) (ok a) (ok b) → a ≡ b
ok_tables h = ground (arith, h)

remove_rows_ends :
    (team : TfeId) (names : List String) (t u : MemberTables)
    → remove_rows team names t ≡ ok u
    → u ≡ record t { memberships = keep (λ m. not (is_removed team names m)) t.memberships }
unfolding remove_rows
remove_rows_ends team names t u h = elim (Bool-cases (any (is_removed team names) t.memberships)) [
  | inl e ↦ sym (ok_tables (rw e at h))
  | inr e ↦ absurd (ground (arith, rw e at h))
]

-- A member who is not among those removed.
remaining :
    (t : MemberTables) (team id : TfeId) (names : List String) (user : String)
    → In user t.users
    → In (id, user) t.memberships
    → is_removed team names (id, user) ≡ false
    → IsStaffed
        (record t { memberships = keep (λ m. not (is_removed team names m)) t.memberships })
        id
remaining t team id names user a b r =
    (user, a, In-keep (λ m. not (is_removed team names m)) (id, user) t.memberships (ap not r) b)

-- Of the members of a team, more than are listed, one remains.
member_left :
    (t : MemberTables) (team : TfeId) (names : List String)
    → AreDistinct t.users
    → length names < length (list_team_users t team)
    → (x : String) × In x t.users × In (team, x) t.memberships × (any (same_name x) names ≡ false)
unfolding list_team_users
member_left t team names d few =
    let (x, m, absent) =
      choose_other names (keep (is_member t team) t.users)
        (keep-AreDistinct (is_member t team) t.users d) few in
    let (there, member) = In-of_keep (is_member t team) x t.users m in
    let ((id, user), row, both) =
      In-of_any (λ z. test (TfeId-discrete z.0 team) && same_name z.1 x) t.memberships member in
    let same_team : test (TfeId-discrete id team) ≡ true = ground (arith, both) in
    let same_user : same_name user x ≡ true = ground (arith, both) in
    let e = affirm (TfeId-discrete id team) same_team in
    let k = affirm (String-discrete user x) same_user in
    (
      x,
      there,
      subst (λ q. In q t.memberships) (ap (λ i. (i, user)) e ∙ ap (λ n. (team, n)) k) row,
      absent,
    )

pub some_team : {a b : Team} → Path (Option Team) (some a) (some b) → a ≡ b
some_team h = ground (arith, h)

removed-HasOwners :
    (team : TfeId) (names : List String) (found : Team) (t : MemberTables)
    → lookup TfeId-discrete team t.teams ≡ some found
    → (is_owners found && leb (length (list_team_users t team)) (length names)) ≡ false
    → HasOwners t
    → HasOwners (record t { memberships = keep (λ m. not (is_removed team names m)) t.memberships })
removed-HasOwners team names found t l few (d, staffed) = (
  d,
  λ id tm at own. elim (TfeId-discrete id team) [
    | no other ↦
        let (user, a, b) = staffed id tm at own in
        let stays : is_removed team names (id, user) ≡ false =
          rw (test_no (TfeId-discrete id team) other) refl in
        remaining t team id names user a b stays
    | yes same ↦
        let one = some_team (sym l ∙ sym (ap (λ z. lookup TfeId-discrete z t.teams) same) ∙ at) in
        let owners : is_owners found ≡ true = ap is_owners one ∙ own in
        let more : length names < length (list_team_users t team) = ground (arith, few, owners) in
        let (x, a, b, absent) = member_left t team names d more in
        let stays : is_removed team names (team, x) ≡ false =
          rw (test_yes (TfeId-discrete team team) refl, absent) refl in
        subst
          (IsStaffed
            (record t { memberships = keep (λ m. not (is_removed team names m)) t.memberships }))
          (sym same) (remaining t team team names x a b stays)
  ],
)

pub remove-HasOwners :
    (team : TfeId) (names : List String) (t u : MemberTables)
    → remove_team_membership team names t ≡ ok u
    → HasOwners t
    → HasOwners u
unfolding remove_team_membership
remove-HasOwners team names t u h inv = elim (Option-cases (lookup TfeId-discrete team t.teams)) [
  | inl n ↦ absurd (ground (arith, rw n at h))
  | inr (found, l) ↦
      elim (Bool-cases (is_owners found && leb (length (list_team_users t team)) (length names))) [
        | inl e ↦ absurd (ground (arith, rw (l, e) at h))
        | inr e ↦
            subst HasOwners (sym (remove_rows_ends team names t u (rw (l, e) at h)))
              (removed-HasOwners team names found t l e inv)
      ]
]

pub add-HasOwners :
    (team : TfeId) (names : List String) (t u : MemberTables)
    → add_team_membership team names t ≡ ok u
    → HasOwners t
    → HasOwners u
add-HasOwners team names t u h inv =
    let (more, d) = add_team_membership-Extends team names t u h inv.0 in
    Extends-HasOwners t u more d inv

pub insert_team_ends :
    (team : Team) (t u : MemberTables)
    → insert_team team t ≡ ok u
    → u ≡ record t { teams = insert TfeId-discrete team.id team t.teams }
unfolding insert_team
insert_team_ends team t u h = elim (Bool-cases (is_some (lookup TfeId-discrete team.id t.teams))) [
  | inl e ↦ absurd (ground (arith, rw e at h))
  | inr e ↦ elim (Bool-cases (any (is_taken team.id team) t.teams)) [
    | inl k ↦ absurd (ground (arith, rw (e, k) at h))
    | inr k ↦ sym (ok_tables (rw (e, k) at h))
  ]
]

-- A team that is written, where it is no owners team or has a member.
pub written-HasOwners :
    (id : TfeId) (team : Team) (t : MemberTables)
    → (is_owners team ≡ true → IsStaffed t id)
    → HasOwners t
    → HasOwners (record t { teams = insert TfeId-discrete id team t.teams })
written-HasOwners id team t ready (d, staffed) = (
  d,
  λ other tm at own. elim (lookup-insert_cases TfeId-discrete id other team t.teams) [
    | inl (same, there) ↦
        subst (IsStaffed t) (sym same) (ready (ap is_owners (some_team (sym there ∙ at)) ∙ own))
    | inr (n, there) ↦ staffed other tm (sym there ∙ at) own
  ],
)
