-- ===== src/User/Members/Owners/Sequence.antt =====
-- internal/team/service.go: creation, update and deletion of teams, and sequences of calls.
use otf.Prelude.{
  ◌≡◌, ◌≢◌, inl, inr, refl, sym, ap, ◌∙◌, subst, true, not, String, String-discrete, Option, some,
  List, [], ◌∷◌, Result, ok, err, any, In-keep, Bool-cases, Option-cases, Result-cases, arith, test,
  test_no, affirm, lookup, insert, lookup-insert_cases, lookup-delete, lookup-delete_cases,
}
use otf.Resource.{TfeId, TfeId-discrete}
use otf.Time.{Time}
use otf.Team
use otf.Team.{Team, TeamOptions, TeamError, new_team, is_owners}
use otf.User.Members.{
  MemberTables, MemberError, add_team_membership, remove_team_membership, insert_team,
  after_create_team, create_team, update_team, delete_team, is_taken,
}
use otf.User.Members.Owners.{
  IsStaffed, HasOwners, add_team_membership-Extends, add_team_membership-IsStaffed,
}
use otf.User.Members.Owners.Operations.{
  ok_tables, remove-HasOwners, add-HasOwners, insert_team_ends, written-HasOwners,
}

hook-HasOwners :
    (user : Option String) (team : Team) (t u : MemberTables)
    → after_create_team user team (record t { teams = insert TfeId-discrete team.id team t.teams })
      ≡ ok u
    → HasOwners t
    → HasOwners u
unfolding after_create_team
hook-HasOwners user team t u h inv = elim (Bool-cases (is_owners team)) [
  | inr e ↦
      subst HasOwners (ok_tables (rw e at h))
        (written-HasOwners team.id team t (λ own. absurd (ground (arith, e, own))) inv)
  | inl e ↦ elim (Option-cases user) [
    | inl n ↦ absurd (ground (arith, rw (e, n) at h))
    | inr (name, n) ↦
        let v = record t { teams = insert TfeId-discrete team.id team t.teams } in
        let done : add_team_membership team.id (name ∷ []) v ≡ ok u = rw (e, n) at h in
        let (more, d) = add_team_membership-Extends team.id (name ∷ []) v u done inv.0 in
        let own = add_team_membership-IsStaffed team.id name v u done in
        (
          d,
          λ id tm at owners. elim (lookup-insert_cases TfeId-discrete team.id id team t.teams) [
            | inl (same, there) ↦ subst (IsStaffed u) (sym same) own
            | inr (other, there) ↦
                let (user, a, b) =
                  inv.1 id tm (sym there ∙ sym (ap (lookup TfeId-discrete id) more.0) ∙ at)
                    owners in
                (user, more.1 user a, more.2 (id, user) b)
          ],
        )
  ]
]

create-HasOwners :
    (user : Option String) (id : TfeId) (now : Time) (org : String) (opts : TeamOptions)
    (t u : MemberTables)
    → create_team user id now org opts t ≡ ok u
    → HasOwners t
    → HasOwners u
unfolding create_team
create-HasOwners user id now org opts t u h inv = elim (Result-cases (new_team id now org opts)) [
  | inr (x, e) ↦ absurd (ground (arith, rw e at h))
  | inl (team, e) ↦ elim (Result-cases (insert_team team t)) [
    | inr (x, k) ↦ absurd (ground (arith, rw (e, k) at h))
    | inl (v, k) ↦
        hook-HasOwners user team t u
          (subst (λ z. after_create_team user team z ≡ ok u) (insert_team_ends team t v k)
            (rw (e, k) at h))
          inv
  ]
]

update-HasOwners :
    (id : TfeId) (opts : TeamOptions) (t u : MemberTables)
    → opts.name ≢ some "owners"
    → update_team id opts t ≡ ok u
    → HasOwners t
    → HasOwners u
unfolding update_team Team.update
update-HasOwners id opts t u renames h inv =
    elim (Option-cases (lookup TfeId-discrete id t.teams)) [
      | inl n ↦ absurd (ground (arith, rw n at h))
      | inr (team, found) ↦ elim (Bool-cases (any (is_taken id (Team.update opts team)) t.teams)) [
        | inl k ↦ absurd (ground (arith, rw (found, k) at h))
        | inr k ↦ subst HasOwners (ok_tables (rw (found, k) at h)) (
            written-HasOwners id (Team.update opts team) t
              (λ own. inv.1 id team found (still_owners opts team renames own)) inv)
      ]
    ]
  where
    still_owners :
        (opts : TeamOptions) (team : Team)
        → opts.name ≢ some "owners"
        → is_owners (Team.update opts team) ≡ true
        → is_owners team ≡ true
    still_owners opts team renames own = elim (Option-cases opts.name) [
      | inl n ↦ rw n at own
      | inr (name, n) ↦
          absurd (renames (n ∙ ap some (affirm (String-discrete name "owners") (rw n at own))))
    ]

delete-HasOwners :
    (id : TfeId) (t u : MemberTables) → delete_team id t ≡ ok u → HasOwners t → HasOwners u
unfolding delete_team
delete-HasOwners id t u h (d, staffed) = elim (Option-cases (lookup TfeId-discrete id t.teams)) [
  | inl n ↦ absurd (ground (arith, rw n at h))
  | inr (team, found) ↦ elim (Bool-cases (is_owners team)) [
    | inl k ↦ absurd (ground (arith, rw (found, k) at h))
    | inr k ↦ subst HasOwners (ok_tables (rw (found, k) at h)) (
      d,
      λ other tm at own. elim (TfeId-discrete other id) [
        | yes same ↦
            absurd (ground (arith, lookup-delete TfeId-discrete id other t.teams, same, at))
        | no differs ↦
            let (user, a, b) =
              staffed other tm
                (sym (lookup-delete_cases TfeId-discrete id other t.teams differs) ∙ at) own in
            (
              user,
              a,
              In-keep (λ m. not (test (TfeId-discrete m.0 id))) (other, user) t.memberships
                  (ap not (test_no (TfeId-discrete other id) differs)) b,
            )
      ],
    )
  ]
]

-- The calls of the services of teams and users on memberships. A creation comes with the user of
-- the context.
pub data Event : Type 0 where
  creates : Option String → TfeId → Time → String → TeamOptions → Event
  updates : TfeId → TeamOptions → Event
  deletes : TfeId → Event
  adds removes : TfeId → List String → Event

abbrev pub call : Event → MemberTables → Result MemberError MemberTables
call (creates user id now org opts) t = create_team user id now org opts t
call (updates id opts) t = update_team id opts t
call (deletes id) t = delete_team id t
call (adds team names) t = add_team_membership team names t
call (removes team names) t = remove_team_membership team names t

abbrev pub or_as_before : MemberTables → Result MemberError MemberTables → MemberTables
or_as_before t (ok u) = u
or_as_before t (err e) = t

abbrev pub call_all : List Event → MemberTables → MemberTables
call_all [] t = t
call_all (e ∷ rest) t = call_all rest (or_as_before t (call e t))

-- No team gets the name of the owners team by an update.
abbrev pub RenamesNone : List Event → Type 0
RenamesNone [] = Unit
RenamesNone (updates id opts ∷ rest) = (opts.name ≢ some "owners") × RenamesNone rest
RenamesNone (creates user id now org opts ∷ rest) = RenamesNone rest
RenamesNone (deletes id ∷ rest) = RenamesNone rest
RenamesNone (adds team names ∷ rest) = RenamesNone rest
RenamesNone (removes team names ∷ rest) = RenamesNone rest

next-HasOwners :
    (t : MemberTables) (r : Result MemberError MemberTables)
    → ((u : MemberTables) → r ≡ ok u → HasOwners u)
    → HasOwners t
    → HasOwners (or_as_before t r)
next-HasOwners t (ok u) step inv = step u refl
next-HasOwners t (err e) step inv = inv

-- Whatever teams are created, updated and deleted and whatever members are added and removed, calls
-- that fail included: if no user stands twice and each owners team has a member before, then it is
-- so afterwards, as long as no update sets the name of a team to that of the owners team, be it on
-- the owners team itself. The deletion of users is not among the calls.
pub call_all-HasOwners :
    (calls : List Event) (t : MemberTables)
    → RenamesNone calls
    → HasOwners t
    → HasOwners (call_all calls t)
call_all-HasOwners [] t r inv = inv
call_all-HasOwners (creates user id now org opts ∷ rest) t r inv = call_all-HasOwners rest _ r (
    next-HasOwners t (create_team user id now org opts t)
      (λ u h. create-HasOwners user id now org opts t u h inv) inv)
call_all-HasOwners (updates id opts ∷ rest) t r inv =
    call_all-HasOwners rest _ r.1
      (next-HasOwners t (update_team id opts t) (λ u h. update-HasOwners id opts t u r.0 h inv) inv)
call_all-HasOwners (deletes id ∷ rest) t r inv =
    call_all-HasOwners rest _ r
      (next-HasOwners t (delete_team id t) (λ u h. delete-HasOwners id t u h inv) inv)
call_all-HasOwners (adds team names ∷ rest) t r inv = call_all-HasOwners rest _ r (
    next-HasOwners t (add_team_membership team names t) (λ u h. add-HasOwners team names t u h inv)
      inv)
call_all-HasOwners (removes team names ∷ rest) t r inv = call_all-HasOwners rest _ r (
    next-HasOwners t (remove_team_membership team names t)
      (λ u h. remove-HasOwners team names t u h inv) inv)
