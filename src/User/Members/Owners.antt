-- ===== src/User/Members/Owners.antt =====
-- internal/user/service.go and internal/team/service.go: the members of owners teams, and what the
-- creation of users and of memberships does to them.
pub mod Choice
pub mod Operations
pub mod Sequence
use otf.Prelude.{
  ◌≡◌, ◌≢◌, ◌⊎◌, inl, inr, refl, sym, ap, ◌∙◌, subst, Bool, true, false, not, ◌&&◌, String,
  String-discrete, Option, none, some, List, [], ◌∷◌, ◌++◌, map, Result, ok, err, ◌>>=◌, keep, any,
  In, In-keep, In-append_left, In-append_right, any-In, In-of_any, any-append, Bool-cases,
  Option-cases, Result-cases, arith, test, test_yes, test_no, test_sym, affirm, refute, lookup,
  insert, delete, is_some, length, leb,
}
use otf.Resource.{TfeId, TfeId-discrete}
use otf.Team.{Team, is_owners}
use otf.User.Members.{
  MemberTables, MemberError, same_name, is_member, is_user, list_team_users, create_user,
  create_missing, add_rows, add_team_membership,
}

-- No name stands twice.
abbrev pub AreDistinct : List String → Type 0
AreDistinct [] = Unit
AreDistinct (x ∷ xs) = (any (same_name x) xs ≡ false) × AreDistinct xs

-- A team with a user among its members.
abbrev pub IsStaffed : MemberTables → TfeId → Type 0
IsStaffed t id = (user : String) × In user t.users × In (id, user) t.memberships

-- Users are distinct, and every owners team has a member.
abbrev pub HasOwners : MemberTables → Type 0
HasOwners t =
    AreDistinct t.users
    × ((id : TfeId) (team : Team)
        → lookup TfeId-discrete id t.teams ≡ some team
        → is_owners team ≡ true
        → IsStaffed t id)

AreDistinct-append :
    (name : String) (xs : List String)
    → any (same_name name) xs ≡ false
    → AreDistinct xs
    → AreDistinct (xs ++ name ∷ [])
AreDistinct-append name [] h d = (refl, tt)
AreDistinct-append name (x ∷ xs) h d = elim (Bool-cases (same_name name x)) [
  | inl e ↦ absurd (ground (arith, rw e at h))
  | inr e ↦
      let other : same_name x name ≡ false = test_sym String-discrete x name ∙ e in
      (
        any-append (same_name x) xs (name ∷ []) d.0 (rw other refl),
        AreDistinct-append name xs (rw e at h) d.1,
      )
]

-- Users are added, and memberships are not lost.
abbrev pub Extends : MemberTables → MemberTables → Type 0
Extends t u =
    (u.teams ≡ t.teams)
    × ((x : String) → In x t.users → In x u.users)
    × ((m : TfeId × String) → In m t.memberships → In m u.memberships)

pub Extends-HasOwners :
    (t u : MemberTables) → Extends t u → AreDistinct u.users → HasOwners t → HasOwners u
Extends-HasOwners t u (same, users, rows) d h = (
  d,
  λ id team found own.
      let (user, a, b) = h.1 id team (ap (lookup TfeId-discrete id) (sym same) ∙ found) own in
      (user, users user a, rows (id, user) b),
)

Extends-trans : (t u v : MemberTables) → Extends t u → Extends u v → Extends t v
Extends-trans t u v (a, b, c) (a', b', c') = (a' ∙ a, (λ x m. b' x (b x m)), (λ x m. c' x (c x m)))

ok_tables : {a b : MemberTables} → Path (Result MemberError MemberTables) (ok a) (ok b) → a ≡ b
ok_tables h = ground (arith, h)

create_user-Extends :
    (name : String) (t u : MemberTables)
    → create_user name t ≡ ok u
    → AreDistinct t.users
    → Extends t u × AreDistinct u.users
unfolding create_user
create_user-Extends name t u h d = elim (Bool-cases (same_name name "")) [
  | inl e ↦ absurd (ground (arith, rw e at h))
  | inr e ↦ elim (Bool-cases (is_user t name)) [
    | inl k ↦ absurd (ground (arith, rw (e, k) at h))
    | inr k ↦
        let same = ok_tables (rw (e, k) at h) in
        subst (λ z. Extends t z × AreDistinct z.users) same
          (
            (refl, (λ x m. In-append_left x t.users (name ∷ []) m), (λ m p. p)),
            AreDistinct-append name t.users k d,
          )
  ]
]

create_missing-Extends :
    (names : List String) (t u : MemberTables)
    → create_missing names t ≡ ok u
    → AreDistinct t.users
    → Extends t u × AreDistinct u.users
unfolding create_missing
create_missing-Extends [] t u h d =
    subst (λ z. Extends t z × AreDistinct z.users) (ok_tables h) ((refl, (λ x m. m), (λ x m. m)), d)
create_missing-Extends (name ∷ names) t u h d = elim (Bool-cases (is_user t name)) [
  | inl k ↦ create_missing-Extends names t u (rw k at h) d
  | inr k ↦ elim (Result-cases (create_user name t)) [
    | inr (x, e) ↦ absurd (ground (arith, rw (k, e) at h))
    | inl (v, e) ↦
        let (one, dv) = create_user-Extends name t v e d in
        let (more, du) = create_missing-Extends names v u (rw (k, e) at h) dv in
        (Extends-trans t v u one more, du)
  ]
]

add_rows_ends :
    (team : TfeId) (names : List String) (t u : MemberTables)
    → add_rows team names t ≡ ok u
    → (any (λ n. not (is_user t n)) names ≡ false)
      × (u ≡ record t { memberships = t.memberships ++ map (λ n. (team, n)) names })
unfolding add_rows
add_rows_ends team names t u h = elim (Bool-cases (leb (length names) 0)) [
  | inl e ↦ absurd (ground (arith, rw e at h))
  | inr e ↦ elim (Bool-cases (any (λ n. not (is_user t n)) names)) [
    | inl k ↦ absurd (ground (arith, rw (e, k) at h))
    | inr k ↦ (k, sym (ok_tables (rw (e, k) at h)))
  ]
]

add_rows-Extends :
    (team : TfeId) (names : List String) (t u : MemberTables)
    → add_rows team names t ≡ ok u
    → AreDistinct t.users
    → Extends t u × AreDistinct u.users
add_rows-Extends team names t u h d =
    let (known, e) = add_rows_ends team names t u h in
    subst (λ z. Extends t z × AreDistinct z.users) (sym e)
      (
        (refl, (λ x m. m), (λ m p. In-append_left m t.memberships (map (λ n. (team, n)) names) p)),
        d,
      )

-- The tables between the users that are made and the memberships.
pub add_team_membership_steps :
    (team : TfeId) (names : List String) (t u : MemberTables)
    → add_team_membership team names t ≡ ok u
    → (v : MemberTables) × (create_missing names t ≡ ok v) × (add_rows team names v ≡ ok u)
unfolding add_team_membership
add_team_membership_steps team names t u h =
    elim (Bool-cases (is_some (lookup TfeId-discrete team t.teams))) [
      | inr e ↦ absurd (ground (arith, rw e at h))
      | inl e ↦ elim (Result-cases (create_missing names t)) [
        | inr (x, k) ↦ absurd (ground (arith, rw (e, k) at h))
        | inl (v, k) ↦ (v, k, rw (e, k) at h)
      ]
    ]

pub add_team_membership-Extends :
    (team : TfeId) (names : List String) (t u : MemberTables)
    → add_team_membership team names t ≡ ok u
    → AreDistinct t.users
    → Extends t u × AreDistinct u.users
add_team_membership-Extends team names t u h d =
    let (v, made, added) = add_team_membership_steps team names t u h in
    let (one, dv) = create_missing-Extends names t v made d in
    let (more, du) = add_rows-Extends team names v u added dv in (Extends-trans t v u one more, du)

pub add_team_membership-IsStaffed :
    (team : TfeId) (user : String) (t u : MemberTables)
    → add_team_membership team (user ∷ []) t ≡ ok u
    → IsStaffed u team
add_team_membership-IsStaffed team user t u h =
    let (v, made, added) = add_team_membership_steps team (user ∷ []) t u h in
    let (known, e) = add_rows_ends team (user ∷ []) v u added in
    let is_there : is_user v user ≡ true = ground (arith, known) in
    let (x, m, same) = In-of_any (same_name user) v.users is_there in
    let self = affirm (String-discrete user x) same in
    subst (λ z. IsStaffed z team) (sym e)
      (
        user,
        subst (λ z. In z v.users) (sym self) m,
        In-append_right (team, user) v.memberships ((team, user) ∷ []) (inl refl),
      )
