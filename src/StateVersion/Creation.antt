-- ===== src/StateVersion/Creation.antt =====
-- internal/state/version.go: what a creation with a state and a rollback make the current version.
use otf.Prelude.{
  ℕ, ◌≡◌, refl, sym, ap, ◌∙◌, subst, ◌⊎◌, inl, inr, Bool, true, false, ◌&&◌, Option, some, List, [],
  ◌∷◌, ok, arith, Bool-cases, Option-cases, Result-cases, lookup, insert, lookup-insert_cases,
  lookup-map_values, map_option, map_values, test, test_no, ℤ, any, ltb_ℤ, eq_of_parts,
  String-discrete,
}
use otf.Resource.{TfeId, TfeId-discrete}
use otf.StateVersion.{
  VersionStatus, Version, Output, StateTables, Factory, CreateStateVersionOptions, discard_row,
  with_outputs, get_version, created_version, bytes_of_state, new_without_validation, new_version,
  rollback, upload_if, VersionStatus-discrete, check_serial, known, get_current_version,
}
use otf.StateVersion.Current.{discard_kept, upload_ends, uploaded}
use otf.StateVersion.Operations.{
  upload_state_and_outputs_ends, new_without_validation_ends, created_row,
}

abbrev pub is_pending_of : TfeId → Version → Bool
is_pending_of ws v =
    test (TfeId-discrete v.workspace_id ws)
    && test (VersionStatus-discrete v.status VersionStatus.pending)

discarded_not_pending : (ws : TfeId) (v : Version) → is_pending_of ws (discard_row ws v) ≡ false
discarded_not_pending ws v = elim (Bool-cases (is_pending_of ws v)) [
  | inl p ↦ rw p (elim (Bool-cases (test (TfeId-discrete v.workspace_id ws))) [
    | inl w ↦ rw w (
        test_no (VersionStatus-discrete VersionStatus.discarded VersionStatus.pending)
          (λ q. ground (arith, q)))
    | inr w ↦ rw w refl
  ])
  | inr p ↦ rw p p
]

none_pending :
    (ws : TfeId) (versions : List (TfeId × Version))
    → any (λ p. is_pending_of ws p.1) (map_values (discard_row ws) versions) ≡ false
unfolding map_values
none_pending ws [] = refl
none_pending ws ((id, v) ∷ rest) = rw (discarded_not_pending ws v) (none_pending ws rest)

current_found :
    (ws id : TfeId) (row : Version) (u : StateTables)
    → lookup TfeId-discrete ws u.workspaces ≡ some (some id)
    → lookup TfeId-discrete id u.versions ≡ some row
    → get_current_version ws u ≡ ok (with_outputs u (record row { id = id }))
unfolding get_current_version get_version
current_found ws id row u w r = rw (w, r) refl

-- The current version of a workspace has a serial and a state and is finalized, and no version
-- of the workspace is pending.
abbrev pub IsCurrent : TfeId → TfeId → ℤ → List ℕ → StateTables → Type 0
IsCurrent ws id serial state u =
    (cur : Version) × (get_current_version ws u ≡ ok cur)
    × (cur.id ≡ id)
    × (cur.serial ≡ serial)
    × (cur.state ≡ some state)
    × (cur.status ≡ VersionStatus.finalized)
    × (any (λ p. is_pending_of ws p.1) u.versions ≡ false)

lookup-insert_self :
    {V : Type 0} (k : TfeId) (v : V) (m : List (TfeId × V))
    → lookup TfeId-discrete k (insert TfeId-discrete k v m) ≡ some v
lookup-insert_self k v m = elim (lookup-insert_cases TfeId-discrete k k v m) [
  | inl (same, there) ↦ there
  | inr (other, there) ↦ absurd (other refl)
]

uploaded-IsCurrent :
    (sv row : Version) (state : List ℕ) (outs : List Output) (t : StateTables)
    → row.serial ≡ sv.serial
    → IsCurrent sv.workspace_id sv.id sv.serial state (uploaded sv row state outs t)
uploaded-IsCurrent sv row state outs t same =
    let final : Version = record row { state = some state; status = VersionStatus.finalized } in
    let u = uploaded sv row state outs t in
    let kept : discard_row sv.workspace_id final ≡ final = discard_kept final sv.workspace_id (
      test_no (VersionStatus-discrete VersionStatus.finalized VersionStatus.pending)
        (λ q. ground (arith, q))) in
    let at =
      lookup-map_values TfeId-discrete (discard_row sv.workspace_id) sv.id
        (insert TfeId-discrete sv.id final t.versions)
      ∙ ap (map_option (discard_row sv.workspace_id)) (lookup-insert_self sv.id final t.versions)
      ∙ ap some kept in
    (
      with_outputs u (record final { id = sv.id }),
      current_found sv.workspace_id sv.id final u
          (lookup-insert_self sv.workspace_id (some sv.id) t.workspaces) at,
      refl,
      same,
      refl,
      refl,
      none_pending sv.workspace_id (insert TfeId-discrete sv.id final t.versions),
    )

some_version : {a b : Version} → Path (Option Version) (some a) (some b) → a ≡ b
some_version h = ground (arith, h)

new_without_validation-IsCurrent :
    (f : Factory) (opts : CreateStateVersionOptions) (serial : ℤ) (state : List ℕ)
    (t u : StateTables) (v : Version)
    → new_without_validation f opts serial t ≡ ok (u, v)
    → opts.state ≡ some state
    → IsCurrent opts.workspace_id f.fresh serial state u
new_without_validation-IsCurrent f opts serial state t u v h s =
    let (a, e, r) = new_without_validation_ends f opts serial t u v h in
    let new = created_version f opts serial in
    let (outs, done, p, same) =
      upload_state_and_outputs_ends f new state a u v
        (subst (λ z. upload_if f new z a ≡ ok (u, v)) s r) in
    let (row, found, last) = upload_ends new state outs a u done in
    let own = some_version (sym found ∙ created_row new t a e) in
    subst (IsCurrent opts.workspace_id f.fresh serial state) (sym last)
      (uploaded-IsCurrent new row state outs a (ap (λ z. z.serial) own))

-- How a serial and a state follow those that are known.
abbrev pub Follows : Factory → ℤ → List ℕ → ℤ × Option (List ℕ) → Type 0
Follows f serial state (known_serial, known_state) =
    (ltb_ℤ known_serial serial ≡ true)
    ⊎ ((known_serial ≡ serial) × (f.md5 (bytes_of_state known_state) ≡ f.md5 state))

check_serial-Follows :
    (f : Factory) (serial : ℤ) (state : List ℕ) (current : ℤ × Option (List ℕ))
    → check_serial f serial (some state) current ≡ ok tt
    → Follows f serial state current
unfolding check_serial
check_serial-Follows f serial state (c, s) h = elim (Bool-cases (ltb_ℤ serial c)) [
  | inl lt ↦ absurd (ground (arith, rw lt at h))
  | inr ge ↦ elim (Bool-cases (ltb_ℤ c serial)) [
    | inl gt ↦ inl gt
    | inr le ↦ elim (String-discrete (f.md5 (bytes_of_state s)) (f.md5 state)) [
      | yes m ↦ inr (eq_of_parts c serial (ground (arith, ge, le)), m)
      | no n ↦ absurd (
          ground (
            arith,
            rw (ge, le, test_no (String-discrete (f.md5 (bytes_of_state s)) (f.md5 state)) n) at h,
          ))
    ]
  ]
]

-- If a version is created with a state, then it becomes the current version of its workspace, with
-- the serial and the state that are given, finalized, and no version of the workspace is
-- pending; and the serial is above that of the version which was current, -1 where
-- there was none, or is the same for a state with the same hash.
pub new_version-IsCurrent :
    (f : Factory) (opts : CreateStateVersionOptions) (state : List ℕ) (t u : StateTables)
    (v : Version)
    → new_version f opts t ≡ ok (u, v)
    → opts.state ≡ some state
    → (serial : ℤ) × (opts.serial ≡ some serial)
      × IsCurrent opts.workspace_id f.fresh serial state u
      × Follows f serial state (known (get_current_version opts.workspace_id t))
unfolding new_version new_without_validation
new_version-IsCurrent f opts state t u v h s = elim (Option-cases opts.serial) [
  | inl n ↦ absurd (ground (arith, rw n at h))
  | inr (serial, e) ↦
      elim (Result-cases
        (check_serial f serial opts.state (known (get_current_version opts.workspace_id t)))) [
          | inr (x, c) ↦ absurd (ground (arith, rw (e, c) at h))
          | inl (x, c) ↦ (
            serial,
            e,
            new_without_validation-IsCurrent f opts serial state t u v (rw (e, c) at h) s,
            check_serial-Follows f serial state _ (rw s at c),
          )
        ]
]

-- If a workspace is rolled back to a version that has a state, then its current version has the
-- serial and the state of that version, whatever was current before, is finalized, and no version
-- of the workspace is pending.
pub rollback-IsCurrent :
    (f : Factory) (id : TfeId) (row : Version) (state : List ℕ) (t u : StateTables) (v : Version)
    → lookup TfeId-discrete id t.versions ≡ some row
    → row.state ≡ some state
    → rollback f id t ≡ ok (u, v)
    → IsCurrent row.workspace_id f.fresh row.serial state u
unfolding rollback get_version
rollback-IsCurrent f id row state t u v found s h =
    new_without_validation-IsCurrent f _ row.serial state t u v (rw found at h) s
