-- ===== src/StateVersion/Operations.antt =====
-- internal/state/version.go and service.go: the operations, one after the other.
use otf.Prelude.{
  ℕ, ◌≡◌, refl, sym, ap, ◌∙◌, subst, inl, inr, Option, none, some, List, [], ◌∷◌, Result, ok, err,
  arith, Option-cases, Result-cases, lookup, lookup-insert_cases, test_no, test_yes, ◌>>=◌, map, ℤ,
}
use otf.Resource.{TfeId, TfeId-discrete}
use otf.StateVersion.{
  VersionStatus, Version, Output, StateTables, StateError, Factory, CreateStateVersionOptions,
  create_version, delete_version, get_version, upload, upload_state_and_outputs, read_outputs,
  created_version, new_without_validation, new_version, rollback, upload_state, upload_if,
  VersionStatus-discrete, check_serial, known, get_current_version,
}
use otf.StateVersion.Current.{
  HasCurrent, create_version_ends, ok_injective, create_version-HasCurrent, upload-HasCurrent,
  delete_version-HasCurrent,
}

pub upload_state_and_outputs_ends :
    (f : Factory) (sv : Version) (state : List ℕ) (t u : StateTables) (v : Version)
    → upload_state_and_outputs f sv state t ≡ ok (u, v)
    → (outs : List Output) × (upload sv state outs t ≡ ok u)
      × (sv.status ≡ VersionStatus.pending)
      × (v ≡ record sv { status = VersionStatus.finalized; outputs = map (λ o. (o.name, o)) outs })
unfolding upload_state_and_outputs
upload_state_and_outputs_ends f sv state t u v h =
    elim (Result-cases (read_outputs f sv.id (f.read_file state))) [
      | inr (x, e) ↦ absurd (ground (arith, rw e at h))
      | inl (outs, e) ↦ elim (VersionStatus-discrete sv.status VersionStatus.pending) [
        | no n ↦ absurd (
            ground (
              arith,
              rw (e, test_no (VersionStatus-discrete sv.status VersionStatus.pending) n) at h,
            ))
        | yes p ↦
            let y = test_yes (VersionStatus-discrete sv.status VersionStatus.pending) p in
            elim (Result-cases (upload sv state outs t)) [
              | inr (x, r) ↦ absurd (ground (arith, rw (e, y, r) at h))
              | inl (a, r) ↦
                  let same = ok_injective (rw (e, y, r) at h) in
                  (outs, r ∙ ap ok (ap (λ z. z.0) same), p, sym (ap (λ z. z.1) same))
            ]
      ]
    ]

pub new_without_validation_ends :
    (f : Factory) (opts : CreateStateVersionOptions) (serial : ℤ) (t u : StateTables) (v : Version)
    → new_without_validation f opts serial t ≡ ok (u, v)
    → (a : StateTables) × (create_version (created_version f opts serial) t ≡ ok a)
      × (upload_if f (created_version f opts serial) opts.state a ≡ ok (u, v))
unfolding new_without_validation
new_without_validation_ends f opts serial t u v h =
    elim (Result-cases (create_version (created_version f opts serial) t)) [
      | inr (x, e) ↦ absurd (ground (arith, rw e at h))
      | inl (a, e) ↦ (a, e, rw e at h)
    ]

-- The row of a version that has been created.
pub created_row :
    (v : Version) (t a : StateTables)
    → create_version v t ≡ ok a
    → lookup TfeId-discrete v.id a.versions ≡ some (record v { outputs = [] })
created_row v t a h =
    let (absent, e) = create_version_ends v t a h in
    ap (λ z. lookup TfeId-discrete v.id z.versions) e
    ∙ elim (lookup-insert_cases TfeId-discrete v.id v.id (record v { outputs = [] }) t.versions) [
      | inl (same, there) ↦ there
      | inr (other, there) ↦ absurd (other refl)
    ]

some_version : {a b : Version} → Path (Option Version) (some a) (some b) → a ≡ b
some_version h = ground (arith, h)

upload_if-HasCurrent :
    (f : Factory) (sv : Version) (state : Option (List ℕ)) (t u : StateTables) (v : Version)
    → upload_if f sv state t ≡ ok (u, v)
    → ((row : Version)
        → lookup TfeId-discrete sv.id t.versions ≡ some row
        → row.workspace_id ≡ sv.workspace_id)
    → HasCurrent t
    → HasCurrent u
upload_if-HasCurrent f sv none t u v h own inv =
    subst HasCurrent (ap (λ z. z.0) (ok_injective h)) inv
upload_if-HasCurrent f sv (some state) t u v h own inv =
    let (outs, e, p, same) = upload_state_and_outputs_ends f sv state t u v h in
    upload-HasCurrent sv state outs t u e own inv

new_without_validation-HasCurrent :
    (f : Factory) (opts : CreateStateVersionOptions) (serial : ℤ) (t u : StateTables) (v : Version)
    → new_without_validation f opts serial t ≡ ok (u, v)
    → HasCurrent t
    → HasCurrent u
new_without_validation-HasCurrent f opts serial t u v h inv =
    let (a, e, r) = new_without_validation_ends f opts serial t u v h in
    let new = created_version f opts serial in
    upload_if-HasCurrent f new opts.state a u v r
      (λ row found. ap (λ x. x.workspace_id) (some_version (sym found ∙ created_row new t a e)))
      (create_version-HasCurrent new t a e inv)

-- The calls of the service that write.
pub data Event : Type 0 where
  creates : CreateStateVersionOptions → Event
  uploads : TfeId → List ℕ → Event
  deletes rolls_back : TfeId → Event

abbrev pub tables_of : Result StateError (StateTables × Version) → Result StateError StateTables
tables_of r = r >>= λ p. ok p.0

abbrev pub call : Factory → Event → StateTables → Result StateError StateTables
call f (creates opts) t = tables_of (new_version f opts t)
call f (uploads id state) t = tables_of (upload_state f id state t)
call f (deletes id) t = delete_version id t
call f (rolls_back id) t = tables_of (rollback f id t)

-- A transaction that fails leaves the tables as they are.
abbrev pub or_as_before : StateTables → Result StateError StateTables → StateTables
or_as_before t (ok u) = u
or_as_before t (err e) = t

abbrev pub call_all : List (Factory × Event) → StateTables → StateTables
call_all [] t = t
call_all ((f, e) ∷ rest) t = call_all rest (or_as_before t (call f e t))

tables_of_ends :
    (r : Result StateError (StateTables × Version)) (u : StateTables)
    → tables_of r ≡ ok u
    → (v : Version) × (r ≡ ok (u, v))
tables_of_ends (ok (a, v)) u h = (v, ap (λ z. ok (z, v)) (ok_injective h))
tables_of_ends (err e) u h = absurd (ground (arith, h))

new_version-HasCurrent :
    (f : Factory) (opts : CreateStateVersionOptions) (t u : StateTables) (v : Version)
    → new_version f opts t ≡ ok (u, v)
    → HasCurrent t
    → HasCurrent u
unfolding new_version new_without_validation
new_version-HasCurrent f opts t u v h inv = elim (Option-cases opts.serial) [
  | inl n ↦ absurd (ground (arith, rw n at h))
  | inr (serial, s) ↦
      elim (Result-cases
        (check_serial f serial opts.state (known (get_current_version opts.workspace_id t)))) [
          | inr (x, e) ↦ absurd (ground (arith, rw (s, e) at h))
          | inl (x, e) ↦ new_without_validation-HasCurrent f opts serial t u v (rw (s, e) at h) inv
        ]
]

pub version_found :
    (id : TfeId) (t : StateTables) (sv : Version)
    → get_version id t ≡ ok sv
    → (row : Version) × (lookup TfeId-discrete id t.versions ≡ some row)
      × (sv.id ≡ id)
      × (sv.workspace_id ≡ row.workspace_id)
      × (sv.state ≡ row.state)
      × (sv.serial ≡ row.serial)
unfolding get_version
version_found id t sv h = elim (Option-cases (lookup TfeId-discrete id t.versions)) [
  | inl n ↦ absurd (ground (arith, rw n at h))
  | inr (row, found) ↦
      let same = sym (ok_injective (rw found at h)) in
      (
        row,
        found,
        ap (λ z. z.id) same,
        ap (λ z. z.workspace_id) same,
        ap (λ z. z.state) same,
        ap (λ z. z.serial) same,
      )
]

upload_state-HasCurrent :
    (f : Factory) (id : TfeId) (state : List ℕ) (t u : StateTables) (v : Version)
    → upload_state f id state t ≡ ok (u, v)
    → HasCurrent t
    → HasCurrent u
unfolding upload_state
upload_state-HasCurrent f id state t u v h inv = elim (Result-cases (get_version id t)) [
  | inr (x, e) ↦ absurd (ground (arith, rw e at h))
  | inl (sv, e) ↦
      let (row, found, key, ws, st, sr) = version_found id t sv e in
      upload_if-HasCurrent f sv (some state) t u v (rw e at h)
        (λ other o.
          ap (λ x. x.workspace_id)
            (some_version (sym o ∙ ap (λ q. lookup TfeId-discrete q t.versions) key ∙ found))
          ∙ sym ws)
        inv
]

rollback-HasCurrent :
    (f : Factory) (id : TfeId) (t u : StateTables) (v : Version)
    → rollback f id t ≡ ok (u, v)
    → HasCurrent t
    → HasCurrent u
unfolding rollback
rollback-HasCurrent f id t u v h inv = elim (Result-cases (get_version id t)) [
  | inr (x, e) ↦ absurd (ground (arith, rw e at h))
  | inl (sv, e) ↦ new_without_validation-HasCurrent f _ sv.serial t u v (rw e at h) inv
]

call-HasCurrent :
    (f : Factory) (e : Event) (t u : StateTables) → call f e t ≡ ok u → HasCurrent t → HasCurrent u
call-HasCurrent f (creates opts) t u h inv =
    let (v, r) = tables_of_ends (new_version f opts t) u h in
    new_version-HasCurrent f opts t u v r inv
call-HasCurrent f (uploads id state) t u h inv =
    let (v, r) = tables_of_ends (upload_state f id state t) u h in
    upload_state-HasCurrent f id state t u v r inv
call-HasCurrent f (deletes id) t u h inv = delete_version-HasCurrent id t u h inv
call-HasCurrent f (rolls_back id) t u h inv =
    let (v, r) = tables_of_ends (rollback f id t) u h in rollback-HasCurrent f id t u v r inv

next-HasCurrent :
    (f : Factory) (e : Event) (t : StateTables)
    → HasCurrent t
    → HasCurrent (or_as_before t (call f e t))
next-HasCurrent f e t inv = elim (Result-cases (call f e t)) [
  | inr (x, r) ↦ subst (λ z. HasCurrent (or_as_before t z)) (sym r) inv
  | inl (u, r) ↦ subst (λ z. HasCurrent (or_as_before t z)) (sym r) (call-HasCurrent f e t u r inv)
]

-- Any sequence of creations, uploads, deletions and rollbacks, failed ones included, keeps that the
-- current version of a workspace is there, belongs to the workspace, is finalized, and has a state.
pub call_all-HasCurrent :
    (calls : List (Factory × Event)) (t : StateTables)
    → HasCurrent t
    → HasCurrent (call_all calls t)
call_all-HasCurrent [] t inv = inv
call_all-HasCurrent ((f, e) ∷ rest) t inv =
    call_all-HasCurrent rest (or_as_before t (call f e t)) (next-HasCurrent f e t inv)
