-- ===== src/StateVersion/Current.antt =====
-- internal/state/version.go and db.go: the current version of a workspace through every operation.
use otf.Prelude.{
  ℕ, ◌≡◌, refl, sym, ap, ◌∙◌, subst, ◌⊎◌, inl, inr, true, false, Option, none, some, List, [], ◌++◌,
  Result, ok, arith, Bool-cases, Option-cases, lookup, insert, delete, lookup-map_values,
  lookup-insert_cases, lookup-delete_cases, lookup-any, map_option, test_no, test_yes, map_values,
  is_some, any, test,
}
use otf.Resource.{TfeId, TfeId-discrete}
use otf.StateVersion.{
  VersionStatus, Version, Output, StateTables, StateError, create_version,
  upload_state_and_finalize, discard_row, discard_any_pending, update_current_version,
  delete_version, upload, names, VersionStatus-discrete,
}

-- A row of the workspace that is finalized and has its state.
abbrev pub IsFinal : TfeId → Option Version → Type 0
IsFinal w none = ⊥
IsFinal w (some v) =
    (v.workspace_id ≡ w) × (v.status ≡ VersionStatus.finalized) × (is_some v.state ≡ true)

-- The current version of each workspace that has one is a version of that workspace, finalized.
abbrev pub HasCurrent : StateTables → Type 0
HasCurrent t =
    (w id : TfeId)
    → lookup TfeId-discrete w t.workspaces ≡ some (some id)
    → IsFinal w (lookup TfeId-discrete id t.versions)

pub ok_injective : {A : Type 0} {a b : A} → Path (Result StateError A) (ok a) (ok b) → a ≡ b
ok_injective h = ground (arith, h)

pub create_version_ends :
    (v : Version) (t u : StateTables)
    → create_version v t ≡ ok u
    → (lookup TfeId-discrete v.id t.versions ≡ none)
      × (u ≡ record t {
        versions = insert TfeId-discrete v.id (record v { outputs = [] }) t.versions;
      })
unfolding create_version
create_version_ends v t u h = elim (Option-cases (lookup TfeId-discrete v.id t.versions)) [
  | inr (x, e) ↦ absurd (ground (arith, rw e at h))
  | inl n ↦ elim (Option-cases (lookup TfeId-discrete v.workspace_id t.workspaces)) [
    | inl m ↦ absurd (ground (arith, rw (n, m) at h))
    | inr (x, m) ↦ (n, sym (ok_injective (rw (n, m) at h)))
  ]
]

-- The tables after an upload to a version that is there.
abbrev pub uploaded : Version → Version → List ℕ → List Output → StateTables → StateTables
uploaded sv row state outs t = record {
  versions = map_values (discard_row sv.workspace_id) (
      insert TfeId-discrete sv.id
        (record row { state = some state; status = VersionStatus.finalized }) t.versions);
  outputs = t.outputs ++ outs;
  workspaces = insert TfeId-discrete sv.workspace_id (some sv.id) t.workspaces;
}

pub upload_ends :
    (sv : Version) (state : List ℕ) (outs : List Output) (t u : StateTables)
    → upload sv state outs t ≡ ok u
    → (row : Version) × (lookup TfeId-discrete sv.id t.versions ≡ some row)
      × (u ≡ uploaded sv row state outs t)
unfolding upload_state_and_finalize discard_any_pending update_current_version
upload_ends sv state outs t u h = elim (Option-cases (lookup TfeId-discrete sv.id t.versions)) [
  | inl n ↦ absurd (ground (arith, rw n at h))
  | inr (row, e) ↦ elim (Option-cases (lookup TfeId-discrete sv.workspace_id t.workspaces)) [
    | inl m ↦ absurd (ground (arith, rw (e, m) at h))
    | inr (x, m) ↦ (row, e, sym (ok_injective (rw (e, m) at h)))
  ]
]

delete_version_ends :
    (id : TfeId) (t u : StateTables)
    → delete_version id t ≡ ok u
    → (any (λ p. names id p.1) t.workspaces ≡ false)
      × (u.versions ≡ delete TfeId-discrete id t.versions)
      × (u.workspaces ≡ t.workspaces)
unfolding delete_version
delete_version_ends id t u h = elim (Bool-cases (any (λ p. names id p.1) t.workspaces)) [
  | inl y ↦ absurd (ground (arith, rw y at h))
  | inr n ↦ elim (Option-cases (lookup TfeId-discrete id t.versions)) [
    | inl m ↦ absurd (ground (arith, rw (n, m) at h))
    | inr (x, m) ↦
        let e = ok_injective (rw (n, m) at h) in
        (n, sym (ap (λ z. z.versions) e), sym (ap (λ z. z.workspaces) e))
  ]
]

pub discard_kept :
    (v : Version) (ws : TfeId)
    → test (VersionStatus-discrete v.status VersionStatus.pending) ≡ false
    → discard_row ws v ≡ v
discard_kept v ws h = elim (Bool-cases (test (TfeId-discrete v.workspace_id ws))) [
  | inl y ↦ rw (y, h) refl
  | inr n ↦ rw n refl
]

discard_row-IsFinal :
    (w ws : TfeId) (o : Option Version) → IsFinal w o → IsFinal w (map_option (discard_row ws) o)
discard_row-IsFinal w ws none h = h
discard_row-IsFinal w ws (some v) h =
    let kept : test (VersionStatus-discrete v.status VersionStatus.pending) ≡ false =
      test_no (VersionStatus-discrete v.status VersionStatus.pending)
        (λ p. ground (arith, h.1, p)) in
    let same : discard_row ws v ≡ v = discard_kept v ws kept in
    subst (λ x. IsFinal w (some x)) (sym same) h

pub create_version-HasCurrent :
    (v : Version) (t u : StateTables) → create_version v t ≡ ok u → HasCurrent t → HasCurrent u
create_version-HasCurrent v t u h inv w id cur =
    let (absent, e) = create_version_ends v t u h in
    let at = inv w id (rw (ap (λ z. z.workspaces) e) at cur) in
    let rows = ap (λ z. lookup TfeId-discrete id z.versions) e in
    elim (lookup-insert_cases TfeId-discrete v.id id (record v { outputs = [] }) t.versions) [
      | inl (same, there) ↦ absurd (rw (same, absent) at at)
      | inr (other, there) ↦ subst (IsFinal w) (sym (rows ∙ there)) at
    ]

some_injective :
    {a b : TfeId} → Path (Option (Option TfeId)) (some (some a)) (some (some b)) → a ≡ b
some_injective h = ground (arith, h)

-- The row that is finalized, and every other.
finalize-IsFinal :
    (w id sv_id ws : TfeId) (row : Version) (state : List ℕ) (versions : List (TfeId × Version))
    → lookup TfeId-discrete sv_id versions ≡ some row
    → row.workspace_id ≡ ws
    → IsFinal w (lookup TfeId-discrete id versions) ⊎ ((id ≡ sv_id) × (w ≡ ws))
    → IsFinal w (
        lookup TfeId-discrete id (
          insert TfeId-discrete sv_id
            (record row { state = some state; status = VersionStatus.finalized })
            versions))
finalize-IsFinal w id sv_id ws row state versions found own from =
    let final = record row { state = some state; status = VersionStatus.finalized } in
    elim (lookup-insert_cases TfeId-discrete sv_id id final versions) [
      | inl (same, there) ↦
          let owned : row.workspace_id ≡ w = elim from [
            | inl f ↦
                (subst (IsFinal w) (ap (λ q. lookup TfeId-discrete q versions) same ∙ found) f).0
            | inr (e, q) ↦ own ∙ sym q
          ] in
          subst (IsFinal w) (sym there) (owned, refl, refl)
      | inr (other, there) ↦ elim from [
        | inl f ↦ subst (IsFinal w) (sym there) f
        | inr (e, q) ↦ absurd (other e)
      ]
    ]

pub upload-HasCurrent :
    (sv : Version) (state : List ℕ) (outs : List Output) (t u : StateTables)
    → upload sv state outs t ≡ ok u
    → ((row : Version)
        → lookup TfeId-discrete sv.id t.versions ≡ some row
        → row.workspace_id ≡ sv.workspace_id)
    → HasCurrent t
    → HasCurrent u
upload-HasCurrent sv state outs t u h own inv w id cur =
    let (row, found, e) = upload_ends sv state outs t u h in
    let final = record row { state = some state; status = VersionStatus.finalized } in
    let rows =
      ap (λ z. lookup TfeId-discrete id z.versions) e
      ∙ lookup-map_values TfeId-discrete (discard_row sv.workspace_id) id
          (insert TfeId-discrete sv.id final t.versions) in
    let column = sym (ap (λ z. lookup TfeId-discrete w z.workspaces) e) ∙ cur in
    let from_column : IsFinal w (lookup TfeId-discrete id t.versions)
        ⊎ ((id ≡ sv.id) × (w ≡ sv.workspace_id)) =
      elim (lookup-insert_cases TfeId-discrete sv.workspace_id w (some sv.id) t.workspaces) [
        | inl (same, there) ↦ inr (some_injective (sym column ∙ there), same)
        | inr (other, there) ↦ inl (inv w id (sym there ∙ column))
      ] in
    subst (IsFinal w) (sym rows) (
      discard_row-IsFinal w sv.workspace_id _ (
        finalize-IsFinal w id sv.id sv.workspace_id row state t.versions found (own row found)
          from_column))

pub delete_version-HasCurrent :
    (id : TfeId) (t u : StateTables) → delete_version id t ≡ ok u → HasCurrent t → HasCurrent u
delete_version-HasCurrent id t u h inv w cur_id cur =
    let (unnamed, rows, column) = delete_version_ends id t u h in
    let old = ap (lookup TfeId-discrete w) (sym column) ∙ cur in
    let unequal = lookup-any TfeId-discrete (names id) w (some cur_id) t.workspaces unnamed old in
    let other : ¬ (cur_id ≡ id) =
      λ same. ground (arith, test_yes (TfeId-discrete cur_id id) same, unequal) in
    let kept =
      ap (lookup TfeId-discrete cur_id) rows
      ∙ lookup-delete_cases TfeId-discrete id cur_id t.versions other in
    subst (IsFinal w) (sym kept) (inv w cur_id old)
