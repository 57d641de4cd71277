-- ===== src/Variable/Store/Conflicts.antt =====
-- internal/variable: no two variables of a scope share a key and a category.
use otf.Prelude.{
  ◌≡◌, refl, sym, ap, ◌∙◌, subst, Bool, true, false, not, String, List, [], ◌∷◌, map, Result, ok,
  err, ◌>>=◌, keep, any, In, In-keep, In-of_keep, In-append, Bool-cases, inl, inr, ◌⊎◌, arith,
  affirm, test_yes,
}
use otf.Resource.{TfeId, TfeId-discrete}
use otf.Variable.{
  Variable, VariableOptions, update, Edited, change_key, change_hcl, set_key, set_value,
  set_description, set_category, set_sensitive, VariableCategory, terraform_category, env_category,
  other_category,
}
use otf.Variable.Steps.{Ensures, update-Ensures}
use otf.Variable.Store.{
  Tables, StoreError, same_id, clashes, check_variable, has_parent, insert_variable,
  create_variable, get_variable, write_variable, update_variable, delete_variable, overwrite, found,
  invalid_if,
}
use otf.Variable.Store.Scopes.{scope_of, clashes_sym, clashes_same, check_variable-clashes}

-- Variables of one scope do not clash, and the parents of variables are there.
abbrev pub NoConflict : Tables → Type 0
NoConflict t =
    (v w : Variable)
    → In v t.variables
    → In w t.variables
    → scope_of t.sets v.parent_id ≡ scope_of t.sets w.parent_id
    → clashes v w ≡ false

abbrev pub HasParents : Tables → Type 0
HasParents t = (v : Variable) → In v t.variables → has_parent t.sets v.parent_id ≡ true

abbrev pub IsConsistent : Tables → Type 0
IsConsistent t = NoConflict t × HasParents t

-- After a call: the tables that it leaves, if it succeeds.
abbrev pub Leaves : (Tables → Type 0) → Result StoreError Tables → Type 0
Leaves P (ok t) = P t
Leaves P (err e) = Unit

pub Leaves-bind :
    {A : Type 0} (P : Tables → Type 0) (r : Result StoreError A) (f : A → Result StoreError Tables)
    → ((a : A) → r ≡ ok a → Leaves P (f a))
    → Leaves P (r >>= f)
Leaves-bind P (ok a) f h = h a refl
Leaves-bind P (err e) f h = tt

-- Rows that are old or the same new variable, which clashes with none in its scope.
extended :
    (t : Tables) (vs : List Variable) (v : Variable)
    → ((x : Variable) → In x vs → In x t.variables ⊎ (x ≡ v))
    → ((w : Variable)
        → In w t.variables
        → scope_of t.sets w.parent_id ≡ scope_of t.sets v.parent_id
        → clashes v w ≡ false)
    → has_parent t.sets v.parent_id ≡ true
    → IsConsistent t
    → IsConsistent (record t { variables = vs })
extended t vs v cases fresh parent (clear, parents) = (
  λ a b m n e. elim (cases a m) [
    | inl old ↦ elim (cases b n) [
      | inl older ↦ clear a b old older e
      | inr new ↦
          rw new (clashes_sym a v ∙ fresh a old (e ∙ ap (λ z. scope_of t.sets z.parent_id) new))
    ]
    | inr new ↦ elim (cases b n) [
      | inl older ↦ rw new (fresh b older (sym e ∙ ap (λ z. scope_of t.sets z.parent_id) new))
      | inr newer ↦ clashes_same a b (ap (λ z. z.id) (new ∙ sym newer))
    ]
  ],
  λ a m. elim (cases a m) [ inl old ↦ parents a old | inr new ↦ rw new parent ],
)

insert-IsConsistent :
    (t : Tables) (v : Variable)
    → ((w : Variable)
        → In w t.variables
        → scope_of t.sets w.parent_id ≡ scope_of t.sets v.parent_id
        → clashes v w ≡ false)
    → IsConsistent t
    → Leaves IsConsistent (insert_variable v t)
unfolding insert_variable
insert-IsConsistent t v fresh h = elim (Bool-cases (has_parent t.sets v.parent_id)) [
  | inr n ↦ rw n tt
  | inl p ↦ elim (Bool-cases (any (λ w. same_id w.id v.id) t.variables)) [
    | inl taken ↦ rw (p, taken) tt
    | inr free ↦ rw (p, free) (extended t _ v (λ x m. In-append x v t.variables m) fresh p h)
  ]
]

pub create-IsConsistent :
    (id : TfeId) (version : String) (parent : TfeId) (opts : VariableOptions) (t : Tables)
    → IsConsistent t
    → Leaves IsConsistent (create_variable id version parent opts t)
unfolding create_variable
create-IsConsistent id version parent opts t h = Leaves-bind IsConsistent _ _ λ v made.
    Leaves-bind IsConsistent _ _
      λ u checked. insert-IsConsistent t v (λ w m e. check_variable-clashes t v w u checked m e) h

pub keep-IsConsistent :
    (p : Variable → Bool) (t : Tables)
    → IsConsistent t
    → IsConsistent (record t { variables = keep p t.variables })
keep-IsConsistent p t (clear, parents) = (
  λ a b m n e. clear a b (In-of_keep p a t.variables m).0 (In-of_keep p b t.variables n).0 e,
  λ a m. parents a (In-of_keep p a t.variables m).0,
)

pub delete-IsConsistent :
    (id : TfeId) (t : Tables) → IsConsistent t → Leaves IsConsistent (delete_variable id t)
unfolding delete_variable
delete-IsConsistent id t h =
    Leaves-bind IsConsistent (get_variable t id) _
      λ v got. keep-IsConsistent (λ w. not (same_id w.id id)) t h

-- An update keeps the identifier and the parent.
abbrev IsSame : Variable → Variable → Type 0
IsSame v w = (w.id ≡ v.id) × (w.parent_id ≡ v.parent_id)

category-IsSame :
    (v : Variable) (a : VariableCategory) (w : Variable)
    → IsSame v w
    → Ensures (IsSame v) (set_category a w)
unfolding set_category
category-IsSame v terraform_category w p = p
category-IsSame v env_category w p = p
category-IsSame v (other_category c) w p = tt

hcl-IsSame :
    (v : Variable) (a : Bool) (w : Variable) → IsSame v w → Ensures (IsSame v) (change_hcl a w)
unfolding change_hcl
hcl-IsSame v true w p = ground (arith, p)
hcl-IsSame v false w p = ground (arith, p)

IsSame-update :
    (v : Variable) (version : String) (opts : VariableOptions)
    → Ensures (IsSame v) (update version opts v)
unfolding change_key change_hcl set_key set_value set_description set_category set_sensitive
IsSame-update v version opts =
    update-Ensures (IsSame v) (λ a w p. ground (arith, p)) (λ a w p. ground (arith, p))
      (λ a w p. ground (arith, p)) (category-IsSame v) (hcl-IsSame v) (λ a w p. ground (arith, p))
      (λ a w p. p) version opts v (refl, refl)

found-In :
    (vs : List Variable) (before : Variable)
    → found vs ≡ ok before
    → (w : Variable) → In w vs
    → w ≡ before
found-In [] before h w m = absurd m
found-In (v ∷ []) before h w (inl e) = let same : v ≡ before = ground (arith, h) in e ∙ same
found-In (v ∷ []) before h w (inr m) = absurd m
found-In (v ∷ u ∷ vs) before h w m = absurd (ground (arith, h))

In-map :
    (f : Variable → Variable) (x : Variable) (vs : List Variable)
    → In x (map f vs)
    → (v : Variable) × In v vs × (x ≡ f v)
In-map f x [] m = absurd m
In-map f x (v ∷ vs) (inl e) = (v, inl refl, e)
In-map f x (v ∷ vs) (inr m) = let rest = In-map f x vs m in (rest.0, inr rest.1, rest.2)

found_first : (vs : List Variable) (before : Variable) → found vs ≡ ok before → In before vs
found_first [] before h = absurd (ground (arith, h))
found_first (v ∷ []) before h = let same : v ≡ before = ground (arith, h) in inl (sym same)
found_first (v ∷ u ∷ vs) before h = absurd (ground (arith, h))

found-id :
    (id : TfeId) (vs : List Variable) (before : Variable)
    → found (keep (λ v. same_id v.id id) vs) ≡ ok before
    → before.id ≡ id
found-id id vs before h =
    affirm (TfeId-discrete before.id id)
      (In-of_keep (λ v. same_id v.id id) before vs (found_first _ before h)).1

overwritten :
    (v after : Variable)
    → v.id ≡ after.id
    → v.parent_id ≡ after.parent_id
    → overwrite after v ≡ after
overwritten v after e p = rw (test_yes (TfeId-discrete v.id after.id) e) (cc (e, p))

-- A row after the statement: one that was there, or the new variable.
written :
    (id : TfeId) (t : Tables) (before after x : Variable)
    → IsSame before after
    → get_variable t id ≡ ok before
    → In x (map (overwrite after) t.variables)
    → In x t.variables ⊎ (x ≡ after)
unfolding get_variable
written id t before after x same got m =
    let (v, n, e) = In-map (overwrite after) x t.variables m in
    elim (Bool-cases (same_id v.id after.id)) [
      | inl s ↦
          let here : v.id ≡ after.id = affirm (TfeId-discrete v.id after.id) s in
          let old = found-id id t.variables before got in
          let here_id : v.id ≡ id = here ∙ same.0 ∙ old in
          let row =
            In-keep (λ w. same_id w.id id) v t.variables (test_yes (TfeId-discrete v.id id) here_id)
              n in
          let only = found-In (keep (λ w. same_id w.id id) t.variables) before got v row in
          inr (e ∙ overwritten v after here (ap (λ w. w.parent_id) only ∙ sym same.1))
      | inr s ↦ inl (subst (λ w. In w t.variables) (sym (e ∙ rw s refl)) n)
    ]

of_invalid_if :
    (before after : Variable) (r : Edited)
    → Ensures (IsSame before) r
    → invalid_if r ≡ ok after
    → IsSame before after
of_invalid_if before after (ok v) p h =
    let same : v ≡ after = ground (arith, h) in subst (IsSame before) same p
of_invalid_if before after (err e) p h = absurd (ground (arith, h))

replaced :
    (id : TfeId) (t : Tables) (before after : Variable) (u : Unit)
    → IsSame before after
    → get_variable t id ≡ ok before
    → check_variable t after ≡ ok u
    → IsConsistent t
    → IsConsistent (write_variable after t)
unfolding write_variable get_variable
replaced id t before after u same got checked h =
    let held : In before t.variables =
      (In-of_keep (λ v. same_id v.id id) before t.variables (found_first _ before got)).0 in
    extended t (map (overwrite after) t.variables) after
      (λ x m. written id t before after x same got m)
      (λ w m e. check_variable-clashes t after w u checked m e) (rw same.1 (h.1 before held)) h

pub update-IsConsistent :
    (id : TfeId) (version : String) (opts : VariableOptions) (t : Tables)
    → IsConsistent t
    → Leaves IsConsistent (update_variable id version opts t)
unfolding update_variable write_variable
update-IsConsistent id version opts t h =
    Leaves-bind IsConsistent (get_variable t id) _ λ before got.
      Leaves-bind IsConsistent (invalid_if (update version opts before)) _ λ after made.
        Leaves-bind IsConsistent (check_variable t after) _ λ u checked.
          replaced id t before after u
            (of_invalid_if before after _ (IsSame-update before version opts) made) got checked h
