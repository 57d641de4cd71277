-- ===== src/Variable/Store/Scopes.antt =====
-- internal/variable/conflict_checker.go: the check compares a variable with all of its scope.
use otf.Prelude.{
  ◌≡◌, refl, sym, ap, ◌∙◌, subst, Bool, true, false, String, String-discrete, Option, none, some,
  List, [], ◌∷◌, ok, if◌then◌else◌, keep, any, lookup, In, In-keep, Bool-cases, Result-cases, inl,
  inr, arith, test_yes, test_sym, ◌>>=◌,
}
use otf.Resource.{TfeId, TfeId-discrete}
use otf.Variable.{Variable}
use otf.Variable.Store.{
  Tables, SetRow, VariableCategory-discrete, is_set_id, of_parent, set_of, is_global_in,
  list_variables, list_global_variables, get_variable_set, clashes, check_conflicts,
  scoped_variables, check_variable, check_all, set_from, set_scope,
}

-- Where the key and the category of a variable must be unique: among the variables of its parent,
-- and among those of all global sets of an organization.
pub data Scope : Type 0 where
  own_scope : TfeId → Scope
  global_scope : String → Scope

abbrev pub scope_from : TfeId → Option SetRow → Scope
scope_from p none = own_scope p
scope_from p (some r) = if r.global then global_scope r.organization else own_scope p

abbrev pub scope_of : List (TfeId × SetRow) → TfeId → Scope
scope_of sets p = scope_from p (set_of sets p)

pub own_of_scope : (p q : TfeId) (o : Option SetRow) → scope_from q o ≡ own_scope p → q ≡ p
own_of_scope p q none h = ground (arith, h)
own_of_scope p q (some r) h = ground (arith, h)

pub global_of_scope :
    (org : String) (q : TfeId) (o : Option SetRow)
    → scope_from q o ≡ global_scope org
    → is_global_in org o ≡ true
global_of_scope org q none h = absurd (ground (arith, h))
global_of_scope org q (some r) h = elim (Bool-cases r.global) [
  | inl e ↦
      let same : r.organization ≡ org = ground (arith, rw e at h) in
      rw e (test_yes (String-discrete r.organization org) same)
  | inr e ↦ absurd (ground (arith, rw e at h))
]

pub clashes_sym : (v w : Variable) → clashes v w ≡ clashes w v
clashes_sym v w =
    rw
      (
        test_sym TfeId-discrete v.id w.id,
        test_sym String-discrete v.key w.key,
        test_sym VariableCategory-discrete v.category w.category,
      )
      refl

pub clashes_same : (v w : Variable) → v.id ≡ w.id → clashes v w ≡ false
clashes_same v w e = rw (test_yes (TfeId-discrete v.id w.id) e) refl

any-In :
    {A : Type 0} (p : A → Bool) (x : A) (xs : List A) → any p xs ≡ false → In x xs → p x ≡ false
any-In p x [] h m = absurd m
any-In p x (y ∷ ys) h (inl e) = subst (λ z. p z ≡ false) (sym e) (ground (arith, h))
any-In p x (y ∷ ys) h (inr m) = any-In p x ys (ground (arith, h)) m

pub check-clashes :
    (v w : Variable) (l : List Variable)
    → check_conflicts v l ≡ ok tt
    → In w l
    → clashes v w ≡ false
unfolding check_conflicts
check-clashes v w l h m = any-In (clashes v) w l (ground (arith, h)) m

pub check_all-clashes :
    (v w : Variable) (vs l : List Variable)
    → check_all vs l ≡ ok tt
    → In v vs
    → In w l
    → clashes v w ≡ false
check_all-clashes v w [] l h m n = absurd m
check_all-clashes v w (u ∷ us) l h m n = elim (Result-cases (check_conflicts u l)) [
  | inl (x, e) ↦ elim m [
    | inl here ↦ rw here (check-clashes u w l e n)
    | inr later ↦ check_all-clashes v w us l (rw e at h) later n
  ]
  | inr (x, e) ↦ absurd (ground (arith, rw e at h))
]

listed :
    (t : Tables) (p : TfeId) (l : List Variable) (w : Variable)
    → list_variables t p ≡ ok l
    → In w t.variables
    → w.parent_id ≡ p
    → In w l
unfolding list_variables
listed t p l w h m e =
    let all : keep (of_parent p) t.variables ≡ l = ground (arith, h) in
    subst (In w) all
      (In-keep (of_parent p) w t.variables (test_yes (TfeId-discrete w.parent_id p) e) m)

pub listed_global :
    (t : Tables) (org : String) (w : Variable)
    → In w t.variables
    → scope_of t.sets w.parent_id ≡ global_scope org
    → In w (list_global_variables t org)
unfolding list_global_variables
listed_global t org w m e =
    In-keep (λ v. is_global_in org (set_of t.sets v.parent_id)) w t.variables
      (global_of_scope org w.parent_id (set_of t.sets w.parent_id) e) m

scoped_set :
    (t : Tables) (v w : Variable) (o : Option SetRow) (l : List Variable)
    → (set_from t v.parent_id o >>= set_scope t v) ≡ ok l
    → In w t.variables
    → scope_of t.sets w.parent_id ≡ scope_from v.parent_id o
    → In w l
scoped_set t v w none l h m e = absurd (ground (arith, h))
scoped_set t v w (some r) l h m e = elim (Bool-cases r.global) [
  | inl g ↦
      let all : list_global_variables t r.organization ≡ l = ground (arith, rw g at h) in
      subst (In w) all (listed_global t r.organization w m (rw g at e))
  | inr g ↦
      listed t v.parent_id l w (rw g at h) m (own_of_scope v.parent_id w.parent_id _ (rw g at e))
]

pub set_of_set :
    (sets : List (TfeId × SetRow)) (p : TfeId)
    → is_set_id p ≡ true
    → set_of sets p ≡ lookup TfeId-discrete p sets
unfolding set_of
set_of_set sets p h = rw h refl

pub set_of_other :
    (sets : List (TfeId × SetRow)) (p : TfeId) → is_set_id p ≡ false → set_of sets p ≡ none
unfolding set_of
set_of_other sets p h = rw h refl

-- The check looks at all variables of the scope.
scoped_In :
    (t : Tables) (v w : Variable) (l : List Variable)
    → scoped_variables t v ≡ ok l
    → In w t.variables
    → scope_of t.sets w.parent_id ≡ scope_of t.sets v.parent_id
    → In w l
unfolding scoped_variables get_variable_set
scoped_In t v w l h m e = elim (Bool-cases (is_set_id v.parent_id)) [
  | inl s ↦
      scoped_set t v w (lookup TfeId-discrete v.parent_id t.sets) l (rw s at h) m
        (e ∙ ap (scope_from v.parent_id) (set_of_set t.sets v.parent_id s))
  | inr s ↦ listed t v.parent_id l w (rw s at h) m (
      own_of_scope v.parent_id w.parent_id (set_of t.sets w.parent_id)
        (e ∙ ap (scope_from v.parent_id) (set_of_other t.sets v.parent_id s)))
]

-- A variable that passes the check clashes with none in its scope.
pub check_variable-clashes :
    (t : Tables) (v w : Variable) (u : Unit)
    → check_variable t v ≡ ok u
    → In w t.variables
    → scope_of t.sets w.parent_id ≡ scope_of t.sets v.parent_id
    → clashes v w ≡ false
unfolding check_variable
check_variable-clashes t v w u h m e = elim (Result-cases (scoped_variables t v)) [
  | inl (l, s) ↦ check-clashes v w l (rw s at h) (scoped_In t v w l s m e)
  | inr (x, s) ↦ absurd (ground (arith, rw s at h))
]
