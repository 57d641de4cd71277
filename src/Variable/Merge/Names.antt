-- ===== src/Variable/Merge/Names.antt =====
-- internal/variable/variable.go: the sets of the workspace in the order of their names.
use otf.Prelude.{
  ◌≡◌, refl, sym, ap, ◌∙◌, subst, ◌⊎◌, inl, inr, true, false, String, Option, none, some, List, [],
  ◌∷◌, keep, In, Bool-cases, Option-cases, arith,
}
use otf.Prelude.TextOrder.{IsBefore, IsBefore-asym, IsBefore-trans, compare-IsBefore}
use otf.Variable.{Variable, VariableCategory, VariableSet}
use otf.Variable.Merge.{text_lt, insert_by_name, sort_by_name, is_scoped}
use otf.Variable.Merge.Precedence.{or_else, find_last, in_first_set}

-- Whether a set of the workspace has a variable of the key and the category.
abbrev pub Has : VariableCategory → String → VariableSet → Variable → Type 0
Has cat key s v = (s.global ≡ false) × (find_last cat key s.variables ≡ some v)

-- The last variable of the set of the workspace that has one and whose name is before those of the
-- others, if any set has one.
abbrev pub IsFirst : VariableCategory → String → List VariableSet → Option Variable → Type 0
IsFirst cat key sets none = (s : VariableSet) (v : Variable) → In s sets → ¬ (Has cat key s v)
IsFirst cat key sets (some v) =
    (s : VariableSet) × In s sets
    × Has cat key s v
    × ((t : VariableSet) (w : Variable) → In t sets → Has cat key t w → ¬ (IsBefore t.name s.name))

text_lt-IsBefore :
    (a b : String)
    → ((text_lt a b ≡ true) × IsBefore a b) ⊎ ((text_lt a b ≡ false) × ¬ (IsBefore a b))
text_lt-IsBefore a b = elim (compare-IsBefore a b) [
  | inl (e, p) ↦ inl (rw (text_lt, e) refl, p)
  | inr (n, p) ↦ inr (ground (arith, n), p)
]

-- No set is before the first in the order of the names.
abbrev IsLeast : VariableSet → List VariableSet → Type 0
IsLeast s l = (t : VariableSet) → In t l → ¬ (IsBefore t.name s.name)

abbrev IsSorted : List VariableSet → Type 0
IsSorted [] = Unit
IsSorted (s ∷ ss) = IsLeast s ss × IsSorted ss

In-of_insert :
    (s t : VariableSet) (l : List VariableSet) → In t (insert_by_name s l) → (t ≡ s) ⊎ In t l
unfolding insert_by_name
In-of_insert s t [] (inl e) = inl e
In-of_insert s t [] (inr m) = absurd m
In-of_insert s t (x ∷ l) m = elim (Bool-cases (text_lt s.name x.name)) [
  | inl h ↦ elim (rw h at m) [ inl e ↦ inl e | inr later ↦ inr later ]
  | inr h ↦ elim (rw h at m) [
    | inl e ↦ inr (inl e)
    | inr later ↦ elim (In-of_insert s t l later) [ inl e ↦ inl e | inr at ↦ inr (inr at) ]
  ]
]

In-insert :
    (s t : VariableSet) (l : List VariableSet) → (t ≡ s) ⊎ In t l → In t (insert_by_name s l)
unfolding insert_by_name
In-insert s t [] (inl e) = inl e
In-insert s t [] (inr m) = absurd m
In-insert s t (x ∷ l) m = elim (Bool-cases (text_lt s.name x.name)) [
  | inl h ↦ rw h m
  | inr h ↦ rw h (elim m [
    | inl e ↦ inr (In-insert s t l (inl e))
    | inr (inl e) ↦ inl e
    | inr (inr later) ↦ inr (In-insert s t l (inr later))
  ])
]

IsSorted-insert :
    (s : VariableSet) (l : List VariableSet) → IsSorted l → IsSorted (insert_by_name s l)
unfolding insert_by_name
IsSorted-insert s [] h = ((λ t m. absurd m), tt)
IsSorted-insert s (x ∷ l) (least, sorted) = elim (text_lt-IsBefore s.name x.name) [
  | inl (e, p) ↦ rw e (
    (λ t m. elim m [
      | inl q ↦ λ k. IsBefore-asym s.name x.name p (subst (λ z. IsBefore z.name s.name) q k)
      | inr later ↦ λ k. least t later (IsBefore-trans t.name s.name x.name k p)
    ]),
    (least, sorted),
  )
  | inr (e, p) ↦ rw e (
    (λ t m. elim (In-of_insert s t l m) [
      | inl q ↦ λ k. p (subst (λ z. IsBefore z.name x.name) q k)
      | inr later ↦ least t later
    ]),
    IsSorted-insert s l sorted,
  )
]

sort-IsSorted : (l : List VariableSet) → IsSorted (sort_by_name l)
unfolding sort_by_name
sort-IsSorted [] = tt
sort-IsSorted (s ∷ l) = IsSorted-insert s (sort_by_name l) (sort-IsSorted l)

In-sort : (t : VariableSet) (l : List VariableSet) → In t l → In t (sort_by_name l)
unfolding sort_by_name
In-sort t [] m = m
In-sort t (s ∷ l) (inl e) = In-insert s t (sort_by_name l) (inl e)
In-sort t (s ∷ l) (inr m) = In-insert s t (sort_by_name l) (inr (In-sort t l m))

In-of_sort : (t : VariableSet) (l : List VariableSet) → In t (sort_by_name l) → In t l
unfolding sort_by_name
In-of_sort t [] m = m
In-of_sort t (s ∷ l) m = elim (In-of_insert s t (sort_by_name l) m) [
  | inl e ↦ inl e
  | inr later ↦ inr (In-of_sort t l later)
]

skip :
    (cat : VariableCategory) (key : String) (s : VariableSet) (l : List VariableSet)
    (o : Option Variable)
    → ((v : Variable) → ¬ (Has cat key s v))
    → IsFirst cat key l o
    → IsFirst cat key (s ∷ l) o
skip cat key s l none n h =
    λ t v at has. elim at [ inl e ↦ n v (subst (λ z. Has cat key z v) e has) | inr m ↦ h t v m has ]
skip cat key s l (some v) n (t, m, has, least) = (
  t,
  inr m,
  has,
  λ u w at h. elim at [
    | inl e ↦ absurd (n w (subst (λ z. Has cat key z w) e h))
    | inr later ↦ least u w later h
  ],
)

global_set :
    (cat : VariableCategory) (key : String) (s : VariableSet) (l : List VariableSet)
    → s.global ≡ true
    → in_first_set cat key (keep is_scoped (s ∷ l)) ≡ in_first_set cat key (keep is_scoped l)
global_set cat key s l g = rw g refl

scoped_set :
    (cat : VariableCategory) (key : String) (s : VariableSet) (l : List VariableSet)
    → s.global ≡ false
    → in_first_set cat key (keep is_scoped (s ∷ l))
      ≡ or_else (find_last cat key s.variables) (in_first_set cat key (keep is_scoped l))
scoped_set cat key s l g = rw g refl

IsFirst-of_sorted :
    (cat : VariableCategory) (key : String) (l : List VariableSet)
    → IsSorted l
    → IsFirst cat key l (in_first_set cat key (keep is_scoped l))
IsFirst-of_sorted cat key [] h = λ s v m has. m
IsFirst-of_sorted cat key (s ∷ l) (least, sorted) =
    let rest = in_first_set cat key (keep is_scoped l) in
    let later = IsFirst-of_sorted cat key l sorted in
    elim (Bool-cases s.global) [
      | inl g ↦
          subst (IsFirst cat key (s ∷ l)) (sym (global_set cat key s l g))
            (skip cat key s l rest (λ v has. ground (arith, g, has.0)) later)
      | inr g ↦ elim (Option-cases (find_last cat key s.variables)) [
        | inl n ↦
            subst (IsFirst cat key (s ∷ l))
              (sym (scoped_set cat key s l g ∙ ap (λ o. or_else o rest) n))
              (skip cat key s l rest (λ v has. ground (arith, n, has.1)) later)
        | inr (v, f) ↦
            subst (IsFirst cat key (s ∷ l))
              (sym (scoped_set cat key s l g ∙ ap (λ o. or_else o rest) f))
              (
                s,
                inl refl,
                (g, f),
                λ t w m has. elim m [
                  | inl e ↦ λ k.
                      let self = subst (λ z. IsBefore z.name s.name) e k in
                      IsBefore-asym s.name s.name self self
                  | inr at ↦ least t at
                ],
              )
      ]
    ]

same_sets :
    (cat : VariableCategory) (key : String) (l m : List VariableSet) (o : Option Variable)
    → ((t : VariableSet) → In t m → In t l)
    → ((t : VariableSet) → In t l → In t m)
    → IsFirst cat key l o
    → IsFirst cat key m o
same_sets cat key l m none to from h = λ s v at has. h s v (to s at) has
same_sets cat key l m (some v) to from (s, at, has, least) =
    (s, from s at, has, λ t w there h. least t w (to t there) h)

pub sort-IsFirst :
    (cat : VariableCategory) (key : String) (sets : List VariableSet)
    → IsFirst cat key sets (in_first_set cat key (keep is_scoped (sort_by_name sets)))
sort-IsFirst cat key sets =
    same_sets cat key (sort_by_name sets) sets
      (in_first_set cat key (keep is_scoped (sort_by_name sets))) (λ t m. In-sort t sets m)
      (λ t m. In-of_sort t sets m)
      (IsFirst-of_sorted cat key (sort_by_name sets) (sort-IsSorted sets))
