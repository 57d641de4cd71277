-- ===== src/Variable/Bounds.antt =====
-- internal/variable/variable.go: the limits that edits keep.
use Prim.Native.String.{len}
use otf.Prelude.{◌*◌, ◌≤◌, ◌≡◌, refl, true, false, String, List, [], ◌∷◌, ok, err, arith, Bool}
use otf.Prelude.TextSearch.{len-trim_space}
use otf.Resource.{TfeId}
use otf.Variable.{
  VariableCategory, terraform_category, env_category, other_category, Variable, VariableOptions,
  Edited, set_key, set_value, set_description, set_category, set_sensitive, required, missing_key,
  missing_category, new_variable, change_key, change_hcl, update, variable_description_max_chars,
  blank, variable_key_max_chars, variable_value_max_kb, put_sensitive, put_hcl,
}
use otf.Variable.Steps.{Ensures, Ensures-bind, then_optional, of_ok, required-bound, update-Ensures}

abbrev pub is_known : VariableCategory → Bool
is_known (other_category c) = false
is_known c = true

-- The limits on the texts of a variable, in bytes.
abbrev IsSized : Variable → Type 0
IsSized v =
    (len v.key ≤ variable_key_max_chars)
    × (len v.value ≤ variable_value_max_kb * 1024)
    × (len v.description ≤ variable_description_max_chars)

-- The limits, and a category that has a constant.
abbrev pub IsBounded : Variable → Type 0
IsBounded v = IsSized v × (is_known v.category ≡ true)

IsSized-key : (key : String) (v : Variable) → IsSized v → Ensures IsSized (set_key key v)
unfolding set_key
IsSized-key key v h = ground (arith, h, len-trim_space key)

IsBounded-key : (key : String) (v : Variable) → IsBounded v → Ensures IsBounded (change_key key v)
unfolding set_key change_key
IsBounded-key key v h = ground (arith, h, len-trim_space key)

IsBounded-value : (a : String) (v : Variable) → IsBounded v → Ensures IsBounded (set_value a v)
unfolding set_value
IsBounded-value a v h = ground (arith, h, len-trim_space a)

IsBounded-description :
    (a : String) (v : Variable) → IsBounded v → Ensures IsBounded (set_description a v)
unfolding set_description
IsBounded-description a v h = ground (arith, h)

IsBounded-category :
    (a : VariableCategory) (v : Variable) → IsSized v → Ensures IsBounded (set_category a v)
unfolding set_category
IsBounded-category terraform_category v h = (h, refl)
IsBounded-category env_category v h = (h, refl)
IsBounded-category (other_category c) v h = tt

IsBounded-hcl : (a : Bool) (v : Variable) → IsBounded v → Ensures IsBounded (change_hcl a v)
unfolding change_hcl
IsBounded-hcl true v h = ground (arith, h)
IsBounded-hcl false v h = ground (arith, h)

IsBounded-sensitive :
    (a : Bool) (v : Variable) → IsBounded v → Ensures IsBounded (set_sensitive a v)
unfolding set_sensitive
IsBounded-sensitive a v h = ground (arith, h)

update-IsBounded :
    (version : String) (opts : VariableOptions) (v : Variable)
    → IsBounded v
    → Ensures IsBounded (update version opts v)
update-IsBounded =
    update-Ensures IsBounded IsBounded-key IsBounded-value IsBounded-description
      (λ a v h. IsBounded-category a v h.0) IsBounded-hcl IsBounded-sensitive (λ a v h. h)

new_variable-IsBounded :
    (id : TfeId) (version : String) (parent : TfeId) (opts : VariableOptions)
    → Ensures IsBounded (new_variable id version parent opts)
unfolding new_variable
new_variable-IsBounded id version parent opts =
    let start : IsSized (blank id version parent) = (omega arith, omega arith, omega arith) in
    let r₁ =
      required-bound IsSized missing_key opts.key set_key (blank id version parent)
        (λ a. IsSized-key a _ start) in
    let r₂ =
      Ensures-bind IsSized IsBounded _ (required missing_category opts.category set_category) r₁
        (λ v p.
          required-bound IsBounded missing_category opts.category set_category v
            (λ a. IsBounded-category a v p)) in
    let r₃ = then_optional IsBounded opts.value set_value _ IsBounded-value r₂ in
    let r₄ = then_optional IsBounded opts.description set_description _ IsBounded-description r₃ in
    let r₅ = then_optional IsBounded opts.sensitive put_sensitive _ (λ a v h. h) r₄ in
    then_optional IsBounded opts.hcl put_hcl _ (λ a v h. h) r₅

-- A variable after a sequence of updates, of which the failing ones leave it.
abbrev pub or_old : Variable → Edited → Variable
or_old v (ok w) = w
or_old v (err e) = v

abbrev pub edit_all : List (String × VariableOptions) → Variable → Variable
edit_all [] v = v
edit_all ((version, opts) ∷ rest) v = edit_all rest (or_old v (update version opts v))

or_old-IsBounded :
    (v : Variable) (r : Edited) → IsBounded v → Ensures IsBounded r → IsBounded (or_old v r)
or_old-IsBounded v (ok w) h p = p
or_old-IsBounded v (err e) h p = h

edit_all_kept :
    (es : List (String × VariableOptions)) (v : Variable) → IsBounded v → IsBounded (edit_all es v)
edit_all_kept [] v h = h
edit_all_kept ((version, opts) ∷ rest) v h =
    edit_all_kept rest _
      (or_old-IsBounded v (update version opts v) h (update-IsBounded version opts v h))

-- A variable that is created and then updated any number of times has a key of at most 128 bytes, a
-- value of at most 256 kilobytes, a description of at most 512 bytes, and a category that is known.
pub edit_all-IsBounded :
    (id : TfeId) (version : String) (parent : TfeId) (opts : VariableOptions) (v : Variable)
    (es : List (String × VariableOptions))
    → new_variable id version parent opts ≡ ok v
    → IsBounded (edit_all es v)
edit_all-IsBounded id version parent opts v es e = edit_all_kept es v (
    of_ok IsBounded (new_variable id version parent opts) v
      (new_variable-IsBounded id version parent opts) e)
