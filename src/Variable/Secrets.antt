-- ===== src/Variable/Secrets.antt =====
-- internal/variable/variable.go: what an update keeps of a sensitive variable.
use otf.Prelude.{◌≡◌, refl, true, false, String, ok, arith, Bool}
use otf.Variable.{
  VariableCategory, terraform_category, env_category, other_category, Variable, VariableOptions,
  set_value, set_description, set_category, set_sensitive, change_key, change_hcl, update,
}
use otf.Variable.Steps.{Ensures, of_ok, update-Ensures}

-- A sensitive variable stays the same but for its value, its description, its category and its
-- version.
abbrev pub KeepsSecret : Variable → Variable → Type 0
KeepsSecret v w =
    (w.sensitive ≡ true)
    × (w.key ≡ v.key)
    × (w.hcl ≡ v.hcl)
    × (w.id ≡ v.id)
    × (w.parent_id ≡ v.parent_id)

module _ (v : Variable) where
  secret_key :
      (a : String) (w : Variable) → KeepsSecret v w → Ensures (KeepsSecret v) (change_key a w)
  unfolding change_key
  secret_key a w p = rw p.0 tt

  secret_value :
      (a : String) (w : Variable) → KeepsSecret v w → Ensures (KeepsSecret v) (set_value a w)
  unfolding set_value
  secret_value a w p = ground (arith, p)

  secret_description :
      (a : String) (w : Variable) → KeepsSecret v w → Ensures (KeepsSecret v) (set_description a w)
  unfolding set_description
  secret_description a w p = ground (arith, p)

  secret_category :
      (a : VariableCategory) (w : Variable)
      → KeepsSecret v w
      → Ensures (KeepsSecret v) (set_category a w)
  unfolding set_category
  secret_category terraform_category w p = p
  secret_category env_category w p = p
  secret_category (other_category c) w p = tt

  secret_hcl :
      (a : Bool) (w : Variable) → KeepsSecret v w → Ensures (KeepsSecret v) (change_hcl a w)
  unfolding change_hcl
  secret_hcl true w p = ground (arith, p)
  secret_hcl false w p = ground (arith, p)

  secret_sensitive :
      (a : Bool) (w : Variable) → KeepsSecret v w → Ensures (KeepsSecret v) (set_sensitive a w)
  unfolding set_sensitive
  secret_sensitive true w p = ground (arith, p)
  secret_sensitive false w p = ground (arith, p)

-- An update of a sensitive variable that succeeds leaves the variable sensitive, with its key, its
-- HCL mode, its identifier and its parent.
pub update-KeepsSecret :
    (version : String) (opts : VariableOptions) (v w : Variable)
    → v.sensitive ≡ true
    → update version opts v ≡ ok w
    → KeepsSecret v w
update-KeepsSecret version opts v w s = of_ok (KeepsSecret v) (update version opts v) w (
    update-Ensures (KeepsSecret v) (secret_key v) (secret_value v) (secret_description v)
      (secret_category v) (secret_hcl v) (secret_sensitive v) (λ a u p. p) version opts v
      (s, refl, refl, refl, refl))
