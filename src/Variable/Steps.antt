-- ===== src/Variable/Steps.antt =====
-- internal/variable/variable.go: what holds of a variable through the steps of an edit.
use otf.Prelude.{◌≡◌, String, Option, none, some, ok, err, Bool, subst, ◌>>=◌}
use otf.Variable.{
  VariableCategory, Variable, VariableOptions, VariableError, Edited, set_value, set_description,
  set_category, set_sensitive, optional, required, change_key, change_hcl, update, put_version,
}

-- What holds of the variable if there is one.
abbrev pub Ensures : (Variable → Type 0) → Edited → Type 0
Ensures P (ok v) = P v
Ensures P (err e) = Unit

pub Ensures-bind :
    (P Q : Variable → Type 0) (r : Edited) (f : Variable → Edited)
    → Ensures P r
    → ((v : Variable) → P v → Ensures Q (f v))
    → Ensures Q (r >>= f)
Ensures-bind P Q (ok v) f p h = h v p
Ensures-bind P Q (err e) f p h = tt

Ensures-optional :
    {A : Type 0} (P : Variable → Type 0) (o : Option A) (set : A → Variable → Edited) (v : Variable)
    → ((a : A) → Ensures P (set a v))
    → P v
    → Ensures P (optional o set v)
Ensures-optional P none set v h p = p
Ensures-optional P (some a) set v h p = h a

pub then_optional :
    {A : Type 0} (P : Variable → Type 0) (o : Option A) (set : A → Variable → Edited) (r : Edited)
    → ((a : A) (v : Variable) → P v → Ensures P (set a v))
    → Ensures P r
    → Ensures P (r >>= optional o set)
then_optional P o set r h p =
    Ensures-bind P P r (optional o set) p λ v q. Ensures-optional P o set v (λ a. h a v q) q

-- What every step of an update keeps, the update keeps.
module _ (P : Variable → Type 0)
    (key : (a : String) (v : Variable) → P v → Ensures P (change_key a v))
    (value : (a : String) (v : Variable) → P v → Ensures P (set_value a v))
    (description : (a : String) (v : Variable) → P v → Ensures P (set_description a v))
    (category : (a : VariableCategory) (v : Variable) → P v → Ensures P (set_category a v))
    (hcl : (a : Bool) (v : Variable) → P v → Ensures P (change_hcl a v))
    (sensitive : (a : Bool) (v : Variable) → P v → Ensures P (set_sensitive a v))
    (version : (a : String) (v : Variable) → P v → Ensures P (put_version a v)) where
  pub update-Ensures :
      (new : String) (opts : VariableOptions) (v : Variable) → P v → Ensures P (update new opts v)
  unfolding update
  update-Ensures new opts v p =
      let r₁ = Ensures-optional P opts.key change_key v (λ a. key a v p) p in
      let r₂ = then_optional P opts.value set_value _ value r₁ in
      let r₃ = then_optional P opts.description set_description _ description r₂ in
      let r₄ = then_optional P opts.category set_category _ category r₃ in
      let r₅ = then_optional P opts.hcl change_hcl _ hcl r₄ in
      let r₆ = then_optional P opts.sensitive set_sensitive _ sensitive r₅ in
      Ensures-bind P P _ (put_version new) r₆ (version new)

pub of_ok : (P : Variable → Type 0) (r : Edited) (w : Variable) → Ensures P r → r ≡ ok w → P w
of_ok P r w p e = subst (Ensures P) e p

pub required-bound :
    {A : Type 0} (P : Variable → Type 0) (e : VariableError) (o : Option A)
    (set : A → Variable → Edited) (v : Variable)
    → ((a : A) → Ensures P (set a v))
    → Ensures P (required e o set v)
required-bound P e none set v h = tt
required-bound P e (some a) set v h = h a
