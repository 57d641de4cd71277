-- ===== src/Prelude/Maps.antt =====
-- Go maps as association lists over keys with decidable equality: `m[k]`, `m[k] = v` and
-- `delete(m, k)`. An entry that stands nearer the head hides those behind it.
use mathlib.Core.Path.{◌≡◌, refl, ◌∙◌}
use mathlib.Core.Bool.{Bool, false}
use otf.Prelude.Lists.{any}
use mathlib.Core.Logic.{ite, ◌⊎◌, inl, inr}
use mathlib.Core.List.{List, [], ◌∷◌}
use mathlib.Core.Option.{Option, none, some}
use native.Mathlib.Omega.{arith}
use otf.Prelude.Tests.{if◌then◌else◌, test}

unfoldable pub map_values {ℓ} : {K V : Type ℓ} → (V → V) → List (K × V) → List (K × V)
map_values f [] = []
map_values f ((j, w) ∷ m) = (j, f w) ∷ map_values f m

abbrev pub map_option {ℓ} : {V : Type ℓ} → (V → V) → Option V → Option V
map_option f none = none
map_option f (some v) = some (f v)

pub ite_yes {ℓ} : {A B : Type ℓ} (d : Dec A) (x y : B) → A → ite d x y ≡ x
ite_yes (yes a) x y h = refl
ite_yes (no n) x y h = absurd (n h)

ite_no {ℓ} : {A B : Type ℓ} (d : Dec A) (x y : B) → ¬ A → ite d x y ≡ y
ite_no (yes a) x y n = absurd (n a)
ite_no (no m) x y n = refl

module _ {ℓ} {K V : Type ℓ} (dec : Discrete K) where
  unfoldable pub lookup : K → List (K × V) → Option V
  lookup k [] = none
  lookup k ((j, v) ∷ m) = ite (dec k j) (some v) (lookup k m)

  unfoldable pub insert : K → V → List (K × V) → List (K × V)
  insert k v [] = (k, v) ∷ []
  insert k v ((j, w) ∷ m) = ite (dec k j) ((k, v) ∷ m) ((j, w) ∷ insert k v m)

  unfoldable pub delete : K → List (K × V) → List (K × V)
  delete k [] = []
  delete k ((j, w) ∷ m) = ite (dec k j) (delete k m) ((j, w) ∷ delete k m)

  pub lookup-insert :
      (k q : K) (v : V) (m : List (K × V))
      → lookup q (insert k v m) ≡ ite (dec q k) (some v) (lookup q m)
  unfolding lookup insert
  lookup-insert k q v [] = refl
  lookup-insert k q v ((j, w) ∷ m) = ground (arith, lookup-insert k q v m)

  pub lookup-delete :
      (k q : K) (m : List (K × V)) → lookup q (delete k m) ≡ ite (dec q k) none (lookup q m)
  unfolding lookup delete
  lookup-delete k q [] = ground arith
  lookup-delete k q ((j, w) ∷ m) = ground (arith, lookup-delete k q m)

  -- How an entry at the head is met.
  pub insert_here :
      (k j : K) (v w : V) (m : List (K × V)) → k ≡ j → insert k v ((j, w) ∷ m) ≡ (k, v) ∷ m
  unfolding insert
  insert_here k j v w m e = ground (arith, e)

  pub insert_there :
      (k j : K) (v w : V) (m : List (K × V))
      → ¬ (k ≡ j)
      → insert k v ((j, w) ∷ m) ≡ (j, w) ∷ insert k v m
  unfolding insert
  insert_there k j v w m n = ground (arith, n)

  pub lookup_step :
      (k j : K) (w : V) (m : List (K × V))
      → lookup k ((j, w) ∷ m) ≡ (if test (dec k j) then some w else lookup k m)
  unfolding lookup
  lookup_step k j w m = ground arith

  pub lookup-map_values :
      (f : V → V) (k : K) (m : List (K × V)) → lookup k (map_values f m) ≡ map_option f (lookup k m)
  unfolding lookup map_values
  lookup-map_values f k [] = refl
  lookup-map_values f k ((j, w) ∷ m) = ground (arith, lookup-map_values f k m)

  pub lookup-insert_cases :
      (k q : K) (v : V) (m : List (K × V))
      → ((q ≡ k) × (lookup q (insert k v m) ≡ some v))
        ⊎ (¬ (q ≡ k) × (lookup q (insert k v m) ≡ lookup q m))
  lookup-insert_cases k q v m =
      let at = lookup-insert k q v m in
      elim (dec q k) [
        | yes e ↦ inl (e, rw (at, e) (ite_yes (dec k k) _ _ refl))
        | no n ↦ inr (n, at ∙ ite_no (dec q k) _ _ n)
      ]

  pub lookup-delete_cases :
      (k q : K) (m : List (K × V)) → ¬ (q ≡ k) → lookup q (delete k m) ≡ lookup q m
  lookup-delete_cases k q m n = lookup-delete k q m ∙ ite_no (dec q k) _ _ n

module _ {K V : Type 0} (dec : Discrete K) where
  -- What no entry has, the value of a key does not have.
  pub lookup-any :
      (f : V → Bool) (k : K) (v : V) (m : List (K × V))
      → any (λ p. f p.1) m ≡ false
      → lookup dec k m ≡ some v
      → f v ≡ false
  unfolding lookup
  lookup-any f k v [] none_there h = absurd (ground (arith, h))
  lookup-any f k v ((j, w) ∷ m) none_there h = ground (arith, lookup-any f k v m, none_there, h)
