-- ===== src/Prelude/TextOrder.antt =====
-- The order of texts that `compare` decides: that of the first characters that differ.
use Prim.Native.Nat.{ℕ, ◌<◌, Ordering, compare as compare_ℕ}
use Prim.Native.Char.{code}
use Prim.Native.String.{String, compare, then}
use Prim.Native.String.compare
use mathlib.Core.Path.{◌≡◌, ap, ◌∙◌}
use mathlib.Core.Logic.{◌⊎◌, inl, inr}
use native.Mathlib.Omega.{arith}

abbrev pub IsBefore : String → String → Type 0
IsBefore s String.[] = ⊥
IsBefore String.[] (String.◌∷◌ d t) = Unit
IsBefore (String.◌∷◌ c s) (String.◌∷◌ d t) = (code c < code d) ⊎ ((code c ≡ code d) × IsBefore s t)

pub IsBefore-asym : (s t : String) → IsBefore s t → ¬ (IsBefore t s)
IsBefore-asym s String.[] h k = absurd h
IsBefore-asym String.[] (String.◌∷◌ d t) h k = k
IsBefore-asym (String.◌∷◌ c s) (String.◌∷◌ d t) (inl h) (inl k) = omega (arith, h, k)
IsBefore-asym (String.◌∷◌ c s) (String.◌∷◌ d t) (inl h) (inr (k, q)) = omega (arith, h, k)
IsBefore-asym (String.◌∷◌ c s) (String.◌∷◌ d t) (inr (h, p)) (inl k) = omega (arith, h, k)
IsBefore-asym (String.◌∷◌ c s) (String.◌∷◌ d t) (inr (h, p)) (inr (k, q)) = IsBefore-asym s t p q

pub IsBefore-trans : (s t u : String) → IsBefore s t → IsBefore t u → IsBefore s u
IsBefore-trans s String.[] u h k = absurd h
IsBefore-trans s (String.◌∷◌ d t) String.[] h k = absurd k
IsBefore-trans String.[] (String.◌∷◌ d t) (String.◌∷◌ e u) h k = tt
IsBefore-trans (String.◌∷◌ c s) (String.◌∷◌ d t) (String.◌∷◌ e u) (inl h) (inl k) =
    inl (omega (arith, h, k))
IsBefore-trans (String.◌∷◌ c s) (String.◌∷◌ d t) (String.◌∷◌ e u) (inl h) (inr (k, q)) =
    inl (omega (arith, h, k))
IsBefore-trans (String.◌∷◌ c s) (String.◌∷◌ d t) (String.◌∷◌ e u) (inr (h, p)) (inl k) =
    inl (omega (arith, h, k))
IsBefore-trans (String.◌∷◌ c s) (String.◌∷◌ d t) (String.◌∷◌ e u) (inr (h, p)) (inr (k, q)) =
    inr (omega (arith, h, k), IsBefore-trans s t u p q)

code_cases :
    (m n : ℕ)
    → ((m < n) × (compare_ℕ m n ≡ Ordering.lt))
      ⊎ ((m ≡ n) × (compare_ℕ m n ≡ Ordering.eq))
      ⊎ ((n < m) × (compare_ℕ m n ≡ Ordering.gt))
code_cases m n = ground arith

-- What `compare` says is so, and what is so it says.
pub compare-IsBefore :
    (s t : String)
    → ((compare s t ≡ Ordering.lt) × IsBefore s t)
      ⊎ (¬ (compare s t ≡ Ordering.lt) × ¬ (IsBefore s t))
compare-IsBefore String.[] String.[] = inr ((λ h. ground (arith, h, compare.nil-nil)), (λ h. h))
compare-IsBefore String.[] (String.◌∷◌ d t) = inl (compare.nil-cons d t, tt)
compare-IsBefore (String.◌∷◌ c s) String.[] =
    inr ((λ h. ground (arith, h, compare.cons-nil c s)), (λ h. h))
compare-IsBefore (String.◌∷◌ c s) (String.◌∷◌ d t) =
    let both = compare.cons-cons c d s t in
    elim (code_cases (code c) (code d)) [
      | inl (less, e) ↦ inl (both ∙ ap (λ o. then o (compare s t)) e, inl less)
      | inr (inl (same, e)) ↦
          let rest = both ∙ ap (λ o. then o (compare s t)) e in
          elim (compare-IsBefore s t) [
            | inl (h, p) ↦ inl (rest ∙ h, inr (same, p))
            | inr (h, p) ↦ inr (
              (λ k. h (cc (rest, k))),
              (λ k. elim k [ inl less ↦ omega (arith, less, same) | inr (e', q) ↦ p q ]),
            )
          ]
      | inr (inr (more, e)) ↦ inr (
        (λ k. ground (arith, k, both ∙ ap (λ o. then o (compare s t)) e)),
        (λ k. elim k [
          | inl less ↦ omega (arith, less, more)
          | inr (same, q) ↦ omega (arith, same, more)
        ]),
      )
    ]
