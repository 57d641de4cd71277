-- ===== src/Prelude/Lists.antt =====
-- Lists measured and indexed by native numbers, under the library's names.
use Prim.Native.Nat.{ℕ, zero, suc, ◌+◌, ◌-◌, ◌≤◌, ◌<◌, min}
use mathlib.Core.Path.{◌≡◌, refl, ap, sym, subst}
use mathlib.Core.List.{List, [], ◌∷◌, ◌++◌}
use mathlib.Core.Option.{Option, none, some}
use mathlib.Core.Logic.{◌⊎◌, inl, inr}
use mathlib.Core.Bool.{Bool, true, false}
use otf.Prelude.Tests.{Bool-cases, if◌then◌else◌}
use native.Mathlib.Omega.{arith}

module _ {ℓ} {A : Type ℓ} where
  abbrev pub length : List A → ℕ
  length [] = 0
  length (x ∷ xs) = suc (length xs)

  abbrev pub get_elem? : List A → ℕ → Option A
  get_elem? [] i = none
  get_elem? (x ∷ xs) zero = some x
  get_elem? (x ∷ xs) (suc i) = get_elem? xs i

  abbrev pub take : ℕ → List A → List A
  take zero xs = []
  take (suc n) [] = []
  take (suc n) (x ∷ xs) = x ∷ take n xs

  abbrev pub drop : ℕ → List A → List A
  drop zero xs = xs
  drop (suc n) [] = []
  drop (suc n) (x ∷ xs) = drop n xs

  abbrev pub replicate : ℕ → A → List A
  replicate zero a = []
  replicate (suc n) a = a ∷ replicate n a

  pub length-append : (xs ys : List A) → length (xs ++ ys) ≡ length xs + length ys
  length-append [] ys = omega arith
  length-append (x ∷ xs) ys = omega (arith, length-append xs ys)

  pub length-take : (n : ℕ) (xs : List A) → length (take n xs) ≡ min n (length xs)
  length-take zero xs = omega arith
  length-take (suc n) [] = omega arith
  length-take (suc n) (x ∷ xs) = omega (arith, length-take n xs)

  pub length-drop : (n : ℕ) (xs : List A) → length (drop n xs) ≡ length xs - n
  length-drop zero xs = omega arith
  length-drop (suc n) [] = omega arith
  length-drop (suc n) (x ∷ xs) = omega (arith, length-drop n xs)

  take_nil : (n : ℕ) → take n [] ≡ []
  take_nil zero = refl
  take_nil (suc n) = refl

  pub take-drop : (n : ℕ) (l : List A) → take n l ++ drop n l ≡ l
  take-drop zero l = refl
  take-drop (suc n) [] = refl
  take-drop (suc n) (x ∷ l) = cc (take-drop n l)

  pub drop_nil : (n : ℕ) → drop n [] ≡ []
  drop_nil zero = refl
  drop_nil (suc n) = refl

  pub drop-drop : (m n : ℕ) (l : List A) → drop n (drop m l) ≡ drop (m + n) l
  drop-drop zero n l = ap (λ k. drop k l) (omega arith)
  drop-drop (suc m) n [] = simp drop_nil
  drop-drop (suc m) n (x ∷ l) =
      let step : suc m + n ≡ suc (m + n) = omega arith in rw step (drop-drop m n l)

  pub take_all : (n : ℕ) (l : List A) → length l ≤ n → take n l ≡ l
  take_all zero [] h = refl
  take_all zero (x ∷ l) h = absurd (omega arith)
  take_all (suc n) [] h = refl
  take_all (suc n) (x ∷ l) h = cc (take_all n l (omega arith))

  pub take-drop-append : (m n : ℕ) (l : List A) → take m l ++ take n (drop m l) ≡ take (m + n) l
  take-drop-append zero n l = ap (λ k. take k l) (omega arith)
  take-drop-append (suc m) n [] = simp (drop_nil, take_nil)
  take-drop-append (suc m) n (x ∷ l) =
      let step : suc m + n ≡ suc (m + n) = omega arith in rw step (cc (take-drop-append m n l))

  pub drop-take : (m n : ℕ) (l : List A) → drop m (take (m + n) l) ≡ take n (drop m l)
  drop-take zero n l = ap (λ k. take k l) (omega arith)
  drop-take (suc m) n [] = simp (drop_nil, take_nil)
  drop-take (suc m) n (x ∷ l) =
      let step : suc m + n ≡ suc (m + n) = omega arith in rw step (drop-take m n l)

  pub drop_all : (n : ℕ) (l : List A) → length l ≤ n → drop n l ≡ []
  drop_all zero [] h = refl
  drop_all zero (x ∷ l) h = absurd (omega arith)
  drop_all (suc n) [] h = refl
  drop_all (suc n) (x ∷ l) h = drop_all n l (omega arith)

  pub length_zero : (l : List A) → length l ≡ 0 → l ≡ []
  length_zero [] h = refl
  length_zero (x ∷ l) h = absurd (omega arith)

  pub drop-append_within :
      (d : ℕ) (xs ys : List A) → d ≤ length xs → drop d (xs ++ ys) ≡ drop d xs ++ ys
  drop-append_within zero xs ys h = refl
  drop-append_within (suc d) [] ys h = absurd (omega arith)
  drop-append_within (suc d) (x ∷ xs) ys h = drop-append_within d xs ys (omega arith)

  pub drop-append_behind : (k : ℕ) (xs ys : List A) → drop (length xs + k) (xs ++ ys) ≡ drop k ys
  drop-append_behind k [] ys = ap (λ n. drop n ys) (omega arith)
  drop-append_behind k (x ∷ xs) ys =
      let step : suc (length xs) + k ≡ suc (length xs + k) = omega arith in
      rw step (drop-append_behind k xs ys)

  -- A predicate by recursion computes to tuples, which the tactics read and build.
  abbrev pub All {κ} : (A → Type κ) → List A → Type κ
  All P [] = Unit
  All P (x ∷ xs) = P x × All P xs

  pub All-append {κ} : (P : A → Type κ) (xs ys : List A) → All P xs → All P ys → All P (xs ++ ys)
  All-append P [] ys hx hy = hy
  All-append P (x ∷ xs) ys hx hy = (hx.0, All-append P xs ys hx.1 hy)

  abbrev pub last? : List A → Option A
  last? [] = none
  last? (x ∷ []) = some x
  last? (x ∷ y ∷ r) = last? (y ∷ r)

  pub last?-drop : (d : ℕ) (l : List A) → d < length l → last? (drop d l) ≡ last? l
  last?-drop zero l h = refl
  last?-drop (suc d) [] h = absurd (omega arith)
  last?-drop (suc d) (x ∷ []) h = absurd (omega arith)
  last?-drop (suc d) (x ∷ y ∷ l) h = last?-drop d (y ∷ l) (omega arith)

  pub last?-append : (xs : List A) (a : A) → last? (xs ++ a ∷ []) ≡ some a
  last?-append [] a = refl
  last?-append (x ∷ []) a = refl
  last?-append (x ∷ y ∷ r) a = last?-append (y ∷ r) a

module _ {A : Type 0} where
  -- A member, by recursion.
  abbrev pub In : A → List A → Type 0
  In x [] = ⊥
  In x (y ∷ ys) = (x ≡ y) ⊎ In x ys

  -- The elements that pass a Boolean test.
  abbrev pub keep : (A → Bool) → List A → List A
  keep p [] = []
  keep p (x ∷ xs) = let rest = keep p xs in if p x then x ∷ rest else rest

  abbrev pub any : (A → Bool) → List A → Bool
  any p [] = false
  any p (x ∷ xs) = if p x then true else any p xs

  pub In-keep : (p : A → Bool) (x : A) (xs : List A) → p x ≡ true → In x xs → In x (keep p xs)
  In-keep p x [] h m = m
  In-keep p x (y ∷ ys) h (inl e) =
      let here : p y ≡ true = subst (λ z. p z ≡ true) e h in rw here (inl e)
  In-keep p x (y ∷ ys) h (inr m) = elim (Bool-cases (p y)) [
    | inl e ↦ rw e (inr (In-keep p x ys h m))
    | inr e ↦ rw e (In-keep p x ys h m)
  ]

  pub In-of_keep : (p : A → Bool) (x : A) (xs : List A) → In x (keep p xs) → In x xs × (p x ≡ true)
  In-of_keep p x [] m = absurd m
  In-of_keep p x (y ∷ ys) m = elim (Bool-cases (p y)) [
    | inl e ↦ elim (rw e at m) [
      | inl here ↦ (inl here, subst (λ z. p z ≡ true) (sym here) e)
      | inr later ↦ let rest = In-of_keep p x ys later in (inr rest.0, rest.1)
    ]
    | inr e ↦ let rest = In-of_keep p x ys (rw e at m) in (inr rest.0, rest.1)
  ]

  pub In-append : (x y : A) (xs : List A) → In x (xs ++ y ∷ []) → In x xs ⊎ (x ≡ y)
  In-append x y [] (inl e) = inr e
  In-append x y [] (inr m) = absurd m
  In-append x y (z ∷ zs) (inl e) = inl (inl e)
  In-append x y (z ∷ zs) (inr m) = elim (In-append x y zs m) [
    | inl old ↦ inl (inr old)
    | inr new ↦ inr new
  ]

  pub In-All {κ} : (P : A → Type κ) (x : A) (xs : List A) → All P xs → In x xs → P x
  In-All P x [] h m = absurd m
  In-All P x (y ∷ ys) h (inl e) = subst P (sym e) h.0
  In-All P x (y ∷ ys) h (inr m) = In-All P x ys h.1 m

  pub In-append_left : (x : A) (xs ys : List A) → In x xs → In x (xs ++ ys)
  In-append_left x [] ys m = absurd m
  In-append_left x (y ∷ xs) ys (inl e) = inl e
  In-append_left x (y ∷ xs) ys (inr m) = inr (In-append_left x xs ys m)

  pub In-append_right : (x : A) (xs ys : List A) → In x ys → In x (xs ++ ys)
  In-append_right x [] ys m = m
  In-append_right x (y ∷ xs) ys m = inr (In-append_right x xs ys m)

  pub any-In : (p : A → Bool) (x : A) (xs : List A) → In x xs → p x ≡ true → any p xs ≡ true
  any-In p x [] m h = absurd m
  any-In p x (y ∷ ys) (inl e) h =
      let here : p y ≡ true = subst (λ z. p z ≡ true) e h in rw here refl
  any-In p x (y ∷ ys) (inr m) h = elim (Bool-cases (p y)) [
    | inl e ↦ rw e refl
    | inr e ↦ rw e (any-In p x ys m h)
  ]

  pub In-of_any : (p : A → Bool) (xs : List A) → any p xs ≡ true → (x : A) × In x xs × (p x ≡ true)
  In-of_any p [] h = absurd (ground (arith, h))
  In-of_any p (y ∷ ys) h = elim (Bool-cases (p y)) [
    | inl e ↦ (y, inl refl, e)
    | inr e ↦ let (x, m, q) = In-of_any p ys (rw e at h) in (x, inr m, q)
  ]

  pub any-append :
      (p : A → Bool) (xs ys : List A)
      → any p xs ≡ false
      → any p ys ≡ false
      → any p (xs ++ ys) ≡ false
  any-append p [] ys h k = k
  any-append p (x ∷ xs) ys h k = elim (Bool-cases (p x)) [
    | inl e ↦ absurd (ground (arith, rw e at h))
    | inr e ↦ rw e (any-append p xs ys (rw e at h) k)
  ]

  pub length-keep : (p : A → Bool) (xs : List A) → length (keep p xs) ≤ length xs
  length-keep p [] = omega arith
  length-keep p (x ∷ xs) = ground (arith, length-keep p xs)
