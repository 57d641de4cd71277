-- ===== src/User/Members/Owners/Choice.antt =====
-- Of distinct names, more than are listed, one is not listed.
use otf.Prelude.{
  suc, ◌≤◌, ◌<◌, ◌≡◌, inl, inr, refl, ap, ◌∙◌, subst, Bool, false, not, String, String-discrete,
  List, [], ◌∷◌, keep, any, In, In-of_keep, Bool-cases, arith, length, affirm, test_sym,
}
use otf.User.Members.{same_name}
use otf.User.Members.Owners.{AreDistinct}

abbrev other_than : String → String → Bool
other_than n u = not (same_name u n)

keep_others :
    (n : String) (xs : List String) → any (same_name n) xs ≡ false → keep (other_than n) xs ≡ xs
keep_others n [] h = refl
keep_others n (x ∷ xs) h = elim (Bool-cases (same_name n x)) [
  | inl e ↦ absurd (ground (arith, rw e at h))
  | inr e ↦
      let other : same_name x n ≡ false = test_sym String-discrete x n ∙ e in
      rw other (ap (λ l. x ∷ l) (keep_others n xs (rw e at h)))
]

none-keep :
    (y : String) (p : String → Bool) (xs : List String)
    → any (same_name y) xs ≡ false
    → any (same_name y) (keep p xs) ≡ false
none-keep y p [] h = refl
none-keep y p (x ∷ xs) h = elim (Bool-cases (same_name y x)) [
  | inl e ↦ absurd (ground (arith, rw e at h))
  | inr e ↦ elim (Bool-cases (p x)) [
    | inl k ↦ rw (k, e) (none-keep y p xs (rw e at h))
    | inr k ↦ rw k (none-keep y p xs (rw e at h))
  ]
]

pub keep-AreDistinct :
    (p : String → Bool) (xs : List String) → AreDistinct xs → AreDistinct (keep p xs)
keep-AreDistinct p [] d = d
keep-AreDistinct p (x ∷ xs) d = elim (Bool-cases (p x)) [
  | inl k ↦ rw k (none-keep x p xs d.0, keep-AreDistinct p xs d.1)
  | inr k ↦ rw k (keep-AreDistinct p xs d.1)
]

length-le-keep :
    (n : String) (xs : List String)
    → AreDistinct xs
    → length xs ≤ suc (length (keep (other_than n) xs))
length-le-keep n [] d = omega arith
length-le-keep n (x ∷ xs) d = elim (Bool-cases (same_name x n)) [
  | inl k ↦
      let here = affirm (String-discrete x n) k in
      let rest = keep_others n xs (subst (λ z. any (same_name z) xs ≡ false) here d.0) in
      rw (k, rest) (omega arith)
  | inr k ↦ rw k (omega (arith, length-le-keep n xs d.1))
]

pub choose_other :
    (names users : List String)
    → AreDistinct users
    → length names < length users
    → (x : String) × In x users × (any (same_name x) names ≡ false)
choose_other [] [] d h = absurd (omega arith)
choose_other [] (x ∷ users) d h = (x, inl refl, refl)
choose_other (n ∷ names) users d h =
    let (x, m, absent) =
      choose_other names (keep (other_than n) users) (keep-AreDistinct (other_than n) users d)
        (omega (arith, length-le-keep n users d)) in
    let (there, other) = In-of_keep (other_than n) x users m in
    (x, there, ground (arith, other, absent))
