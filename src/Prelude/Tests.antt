-- ===== src/Prelude/Tests.antt =====
-- Boolean tests on the native numbers, the conditional, and equality of texts as a decision.
use Prim.Native.Nat.{ℕ, compare, Ordering}
use Prim.Native.String.{String}
use text.Mathlib.Text.{◌==◌ as str_eq}
use text.Mathlib.TextEquality.{eq_iff}
use mathlib.Core.Path.{◌≡◌, refl, sym}
use mathlib.Core.Logic.{◌⊎◌, inl, inr}
use mathlib.Core.Bool.{Bool, true, false}
use mathlib.Core.Option.{Option, none, some}

-- These compute to `compare`, which `ground` and `grind` read with no lemma listed.
abbrev pub ltb : ℕ → ℕ → Bool
ltb a b = elim (compare a b) [ Ordering.lt ↦ true | _ ↦ false ]

abbrev pub leb : ℕ → ℕ → Bool
leb a b = elim (compare a b) [ Ordering.gt ↦ false | _ ↦ true ]

infix 50 ◌==◌
abbrev pub ◌==◌ : ℕ → ℕ → Bool
a == b = elim (compare a b) [ Ordering.eq ↦ true | _ ↦ false ]

infix 1 if◌then◌else◌
abbrev pub if◌then◌else◌ {ℓ} : {A : Type ℓ} → Bool → A → A → A
if true then x else y = x
if false then x else y = y

-- A decision as a Boolean.
abbrev pub test {ℓ} : {A : Type ℓ} → Dec A → Bool
test (yes a) = true
test (no n) = false

-- To split on a computed value and keep the equation.
pub Bool-cases : (b : Bool) → (b ≡ true) ⊎ (b ≡ false)
Bool-cases true = inl refl
Bool-cases false = inr refl

pub Option-cases {ℓ} : {A : Type ℓ} (o : Option A) → (o ≡ none) ⊎ ((a : A) × (o ≡ some a))
Option-cases none = inl refl
Option-cases (some a) = inr (a, refl)

abbrev pub is_some {ℓ} : {A : Type ℓ} → Option A → Bool
is_some none = false
is_some (some a) = true

-- What an option of an update leaves or writes.
abbrev pub or_keep {ℓ} : {A : Type ℓ} → Option A → A → A
or_keep none old = old
or_keep (some new) old = new

ne_of_test : (s t : String) → str_eq s t ≡ false → ¬ (s ≡ t)
ne_of_test s t e p = cc (e, (eq_iff s t).1 p)

abbrev decide_text : (s t : String) (b : Bool) → str_eq s t ≡ b → Dec (s ≡ t)
decide_text s t true e = yes ((eq_iff s t).0 e)
decide_text s t false e = no (ne_of_test s t e)

unfoldable pub String-discrete : Discrete String
unfolding ne_of_test
String-discrete s t = decide_text s t (str_eq s t) refl

-- What a decision refutes.
pub refute {ℓ} : {A : Type ℓ} (d : Dec A) → test d ≡ false → ¬ A
refute (yes a) h = λ p. cc (h)
refute (no n) h = n

-- What a decision affirms, and what it must say.
pub affirm {ℓ} : {A : Type ℓ} (d : Dec A) → test d ≡ true → A
affirm (yes a) h = a
affirm (no n) h = absurd (cc h)

pub test_yes {ℓ} : {A : Type ℓ} (d : Dec A) → A → test d ≡ true
test_yes (yes a) b = refl
test_yes (no n) b = absurd (n b)

pub test_no {ℓ} : {A : Type ℓ} (d : Dec A) → ¬ A → test d ≡ false
test_no (yes a) n = absurd (n a)
test_no (no m) n = refl

same_test {ℓ} : {A : Type ℓ} {a b : A} (d : Dec (a ≡ b)) (e : Dec (b ≡ a)) → test d ≡ test e
same_test (yes p) (yes q) = refl
same_test (yes p) (no n) = absurd (n (sym p))
same_test (no n) (yes q) = absurd (n (sym q))
same_test (no n) (no m) = refl

pub test_sym {ℓ} : {A : Type ℓ} (dec : Discrete A) (a b : A) → test (dec a b) ≡ test (dec b a)
test_sym dec a b = same_test (dec a b) (dec b a)
