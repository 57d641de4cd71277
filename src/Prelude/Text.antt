-- ===== src/Prelude/Text.antt =====
-- Texts by their characters: what the program uses of the package strings.
use Prim.Native.Char.{Char, code}
use Prim.Native.String.append
use Prim.Native.String.{String, ◌++◌}
use text.Mathlib.TextEquality.{Char-path}
use mathlib.Core.Path.{◌≡◌, refl, ap}
use mathlib.Core.Bool.{Bool, true, false, ◌||◌}
use mathlib.Core.List.{List, [], ◌∷◌}
use mathlib.Core.Option.{Option, none, some}
use mathlib.Core.Logic.{inl, inr}
use native.Mathlib.Omega.{arith}
use otf.Prelude.Tests.{◌==◌, if◌then◌else◌, Bool-cases, Option-cases}
use otf.Prelude.Lists.{All}

unfoldable pub has : Char → String → Bool
has d String.[] = false
has d (String.◌∷◌ c s) = code c == code d || has d s

push : Char → List String → List String
push c [] = (String.◌∷◌ c String.[]) ∷ []
push c (w ∷ ws) = String.◌∷◌ c w ∷ ws

-- `strings.Split` by a separator of one character.
unfoldable pub split : Char → String → List String
unfolding push
split d String.[] = String.[] ∷ []
split d (String.◌∷◌ c s) =
    let rest = split d s in if code c == code d then String.[] ∷ rest else push c rest

abbrev pub join : Char → List String → String
join d [] = String.[]
join d (w ∷ []) = w
join d (w ∷ v ∷ ws) = w ++ String.◌∷◌ d (join d (v ∷ ws))

pub same_char : (c d : Char) → (code c == code d) ≡ true → c ≡ d
same_char c d h = Char-path c d (ground (arith, h))

join_here :
    (d : Char) (ws : List String) (v : String)
    → join d (String.[] ∷ v ∷ ws) ≡ String.◌∷◌ d (join d (v ∷ ws))
join_here d ws v = append.nil _

join-push : (d c : Char) (ws : List String) → join d (push c ws) ≡ String.◌∷◌ c (join d ws)
unfolding push
join-push d c [] = refl
join-push d c (w ∷ []) = refl
join-push d c (w ∷ v ∷ ws) = append.cons c w _

split_nonempty : (d : Char) (s : String) → (w : String) × (ws : List String) × (split d s ≡ w ∷ ws)
unfolding split push
split_nonempty d String.[] = (String.[], [], refl)
split_nonempty d (String.◌∷◌ c s) = elim (Bool-cases (code c == code d)) [
  | inl e ↦ (String.[], split d s, rw e refl)
  | inr e ↦ let rest = split_nonempty d s in (String.◌∷◌ c rest.0, rest.1, rw (e, rest.2) refl)
]

-- Joining what a separator splits gives the text back.
pub join-split : (d : Char) (s : String) → join d (split d s) ≡ s
unfolding split
join-split d String.[] = refl
join-split d (String.◌∷◌ c s) = elim (Bool-cases (code c == code d)) [
  | inl e ↦
      let some_word = split_nonempty d s in
      let same = same_char c d e in
      let onto = join_here d some_word.1 some_word.0 in
      let induction = join-split d s in
      rw (e, some_word.2) (cc (onto, same, induction, ap (join d) some_word.2))
  | inr e ↦ rw e (cc (join-push d c (split d s), join-split d s))
]

pub split_none : (d : Char) (s : String) → has d s ≡ false → split d s ≡ s ∷ []
unfolding split has push
split_none d String.[] h = refl
split_none d (String.◌∷◌ c s) h = ground (arith, split_none d s, h)

pub split-append :
    (d : Char) (s t : String) → has d s ≡ false → split d (s ++ String.◌∷◌ d t) ≡ s ∷ split d t
unfolding split has push
split-append d String.[] t h = rw (append.nil (String.◌∷◌ d t)) (ground arith)
split-append d (String.◌∷◌ c s) t h =
    rw (append.cons c s (String.◌∷◌ d t)) (ground (arith, h, split-append d s t))

push-has :
    (d c : Char) (ws : List String)
    → (code c == code d) ≡ false
    → All (λ w. has d w ≡ false) ws
    → All (λ w. has d w ≡ false) (push c ws)
unfolding push has
push-has d c [] e h = (ground (arith, e), tt)
push-has d c (w ∷ ws) e h = (ground (arith, e, h.0), h.1)

-- No word of a split has the separator.
pub split-has : (d : Char) (s : String) → All (λ w. has d w ≡ false) (split d s)
unfolding split has
split-has d String.[] = (refl, tt)
split-has d (String.◌∷◌ c s) = elim (Bool-cases (code c == code d)) [
  | inl e ↦ rw e (refl, split-has d s)
  | inr e ↦ rw e (push-has d c (split d s) e (split-has d s))
]

-- What stands before and after the last separator: `s[:i]` and `s[i+1:]` for the `i` of
-- `strings.LastIndex`, and `none` where it is -1.
after_later : Char → Option (String × String) → Option (String × String) → Option (String × String)
after_later c none here = here
after_later c (some (a, b)) here = some (String.◌∷◌ c a, b)

unfoldable pub split_last : Char → String → Option (String × String)
unfolding after_later
split_last d String.[] = none
split_last d (String.◌∷◌ c s) =
    after_later c (split_last d s) (if code c == code d then some (String.[], s) else none)

split_last-none : (d : Char) (s : String) → has d s ≡ false → split_last d s ≡ none
unfolding split_last has after_later
split_last-none d String.[] h = refl
split_last-none d (String.◌∷◌ c s) h =
    rw (split_last-none d s (ground (arith, h))) (ground (arith, h))

pub split_last-append :
    (d : Char) (a b : String) → has d b ≡ false → split_last d (a ++ String.◌∷◌ d b) ≡ some (a, b)
unfolding split_last after_later
split_last-append d String.[] b h =
    rw (append.nil (String.◌∷◌ d b), split_last-none d b h) (ground arith)
split_last-append d (String.◌∷◌ c a) b h =
    rw (append.cons c a (String.◌∷◌ d b), split_last-append d a b h) refl

split_last_absent : (d : Char) (s : String) → split_last d s ≡ none → has d s ≡ false
unfolding split_last has after_later
split_last_absent d String.[] h = refl
split_last_absent d (String.◌∷◌ c s) h = elim (Option-cases (split_last d s)) [
  | inl n ↦ ground (arith, split_last_absent d s n, rw n at h)
  | inr (p, e) ↦ absurd (ground (arith, rw e at h))
]

pub split_last_parts :
    (d : Char) (s a b : String)
    → split_last d s ≡ some (a, b)
    → (s ≡ a ++ String.◌∷◌ d b) × (has d b ≡ false)
unfolding split_last after_later
split_last_parts d String.[] a b h = absurd (ground (arith, h))
split_last_parts d (String.◌∷◌ c s) a b h = elim (Option-cases (split_last d s)) [
  | inl n ↦
      let here : ((code c == code d) ≡ true) × (String.[] ≡ a) × (s ≡ b) =
        ground (arith, rw n at h) in
      let absent = split_last_absent d s n in
      (cc (same_char c d here.0, here.1, here.2, append.nil (String.◌∷◌ d b)), cc (absent, here.2))
  | inr ((a₁, b₁), e) ↦
      let cut : (String.◌∷◌ c a₁ ≡ a) × (b₁ ≡ b) = ground (arith, rw e at h) in
      let parts = split_last_parts d s a₁ b₁ e in
      (cc (parts.0, cut.0, cut.1, append.cons c a₁ (String.◌∷◌ d b₁)), cc (parts.1, cut.1))
]
