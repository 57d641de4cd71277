-- ===== src/Prelude/TextSearch.antt =====
-- Prefixes of texts, what they contain, and their spaces: the rest of what the program uses of
-- strings.
use Prim.Native.Nat.{ℕ, ◌+◌, ◌≤◌}
use Prim.Native.Char.{Char, code, len_utf8}
use Prim.Native.String.append
use Prim.Native.String.len
use Prim.Native.String.{String, ◌++◌, len}
use mathlib.Core.Path.{◌≡◌, refl}
use mathlib.Core.Bool.{Bool, true, false, ◌&&◌, ◌||◌}
use mathlib.Core.Option.{Option, none, some}
use mathlib.Core.Logic.{inl, inr}
use native.Mathlib.Omega.{arith}
use otf.Prelude.Tests.{◌==◌, leb, if◌then◌else◌, Bool-cases}
use otf.Prelude.Text.{has, same_char}

-- `strings.HasPrefix` and `strings.Contains`.
pub has_prefix : String → String → Bool
has_prefix s String.[] = true
has_prefix String.[] (String.◌∷◌ d t) = false
has_prefix (String.◌∷◌ c s) (String.◌∷◌ d t) = code c == code d && has_prefix s t

unfoldable pub contains : String → String → Bool
unfolding has_prefix
contains String.[] t = has_prefix String.[] t
contains (String.◌∷◌ c s) t = has_prefix (String.◌∷◌ c s) t || contains s t

prefix-append : (t v : String) → has_prefix (t ++ v) t ≡ true
unfolding has_prefix
prefix-append String.[] v = refl
prefix-append (String.◌∷◌ d t) v = rw (append.cons d t v) (ground (arith, prefix-append t v))

contains_of_prefix : (s t : String) → has_prefix s t ≡ true → contains s t ≡ true
unfolding contains
contains_of_prefix String.[] t h = h
contains_of_prefix (String.◌∷◌ c s) t h = ground (arith, h)

pub contains-append : (u t v : String) → contains (u ++ (t ++ v)) t ≡ true
unfolding contains
contains-append String.[] t v =
    contains_of_prefix (String.[] ++ (t ++ v)) t (rw (append.nil (t ++ v)) (prefix-append t v))
contains-append (String.◌∷◌ c u) t v =
    rw (append.cons c u (t ++ v)) (ground (arith, contains-append u t v))

is_between : ℕ → ℕ → ℕ → Bool
is_between a b c = leb a c && leb c b

-- `unicode.IsSpace`.
is_space : Char → Bool
unfolding is_between
is_space c =
    is_between 9 13 (code c)
    || code c == 32
    || code c == 0x85
    || code c == 0xa0
    || code c == 0x1680
    || is_between 0x2000 0x200a (code c)
    || is_between 0x2028 0x2029 (code c)
    || code c == 0x202f
    || code c == 0x205f
    || code c == 0x3000

trim_left : String → String
trim_left String.[] = String.[]
trim_left (String.◌∷◌ c s) = let rest = trim_left s in if is_space c then rest else String.◌∷◌ c s

onto_trimmed : Char → String → String
onto_trimmed c String.[] = if is_space c then String.[] else String.◌∷◌ c String.[]
onto_trimmed c (String.◌∷◌ d s) = String.◌∷◌ c (String.◌∷◌ d s)

trim_right : String → String
trim_right String.[] = String.[]
trim_right (String.◌∷◌ c s) = onto_trimmed c (trim_right s)

-- `strings.TrimSpace`.
unfoldable pub trim_space : String → String
unfolding trim_left trim_right onto_trimmed is_space
trim_space s = trim_right (trim_left s)

len-onto : (c : Char) (s : String) → len (onto_trimmed c s) ≤ len_utf8 c + len s
unfolding onto_trimmed
len-onto c String.[] = elim (Bool-cases (is_space c)) [
  | inl e ↦ rw e (omega arith)
  | inr e ↦ rw e (rw (len.cons c String.[]) (omega arith))
]
len-onto c (String.◌∷◌ d s) = rw (len.cons c (String.◌∷◌ d s)) (omega arith)

len-left : (s : String) → len (trim_left s) ≤ len s
unfolding trim_left
len-left String.[] = omega arith
len-left (String.◌∷◌ c s) = rw (len.cons c s) (ground (arith, len-left s, len.cons c s))

len-right : (s : String) → len (trim_right s) ≤ len s
unfolding trim_right
len-right String.[] = omega arith
len-right (String.◌∷◌ c s) =
    rw (len.cons c s) (omega (arith, len-onto c (trim_right s), len-right s))

-- Trimming never lengthens a text.
pub len-trim_space : (s : String) → len (trim_space s) ≤ len s
unfolding trim_space
len-trim_space s = omega (arith, len-right (trim_left s), len-left s)

prefix-len : (s t : String) → has_prefix s t ≡ true → len t ≤ len s
unfolding has_prefix
prefix-len s String.[] h = omega arith
prefix-len String.[] (String.◌∷◌ d t) h = absurd (ground (arith, h))
prefix-len (String.◌∷◌ c s) (String.◌∷◌ d t) h =
    let same = same_char c d (ground (arith, h)) in
    rw (len.cons c s, len.cons d t, same) (omega (arith, prefix-len s t (ground (arith, h))))

-- A text is as long as what it contains.
pub len-contains : (s t : String) → contains s t ≡ true → len t ≤ len s
unfolding contains
len-contains String.[] t h = prefix-len String.[] t h
len-contains (String.◌∷◌ c s) t h = elim (Bool-cases (has_prefix (String.◌∷◌ c s) t)) [
  | inl e ↦ prefix-len (String.◌∷◌ c s) t e
  | inr e ↦ rw (len.cons c s) (omega (arith, len-contains s t (ground (arith, h, e))))
]

pub has-append : (d : Char) (s t : String) → has d (s ++ t) ≡ has d s || has d t
unfolding has
has-append d String.[] t = rw (append.nil t) refl
has-append d (String.◌∷◌ c s) t = rw (append.cons c s t) (ground (arith, has-append d s t))

-- The text before the first place where the other stands.
abbrev onto_read : Char → Option String → Option String
onto_read c none = none
onto_read c (some s) = some (String.◌∷◌ c s)

unfoldable pub read_until : String → String → Option String
read_until t String.[] = if has_prefix String.[] t then some String.[] else none
read_until t (String.◌∷◌ c s) =
    let rest = onto_read c (read_until t s) in
    if has_prefix (String.◌∷◌ c s) t then some String.[] else rest

prefix_within :
    (d : Char) (y z t : String)
    → has d t ≡ false
    → has_prefix (y ++ String.◌∷◌ d z) t ≡ true
    → has_prefix y t ≡ true
unfolding has has_prefix
prefix_within d y z String.[] n h = refl
prefix_within d String.[] z (String.◌∷◌ e t) n h =
    let step = rw (append.nil (String.◌∷◌ d z)) at h in ground (arith, step, n)
prefix_within d (String.◌∷◌ c y) z (String.◌∷◌ e t) n h =
    let step = rw (append.cons c y (String.◌∷◌ d z)) at h in
    ground (arith, step, n, prefix_within d y z t (ground (arith, n)))

-- A text that does not contain the mark is read back in front of the first line that starts with
-- the mark, which has no line break itself.
pub read_until_mark :
    (d : Char) (s t rest : String)
    → has d t ≡ false
    → contains s t ≡ false
    → read_until (String.◌∷◌ d t) (s ++ String.◌∷◌ d (t ++ rest)) ≡ some s
unfolding read_until has_prefix contains
read_until_mark d String.[] t rest n h =
    rw (append.nil (String.◌∷◌ d (t ++ rest)), prefix-append t rest) (ground arith)
read_until_mark d (String.◌∷◌ c s) t rest n h =
    let later : contains s t ≡ false = ground (arith, h) in
    elim (Bool-cases (has_prefix (s ++ String.◌∷◌ d (t ++ rest)) t)) [
      | inl e ↦
          let there = contains_of_prefix s t (prefix_within d s (t ++ rest) t n e) in
          absurd (ground (arith, later, there))
      | inr e ↦
          rw (append.cons c s (String.◌∷◌ d (t ++ rest)), e, read_until_mark d s t rest n later)
            (ground arith)
    ]
