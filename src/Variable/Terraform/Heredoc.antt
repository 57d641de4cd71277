-- ===== src/Variable/Terraform/Heredoc.antt =====
-- internal/variable/variable.go: the delimiter of a heredoc.
use Prim.Native.String.{◌++◌, len}
use text.Mathlib.TextPositions.{len-append}
use otf.Prelude.{
  ℕ, zero, suc, ◌+◌, ◌<◌, ◌≡◌, refl, String, true, false, some, List, [], ◌∷◌, Bool-cases, inl, inr,
  arith,
}
use otf.Prelude.Text.{has}
use otf.Prelude.TextSearch.{contains, has-append, len-contains, read_until, read_until_mark}
use otf.Variable.{Variable, VariableCategory, terraform_category, env_category, other_category}
use otf.Variable.Terraform.{
  newline, find_delimiter, heredoc, write_value, write_by, write_lines, write_terraform_vars,
}

-- With fuel for the bytes that the value has more than the delimiter, the loop ends, with a
-- delimiter of one line that the value does not contain.
delimiter_found :
    (fuel : ℕ) (value delimiter : String)
    → len value < len delimiter + fuel
    → has newline delimiter ≡ false
    → (d : String) × (find_delimiter fuel value delimiter ≡ some d)
      × (contains value d ≡ false)
      × (has newline d ≡ false)
unfolding find_delimiter has
delimiter_found zero value delimiter h l = elim (Bool-cases (contains value delimiter)) [
  | inl e ↦ absurd (omega (arith, len-contains value delimiter e))
  | inr e ↦ (delimiter, rw e refl, e, l)
]
delimiter_found (suc fuel) value delimiter h l = elim (Bool-cases (contains value delimiter)) [
  | inl e ↦
      let (d, found, free, line) =
        delimiter_found fuel value (delimiter ++ "T") (omega (arith, len-append delimiter "T"))
          (rw (has-append newline delimiter "T", l) refl) in
      (d, rw e found, free, line)
  | inr e ↦ (delimiter, rw e refl, e, l)
]

value_delimiter :
    (v : String)
    → (d : String) × (find_delimiter (len v) v "EOT" ≡ some d)
      × (contains v d ≡ false)
      × (has newline d ≡ false)
unfolding has
value_delimiter v = delimiter_found (len v) v "EOT" (omega arith) refl

heredoc_value :
    (value : String)
    → (s : String) × (heredoc value (find_delimiter (len value) value "EOT") ≡ some s)
heredoc_value value =
    let (d, found, free, line) = value_delimiter value in
    ("<<" ++ (d ++ ("\n" ++ (value ++ ("\n" ++ d)))), rw found refl)

write_value-some : (v : Variable) → (s : String) × (write_value v ≡ some s)
unfolding write_value
write_value-some v = elim (Bool-cases v.hcl) [
  | inl h ↦ (v.value, rw h refl)
  | inr h ↦ elim (Bool-cases (contains v.value "\n")) [
    | inl m ↦ let (s, e) = heredoc_value v.value in (s, rw (h, m, e) refl)
    | inr m ↦ ("\"" ++ (v.value ++ "\""), rw (h, m) refl)
  ]
]

write_by-some :
    (c : VariableCategory) (v : Variable) (rest : String)
    → (s : String) × (write_by c v (some rest) ≡ some s)
write_by-some terraform_category v rest =
    let (s, e) = write_value-some v in (v.key ++ (" = " ++ (s ++ ("\n" ++ rest))), rw e refl)
write_by-some env_category v rest = (rest, refl)
write_by-some (other_category c) v rest = (rest, refl)

write_lines-some : (vs : List Variable) → (s : String) × (write_lines vs ≡ some s)
write_lines-some [] = ("", refl)
write_lines-some (v ∷ vs) =
    let (rest, e) = write_lines-some vs in
    let (s, f) = write_by-some v.category v rest in (s, rw e f)

-- Writing the variables for terraform ends for every list of variables: the search for a delimiter
-- takes at most as many rounds as the value has bytes.
pub write_terraform_vars_ends :
    (vs : List Variable) → (s : String) × (write_terraform_vars vs ≡ some s)
write_terraform_vars_ends vs = let (s, e) = write_lines-some vs in ("\n" ++ s, rw e refl)

-- A value of several lines that is not in HCL mode is written between a line with a delimiter and
-- the delimiter, and read back as it is by whoever reads up to the first line that starts with the
-- delimiter, whatever follows.
pub write_value-read_until :
    (v : Variable)
    → v.hcl ≡ false
    → contains v.value "\n" ≡ true
    → (d : String) × (write_value v ≡ some ("<<" ++ (d ++ ("\n" ++ (v.value ++ ("\n" ++ d))))))
      × ((rest : String)
          → read_until (String.◌∷◌ newline d) (v.value ++ String.◌∷◌ newline (d ++ rest))
            ≡ some v.value)
unfolding write_value
write_value-read_until v h m =
    let (d, found, free, line) = value_delimiter v.value in
    (d, rw (h, m, found) refl, λ rest. read_until_mark newline v.value d rest line free)
