-- ===== src/Variable/Terraform.antt =====
-- internal/variable/variable.go: the text that a run appends to terraform.tfvars. The file itself
-- is not part of the model.
pub mod Heredoc
use Prim.Native.Char.{Char}
use Prim.Native.String.{◌++◌, len}
use otf.Prelude.{
  ℕ, zero, suc, String, Bool, true, false, Option, none, some, List, [], ◌∷◌, if◌then◌else◌,
}
use otf.Prelude.TextSearch.{contains}
use otf.Variable.{Variable, VariableCategory, terraform_category, env_category, other_category}

abbrev pub newline : Char
newline = "\n"

-- The loop on fuel that makes a delimiter longer until the value does not contain it; `none` is an
-- exhausted fuel.
unfoldable pub find_delimiter : ℕ → String → String → Option String
find_delimiter zero value delimiter = if contains value delimiter then none else some delimiter
find_delimiter (suc fuel) value delimiter =
    let longer = find_delimiter fuel value (delimiter ++ "T") in
    if contains value delimiter then longer else some delimiter

abbrev pub heredoc : String → Option String → Option String
heredoc value none = none
heredoc value (some delimiter) =
    some ("<<" ++ (delimiter ++ ("\n" ++ (value ++ ("\n" ++ delimiter)))))

-- The value as it is written: as it stands in HCL mode, as a heredoc if it has several lines, and
-- else in quotes. Each round of the loop lengthens the delimiter by a byte, so the length of the
-- value is enough fuel.
unfoldable pub write_value : Variable → Option String
write_value v =
    if v.hcl
    then some v.value
    else if contains v.value "\n"
    then heredoc v.value (find_delimiter (len v.value) v.value "EOT")
    else some ("\"" ++ (v.value ++ "\""))

abbrev pub onto_line : String → Option String → Option String → Option String
onto_line key (some value) (some rest) = some (key ++ (" = " ++ (value ++ ("\n" ++ rest))))
onto_line key _ _ = none

abbrev pub write_by : VariableCategory → Variable → Option String → Option String
write_by terraform_category v rest = onto_line v.key (write_value v) rest
write_by env_category v rest = rest
write_by (other_category c) v rest = rest

abbrev pub write_lines : List Variable → Option String
write_lines [] = some ""
write_lines (v ∷ vs) = write_by v.category v (write_lines vs)

abbrev pub after_newline : Option String → Option String
after_newline none = none
after_newline (some s) = some ("\n" ++ s)

-- `WriteTerraformVars`.
abbrev pub write_terraform_vars : List Variable → Option String
write_terraform_vars vs = after_newline (write_lines vs)
