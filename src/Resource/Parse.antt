-- ===== src/Resource/Parse.antt =====
-- internal/resource/tfe_id.go: the text of an identifier, read back. A kind that is read may be any
-- text, so what is read is a pair of texts.
pub mod RoundTrip
use Prim.Native.Char.{Char}
use Prim.Native.String.{◌++◌, len}
use otf.Prelude.{
  ℕ, zero, suc, ◌%◌, String, List, [], ◌∷◌, Option, none, some, Result, ok, err, ltb, ◌==◌,
  if◌then◌else◌, length, get_elem?,
}
use otf.Prelude.Text.{split}
use otf.Resource.{Kind, TfeId}

pub record RawId : Type 0 where
  pub kind : String
  pub id : String

pub data IdError : Type 0 where
  malformed short_kind short_suffix not_a_string : IdError

abbrev pub dash : Char
dash = "-"

abbrev pub checked : String → String → Result IdError RawId
checked kind id =
    if ltb (len kind) 2
    then err short_kind
    else if ltb (len id) 1
    then err short_suffix
    else ok (record { kind = kind; id = id })

abbrev pub of_parts : List String → Result IdError RawId
of_parts (kind ∷ id ∷ []) = checked kind id
of_parts _ = err malformed

-- `ParseTfeID` and `String`.
unfoldable pub parse_tfe_id : String → Result IdError RawId
parse_tfe_id s = of_parts (split dash s)

abbrev pub raw_string : RawId → String
raw_string r = r.kind ++ String.◌∷◌ dash r.id

abbrev pub assign : RawId → Result IdError RawId → RawId × Option IdError
assign r (ok x) = (x, none)
assign r (err e) = (r, some e)

-- `UnmarshalText`: the receiver after the call, and the error.
unfoldable pub unmarshal_text : RawId → String → RawId × Option IdError
unmarshal_text r s = if len s == 0 then (r, none) else assign r (parse_tfe_id s)

-- A value of the database: nil, a string, or a value of another type.
pub data DbValue : Type 0 where
  null : DbValue
  text : String → DbValue
  other : DbValue

-- `Scan`.
unfoldable pub scan : RawId → DbValue → RawId × Option IdError
scan r null = (r, none)
scan r (text s) = assign r (parse_tfe_id s)
scan r other = (r, some not_a_string)

abbrev pub letters : String → List Char
letters String.[] = []
letters (String.◌∷◌ c s) = c ∷ letters s

abbrev pub base58 : List Char
base58 = letters "123456789ABCDEFGHJKLMNPQRSTUVWXYZabcdefghijkmnopqrstuvwxyz"

abbrev pub write_letter : Option Char → String → String
write_letter none s = s
write_letter (some c) s = String.◌∷◌ c s

-- `GenerateRandomStringFromAlphabet`: the draws are the numbers that rand.Intn reduces to an index.
unfoldable pub random_string : (ℕ → ℕ) → ℕ → List Char → String
random_string draw zero alphabet = ""
random_string draw (suc n) alphabet =
    write_letter (get_elem? alphabet (draw n % length alphabet)) (random_string draw n alphabet)

-- `NewTfeID` and `ConvertTfeID`.
unfoldable pub new_tfe_id : (ℕ → ℕ) → Kind → TfeId
new_tfe_id draw kind = record { kind = kind; id = random_string draw 16 base58 }

abbrev pub convert : TfeId → Kind → TfeId
convert i to = record { kind = to; id = i.id }
