-- ===== src/Resource/Page.antt =====
-- internal/resource/pagination.go: the pages of a list. An `int` is a 64-bit word: a product is
-- written with its wrap-around, and a slice whose bound is negative is the panic that Go raises.
-- The number of pages is computed in the source by a floating point division and math.Ceil, which
-- is the exact quotient rounded up while the count is below 2^46: the quotient is then at least a
-- hundredth from the next whole number, which is more than the rounding.
pub mod Segments
pub mod ListAll
use otf.Prelude.{
  ℕ, zero, suc, ◌+◌, ◌-◌, ◌*◌, ◌/◌, ◌%◌, ◌^◌, ltb, leb, ◌==◌, if◌then◌else◌, Option, none, some,
  List, [], length, take, drop, ◌++◌, ℤ, pos, negsuc, pos_part, Result, ok, err,
}

abbrev pub default_page_size : ℕ
default_page_size = 20

abbrev pub max_page_size : ℕ
max_page_size = 100

pub record PageOptions : Type 0 where
  pub page_number : ℤ
  pub page_size : ℤ

pub record Pagination : Type 0 where
  pub current_page : ℕ
  pub previous_page : Option ℕ
  pub next_page : Option ℕ
  pub total_pages : ℕ
  pub total_count : ℕ

pub record Page {ℓ} (A : Type ℓ) : Type ℓ where
  pub items : List A
  pub pagination : Pagination

abbrev pub normal_number : ℤ → ℕ
normal_number (pos n) = if ltb n 1 then 1 else n
normal_number (negsuc n) = 1

abbrev pub normal_size : ℤ → ℕ
normal_size (pos n) =
    if n == 0 then default_page_size else if ltb max_page_size n then max_page_size else n
normal_size (negsuc n) = default_page_size

-- `Normalize`.
unfoldable pub normalize : PageOptions → PageOptions
normalize o = record {
  page_number = pos (normal_number o.page_number);
  page_size = pos (normal_size o.page_size);
}

abbrev pub max_of : ℕ → ℕ → ℕ
max_of a b = if ltb a b then b else a

-- The least number of pages that hold the count, and at least one.
abbrev pub total : ℕ → ℕ → ℕ
total count size = max_of 1 ((count + (size - 1)) / size)

-- `newPagination`, given the number and the size after `Normalize`.
unfoldable pub new_pagination : ℕ → ℕ → ℕ → Pagination
new_pagination number size count = record {
  current_page = number;
  previous_page = if ltb 1 number then some (number - 1) else none;
  next_page = if ltb number (total count size) then some (number + 1) else none;
  total_pages = total count size;
  total_count = count;
}

pub data Panic : Type 0 where
  slice_bounds : Panic

-- The integer that a 64-bit word stands for, and the product of two words.
abbrev pub signed64 : ℕ → ℤ
signed64 w = if ltb w (2 ^ 63) then pos w else negsuc (2 ^ 64 - w - 1)

abbrev pub mul64 : ℕ → ℕ → ℤ
mul64 a b = signed64 ((a * b) % 2 ^ 64)

module _ {ℓ} {A : Type ℓ} where
  -- Remove the items behind the page: `resources[:end]` if the list is longer than `end`.
  unfoldable pub cut_end : List A → ℤ → Result Panic (List A)
  cut_end xs (pos e) = if ltb e (length xs) then ok (take e xs) else ok xs
  cut_end xs (negsuc e) = err slice_bounds

  -- Remove the items in front of it: nothing is left if `start` is out of range.
  unfoldable pub cut_start : List A → ℤ → Result Panic (List A)
  cut_start xs (pos s) = if ltb (length xs) s then ok [] else ok (drop s xs)
  cut_start xs (negsuc s) = err slice_bounds

  abbrev page_with : Pagination → Result Panic (List A) → Result Panic (Page A)
  page_with p (ok xs) = ok (record { items = xs; pagination = p })
  page_with p (err e) = err e

  abbrev start_of : Result Panic (List A) → ℤ → Result Panic (List A)
  start_of (ok xs) s = cut_start xs s
  start_of (err e) s = err e

  -- `NewPage`, given the number and the size after `Normalize`.
  unfoldable pub page_at : List A → ℕ → ℕ → Option ℕ → Result Panic (Page A)
  page_at xs number size none =
      page_with (new_pagination number size (length xs))
        (start_of (cut_end xs (mul64 size number)) (mul64 size (number - 1)))
  page_at xs number size (some count) = page_with (new_pagination number size count) (ok xs)

  -- `NewPage`.
  abbrev pub new_page : List A → PageOptions → Option ℕ → Result Panic (Page A)
  new_page xs o count =
      page_at xs (pos_part (normalize o).page_number) (pos_part (normalize o).page_size) count

pub data ListError {ℓ} (E : Type ℓ) : Type ℓ where
  failed : E → ListError E
  infinite_pagination : ListError E

-- A page that is nil, or whose items are nil, is `none`.
abbrev pub Fetch {ℓ κ} : Type ℓ → Type κ → Type (ℓ ⊔ κ)
Fetch E A = PageOptions → Result E (Option (Page A))

-- What `ListAll` returns; `none` is an exhausted fuel.
abbrev pub Listed {ℓ κ} : Type ℓ → Type κ → Type (ℓ ⊔ κ)
Listed E A = Option (Result (ListError E) (List A))

module _ {ℓ κ} {E : Type ℓ} {A : Type κ} where
  -- The end of a round of `ListAll`: `again` is the next round, for the page that is named and all
  -- that has been listed.
  unfoldable pub list_next : (ℕ → List A → Listed E A) → ℕ → List A → Option ℕ → Listed E A
  list_next again last all none = some (ok all)
  list_next again last all (some next) =
      let rest = again next all in if next == last then some (err infinite_pagination) else rest

  unfoldable pub list_page :
      (ℕ → List A → Listed E A) → ℕ → List A → Result E (Option (Page A)) → Listed E A
  list_page again last all (err e) = some (err (failed e))
  list_page again last all (ok none) = some (ok all)
  list_page again last all (ok (some p)) =
      list_next again last (all ++ p.items) p.pagination.next_page

  -- The loop of `ListAll` on fuel, one for each call of `fn`. The page
  -- number, the last next page, and all that has been listed are its variables.
  unfoldable pub list_from : Fetch E A → ℕ → ℤ → ℕ → List A → Listed E A
  list_from fn zero number last all = none
  list_from fn (suc fuel) number last all =
      list_page (λ next. list_from fn fuel (pos next) next) last all
        (fn (record { page_number = number; page_size = pos max_page_size }))

  -- `ListAll`.
  unfoldable pub list_all : Fetch E A → ℕ → Listed E A
  list_all fn fuel = list_from fn fuel (pos 0) 0 []
