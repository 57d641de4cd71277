-- ===== src/Resource/Page/Segments.antt =====
-- internal/resource/pagination.go: a page is the segment of the list that its number names.
use native.Mathlib.Nat.{le-div_iff_mul-le}
use otf.Prelude.{
  is_some, ℕ, zero, suc, ◌+◌, ◌-◌, ◌*◌, ◌^◌, ◌≤◌, ◌<◌, ◌≡◌, refl, arith, List, [], ◌∷◌, length,
  take, drop, none, ok, pos, length-take, take_all, drop-take, ltb, Bool-cases, inl, inr, ℤ, negsuc,
}
use otf.Resource.Page.{
  PageOptions, total, normalize, normal_number, normal_size, max_page_size, Page, page_at, new_page,
  new_pagination, cut_end, cut_start, mul64,
}

module _ {ℓ} {A : Type ℓ} where
  cut_end-take : (xs : List A) (e : ℕ) → cut_end xs (pos e) ≡ ok (take e xs)
  unfolding cut_end
  cut_end-take xs e = elim (Bool-cases (ltb e (length xs))) [
    | inl h ↦ rw h refl
    | inr h ↦ rw (h, take_all e xs (ground (arith, h))) refl
  ]

  drop_all : (n : ℕ) (xs : List A) → length xs ≤ n → drop n xs ≡ []
  drop_all zero [] h = refl
  drop_all zero (x ∷ xs) h = absurd (omega arith)
  drop_all (suc n) [] h = refl
  drop_all (suc n) (x ∷ xs) h = drop_all n xs (omega arith)

  cut_start-drop : (xs : List A) (s : ℕ) → cut_start xs (pos s) ≡ ok (drop s xs)
  unfolding cut_start
  cut_start-drop xs s = elim (Bool-cases (ltb (length xs) s)) [
    | inl h ↦ rw (h, drop_all s xs (ground (arith, h))) refl
    | inr h ↦ rw h refl
  ]

mul64_small : (a b : ℕ) → a * b < 2 ^ 63 → mul64 a b ≡ pos (a * b)
mul64_small a b h = ground arith

number_pos : (n : ℤ) → 1 ≤ normal_number n
number_pos (pos n) = ground arith
number_pos (negsuc n) = omega arith

size_pos : (n : ℤ) → 1 ≤ normal_size n
size_pos (pos n) = ground arith
size_pos (negsuc n) = omega arith

size_le : (n : ℤ) → normal_size n ≤ max_page_size
size_le (pos n) = ground arith
size_le (negsuc n) = omega arith

module _ {ℓ} {A : Type ℓ} where
  pub page_at_segment :
      (xs : List A) (k size : ℕ)
      → size * suc k < 2 ^ 63
      → page_at xs (suc k) size none
        ≡ ok (record {
          items = take size (drop (size * k) xs);
          pagination = new_pagination (suc k) size (length xs);
        })
  unfolding page_at
  page_at_segment xs k size h =
      let end : size * suc k ≡ size * k + size = grind arith in
      let before : suc k - 1 ≡ k = omega arith in
      let start : size * k < 2 ^ 63 = omega (arith, end, h) in
      rw
        (
          before,
          mul64_small size (suc k) h,
          mul64_small size k start,
          cut_end-take xs (size * suc k),
          cut_start-drop (take (size * suc k) xs) (size * k),
          end,
          drop-take (size * k) size xs,
        )
        refl

-- A page has one behind it when the pages so far do not hold every item.
total_gt : (k size count : ℕ) → 1 ≤ size → ltb (suc k) (total count size) ≡ ltb (size * suc k) count
total_gt k size count h =
    let quotient = le-div_iff_mul-le {k = size} {x = suc k + 1} {y = count + (size - 1)} h in
    let product : (suc k + 1) * size ≡ size * suc k + size = grind arith in
    ground (arith, quotient, product)

module _ {ℓ} {A : Type ℓ} where
  -- A page of a list, of which the number and the size of the options make up an offset that fits
  -- an int, is the segment of the list that they name: it has at most a hundred items, a page is in
  -- front of it just when it is not the first, and a page is behind it just when items are left
  -- behind it.
  pub new_page-segment :
      (xs : List A) (o : PageOptions) (k : ℕ)
      → normal_number o.page_number ≡ suc k
      → normal_size o.page_size * suc k < 2 ^ 63
      → (p : Page A) × (new_page xs o none ≡ ok p)
        × (p.items ≡ take (normal_size o.page_size) (drop (normal_size o.page_size * k) xs))
        × (length p.items ≤ max_page_size)
        × (is_some p.pagination.previous_page ≡ ltb 0 k)
        × (is_some p.pagination.next_page ≡ ltb (normal_size o.page_size * suc k) (length xs))
  unfolding normalize new_pagination
  new_page-segment xs o k e h =
      let size = normal_size o.page_size in
      let items = take size (drop (size * k) xs) in
      (
        record { items = items; pagination = new_pagination (suc k) size (length xs) },
        rw e (page_at_segment xs k size h),
        refl,
        omega (arith, length-take size (drop (size * k) xs), size_le o.page_size),
        ground arith,
        ground (arith, total_gt k size (length xs) (size_pos o.page_size)),
      )
