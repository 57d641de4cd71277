-- ===== src/Resource/Page/ListAll.antt =====
-- internal/resource/pagination.go: listing every page of a list lists the list.
use otf.Prelude.{
  ℕ, zero, suc, ◌+◌, ◌-◌, ◌*◌, ◌==◌, false, ◌^◌, ◌<◌, ◌≤◌, ◌≡◌, refl, arith, List, length, take,
  drop, none, some, Option, Result, ok, err, ℤ, pos, take-drop-append, take_all,
}
use otf.Resource.Page.{
  normalize, normal_number, max_page_size, Page, new_page, Panic, Fetch, total, list_from,
  list_page, list_next, list_all, new_pagination,
}
use otf.Resource.Page.Segments.{page_at_segment}

next_of_last :
    (k count : ℕ)
    → suc k ≡ total count max_page_size
    → (new_pagination (suc k) max_page_size count).next_page ≡ none
unfolding new_pagination
next_of_last k count t = ground (arith, t)

next_of_other :
    (d k count : ℕ)
    → suc k + suc d ≡ total count max_page_size
    → (new_pagination (suc k) max_page_size count).next_page ≡ some (suc (suc k))
unfolding new_pagination
next_of_other d k count t = ground (arith, t)

module _ {ℓ} {A : Type ℓ} where
  abbrev served : Result Panic (Page A) → Result Panic (Option (Page A))
  served (ok p) = ok (some p)
  served (err e) = err e

  -- A handler that answers with the pages of a list.
  unfoldable pub serve : List A → Fetch Panic A
  serve xs o = served (new_page xs o none)

  serve_page :
      (xs : List A) (n : ℤ) (k : ℕ)
      → normal_number n ≡ suc k
      → max_page_size * suc k < 2 ^ 63
      → serve xs (record { page_number = n; page_size = pos max_page_size })
        ≡ ok (
            some (record {
              items = take max_page_size (drop (max_page_size * k) xs);
              pagination = new_pagination (suc k) max_page_size (length xs);
            }))
  unfolding serve normalize
  serve_page xs n k e h = rw (e, page_at_segment xs k max_page_size h) refl

  -- From the page after k pages, with d more behind it.
  list_rest :
      (xs : List A) (d k : ℕ) (n : ℤ) (last : ℕ)
      → normal_number n ≡ suc k
      → last < suc (suc k)
      → suc k + d ≡ total (length xs) max_page_size
      → length xs < 2 ^ 62
      → list_from (serve xs) (suc d) n last (take (max_page_size * k) xs) ≡ some (ok xs)
  unfolding list_from list_page list_next
  list_rest xs zero k n last e l t b =
      let bound : max_page_size * suc k < 2 ^ 63 = ground (arith, t) in
      let whole : length xs ≤ max_page_size * k + max_page_size = ground (arith, t) in
      rw
        (
          serve_page xs n k e bound,
          next_of_last k (length xs) (omega (arith, t)),
          take-drop-append (max_page_size * k) max_page_size xs,
          take_all (max_page_size * k + max_page_size) xs whole,
        )
        refl
  list_rest xs (suc d) k n last e l t b =
      let bound : max_page_size * suc k < 2 ^ 63 = ground (arith, t) in
      let fresh : (suc (suc k) == last) ≡ false = ground arith in
      let more : max_page_size * k + max_page_size ≡ max_page_size * suc k = omega arith in
      rw
        (
          serve_page xs n k e bound,
          next_of_other d k (length xs) t,
          take-drop-append (max_page_size * k) max_page_size xs,
          fresh,
          more,
        )
        (list_rest xs d (suc k) (pos (suc (suc k))) (suc (suc k)) (ground arith) (omega arith)
          (omega (arith, t)) b)

  -- Listing all pages of a list, of which there are fewer than 2^62 items, ends with the list: it
  -- takes one request for each page, and neither a panic nor the guard against endless paging
  -- stops it.
  pub list_all-serve :
      (xs : List A)
      → length xs < 2 ^ 62
      → list_all (serve xs) (total (length xs) max_page_size) ≡ some (ok xs)
  unfolding list_all
  list_all-serve xs b =
      let d = total (length xs) max_page_size - 1 in
      let some_page : total (length xs) max_page_size ≡ suc d = ground arith in
      rw some_page (list_rest xs d 0 (pos 0) 0 refl (omega arith) (omega (arith, some_page)) b)
