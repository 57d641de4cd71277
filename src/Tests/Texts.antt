-- ===== src/Tests/Texts.antt =====
-- Pages, identifiers and names of repositories at concrete inputs.
use otf.Prelude.{
  ℕ, ◌≡◌, ◌↔◌, ◌≤◌, ◌*◌, ◌-◌, ◌^◌, refl, some, none, [], ◌∷◌, ok, err, List, pos, ltb, length, take,
  drop, is_some, arith,
}
use otf.Prelude.Text.{split, split_last}
use otf.Resource.{run_kind}
use otf.Resource.Page.{
  PageOptions, Page, new_page, list_all, total, max_page_size, normal_size, page_at, slice_bounds,
  cut_end,
}
use otf.Resource.Page.Segments.{new_page-segment}
use otf.Resource.Page.ListAll.{serve, list_all-serve}
use otf.Resource.Parse.{
  RawId, parse_tfe_id, raw_string, new_tfe_id, random_string, malformed, short_kind, short_suffix,
}
use otf.Resource.Parse.RoundTrip.{IsWellFormed, parse_tfe_id_iff}
use otf.Vcs.{Repo, new_repo_from_string, invalid_repo}

abbrev five : List ℕ
five = 1 ∷ 2 ∷ 3 ∷ 4 ∷ 5 ∷ []

abbrev second_page : PageOptions
second_page = record { page_number = pos 2; page_size = pos 2 }

new_page-segment_example :
    (p : Page ℕ) × (new_page five second_page none ≡ ok p)
    × (p.items ≡ take (normal_size (pos 2)) (drop (normal_size (pos 2) * 1) five))
    × (length p.items ≤ max_page_size)
    × (is_some p.pagination.previous_page ≡ ltb 0 1)
    × (is_some p.pagination.next_page ≡ ltb (normal_size (pos 2) * 2) (length five))
new_page-segment_example = new_page-segment five second_page 1 refl (omega arith)

list_all-serve_example : list_all (serve five) (total (length five) max_page_size) ≡ some (ok five)
list_all-serve_example = list_all-serve five (omega arith)

-- The largest page number of an int overflows the offset, and the slice panics.
far_page : page_at five (2 ^ 63 - 1) 20 none ≡ err slice_bounds
unfolding page_at cut_end
far_page = refl

abbrev run_123 : RawId
run_123 = record { kind = "run"; id = "123" }

parse_tfe_id_iff_example :
    (parse_tfe_id "run-123" ≡ ok run_123)
    ↔ ((raw_string run_123 ≡ "run-123") × IsWellFormed run_123)
parse_tfe_id_iff_example = parse_tfe_id_iff "run-123" run_123

abbrev always_seven : ℕ → ℕ
always_seven n = 7

made_up : (new_tfe_id always_seven run_kind).id ≡ "8888888888888888"
unfolding new_tfe_id random_string
made_up = refl

malformed_ids :
    (parse_tfe_id "run" ≡ err malformed)
    × (parse_tfe_id "run-1-2" ≡ err malformed)
    × (parse_tfe_id "r-1" ≡ err short_kind)
    × (parse_tfe_id "run-" ≡ err short_suffix)
unfolding parse_tfe_id split
malformed_ids = (refl, refl, refl, refl)

abbrev otf_repo : Repo
otf_repo = record { owner = "groups/leg100"; name = "otf" }

repo_texts :
    (new_repo_from_string "leg100" ≡ err invalid_repo)
    × (new_repo_from_string "leg100/" ≡ err invalid_repo)
    × (new_repo_from_string "/otf" ≡ ok (record { owner = ""; name = "otf" }))
unfolding new_repo_from_string split_last
repo_texts = (refl, refl, refl)
