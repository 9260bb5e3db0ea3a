-- ===== src/Common/Examples.antt =====
-- Pages of a list of five rows.
use vielhome_backend.Base.{ℕ, ◌≡◌, ◌≤◌, List, [], ◌∷◌, arith, length, none, some}
use vielhome_backend.Base.Int.{pos}
use vielhome_backend.Common.Pagination.{
  PaginationParams, parse_pagination, build_pagination_meta, pages_from, all_pages,
  parse_pagination_bounds, max_page_limit,
}

abbrev rows : List ℕ
rows = 1 ∷ 2 ∷ 3 ∷ 4 ∷ 5 ∷ []

abbrev by_two : PaginationParams
by_two = record { page = 1; limit = 2 }

all_pages_example :
    pages_from 1 2 (build_pagination_meta by_two (length rows)).total_pages rows ≡ rows
all_pages_example = all_pages by_two rows (omega arith)

parse_pagination_bounds_example :
    (1 ≤ (parse_pagination none (some (pos 500))).page)
    × (1 ≤ (parse_pagination none (some (pos 500))).limit)
    × ((parse_pagination none (some (pos 500))).limit ≤ max_page_limit)
parse_pagination_bounds_example = parse_pagination_bounds none (some (pos 500))
