-- ===== src/Examples/Pages.antt =====
-- Four rows with the keys 1 to 4, in pages of two, and requests for a page.
use das.Prelude.{ℕ, ◌≡◌, ◌≤◌, refl, Bool, false, none, some, List, [], ◌∷◌, ltb}
use das.Dapi.Pages.{Bytes, PageOptions, Pagination, Order, paginate, create_pagination}
use das.Dapi.Pages.Walk.{paginate_cursor}
use das.Api.Pagination.{validate_pagination, validate_pubkey}
use das.Api.Pagination.Accepted.{validate_pagination-create_pagination}

abbrev key : ℕ → Bytes
key n = n ∷ []

abbrev below : Bytes → Bytes → Bool
below (a ∷ []) (b ∷ []) = ltb a b
below _ _ = false

abbrev rows : List ℕ
rows = 1 ∷ (2 ∷ (3 ∷ (4 ∷ [])))

paginate_cursor_example :
    paginate key below (Pagination.cursor (record { id = some (2 ∷ []) })) 2 Order.asc rows
    ≡ paginate key below (Pagination.page 2) 2 Order.asc rows
paginate_cursor_example =
    paginate_cursor key below Order.asc 2 1 (1 ∷ []) (3 ∷ (4 ∷ [])) 2 (refl, tt) refl
      (refl, (refl, tt)) refl

abbrev options : PageOptions
options = record {
  limit = 1_000;
  page = none;
  before = some (65 ∷ []);
  after = none;
  cursor = none;
}

validate_pagination-create_pagination_example :
    (options.limit ≤ 1_000)
    × (create_pagination options ≡ some (Pagination.keyset (some (65 ∷ [])) none))
unfolding validate_pagination validate_pubkey
validate_pagination-create_pagination_example =
    validate_pagination-create_pagination some some (λ t k h. h) none none (some (65 ∷ [])) none
      none none options refl
