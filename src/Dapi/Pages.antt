-- ===== src/Dapi/Pages.antt =====
-- digital_asset_types/src/dao/mod.rs (PageOptions, Cursor, Pagination), `create_pagination` of
-- dapi/common/asset.rs, and `paginate` of dao/scopes/asset.rs on the rows of a query.
pub mod Walk
use das.Prelude.{
  ℕ, zero, suc, ◌-◌, ◌*◌, Bool, true, false, Option, none, some, List, [], ◌∷◌, ltb, filter,
  if◌then◌else◌,
}
use das.Dapi.Sorting.{AssetSortBy, AssetSortDirection, AssetSorting}

-- A key is a byte vector.
abbrev pub Bytes : Type 0
Bytes = List ℕ

pub record Cursor : Type 0 where
  pub id : Option Bytes

pub record PageOptions : Type 0 where
  pub limit : ℕ
  pub page : Option ℕ
  pub before : Option Bytes
  pub after : Option Bytes
  pub cursor : Option Cursor

pub data Pagination : Type 0 where
  keyset : Option Bytes → Option Bytes → Pagination
  page : ℕ → Pagination
  cursor : Cursor → Pagination

-- `none` is the error "Invalid Pagination".
abbrev pub pagination_of : Option Bytes → Option Bytes → Option ℕ → Option Pagination
pagination_of before after none = some (Pagination.keyset before after)
pagination_of none none (some p) = some (Pagination.page p)
pagination_of _ _ (some p) = none

abbrev pub or_cursor : Option Cursor → Option Pagination → Option Pagination
or_cursor none other = other
or_cursor (some c) other = some (Pagination.cursor c)

unfoldable pub create_pagination : PageOptions → Option Pagination
create_pagination o = or_cursor o.cursor (pagination_of o.before o.after o.page)

pub data Order : Type 0 where
  asc desc : Order

-- The columns of `asset` that a sorting may ask for.
pub data SortColumn : Type 0 where
  id created_at slot_updated : SortColumn

abbrev pub sort_column : AssetSortBy → Option SortColumn
sort_column AssetSortBy.id = some SortColumn.id
sort_column AssetSortBy.created = some SortColumn.created_at
sort_column AssetSortBy.updated = some SortColumn.slot_updated
sort_column AssetSortBy.recent_action = some SortColumn.slot_updated
sort_column AssetSortBy.none = none

abbrev pub sort_order : Option AssetSortDirection → Order
sort_order none = Order.desc
sort_order (some AssetSortDirection.asc) = Order.asc
sort_order (some AssetSortDirection.desc) = Order.desc

pub create_sorting : AssetSorting → Order × Option SortColumn
create_sorting s = (sort_order s.sort_direction, sort_column s.sort_by)

abbrev pub take : {A : Type 0} → ℕ → List A → List A
take zero xs = []
take (suc n) [] = []
take (suc n) (x ∷ xs) = x ∷ take n xs

abbrev pub drop : {A : Type 0} → ℕ → List A → List A
drop zero xs = xs
drop (suc n) [] = []
drop (suc n) (x ∷ xs) = drop n xs

-- The rows of the statement in its order, by a column of byte vectors; `below` is the order that
-- the database has on them.
module _ {R : Type 0} (column : R → Bytes) (below : Bytes → Bytes → Bool) where
  abbrev pub below_key : Option Bytes → List R → List R
  below_key none rows = rows
  below_key (some b) rows = filter (λ r. below (column r) b) rows

  abbrev pub above_key : Option Bytes → List R → List R
  above_key none rows = rows
  above_key (some a) rows = filter (λ r. below a (column r)) rows

  -- The default cursor filters nothing.
  abbrev pub beyond : Order → Option Bytes → List R → List R
  beyond Order.asc key rows = above_key key rows
  beyond Order.desc key rows = below_key key rows

  -- `if *page > 0 { offset((page - 1) * limit) }`
  abbrev pub skip_pages : ℕ → ℕ → List R → List R
  skip_pages n limit rows = if ltb 0 n then drop ((n - 1) * limit) rows else rows

  abbrev pub selected : Pagination → ℕ → Order → List R → List R
  selected (Pagination.keyset before after) limit order rows =
      above_key after (below_key before rows)
  selected (Pagination.page p) limit order rows = skip_pages p limit rows
  selected (Pagination.cursor c) limit order rows = beyond order c.id rows

  unfoldable pub paginate : Pagination → ℕ → Order → List R → List R
  paginate pagination limit order rows = take limit (selected pagination limit order rows)
