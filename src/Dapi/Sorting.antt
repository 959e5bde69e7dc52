-- ===== src/Dapi/Sorting.antt =====
-- digital_asset_types/src/rpc/filter.rs: how assets are sorted.
use das.Prelude.{Option, Bool, true, false}

pub data AssetSortBy : Type 0 where
  id created updated recent_action none : AssetSortBy

pub data AssetSortDirection : Type 0 where
  asc desc : AssetSortDirection

pub record AssetSorting : Type 0 where
  pub sort_by : AssetSortBy
  pub sort_direction : Option AssetSortDirection

abbrev pub is_id : AssetSortBy → Bool
is_id AssetSortBy.id = true
is_id _ = false
