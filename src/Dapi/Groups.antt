-- ===== src/Dapi/Groups.antt =====
-- The rows of `asset_grouping` whose key is "group": `filter_out_stale_asset_groupings` of
-- digital_asset_types/src/dao/scopes/asset.rs, which reads them, and the statements of
-- program_transformers/src/mpl_core_program/v1_asset.rs that write them.
pub mod Reaches
pub mod Newest
use das.Prelude.{
  ℕ, ℤ, pos, Bool, true, false, ◌&&◌, ◌||◌, not, Option, none, some, List, [], ◌∷◌, filter, ◌==◌,
  eqb_ℤ, is_some, if◌then◌else◌,
}
use das.Database.{Pubkey, AssetData, at_least}

pub data GroupKey : Type 0 where
  collection group : GroupKey

-- The value is the text of a pubkey, here the pubkey. The serial id and `seq` are not read.
pub record Grouping : Type 0 where
  pub asset_id : Pubkey
  pub group_key : GroupKey
  pub group_value : Option Pubkey
  pub slot_updated : Option ℤ
  pub verified : Bool
  pub group_info_seq : Option ℤ

abbrev pub is_group : GroupKey → Bool
is_group collection = false
is_group group = true

abbrev pub eq_slot : Option ℤ → Option ℤ → Bool
eq_slot none none = true
eq_slot (some a) (some b) = eqb_ℤ a b
eq_slot _ _ = false

-- The greatest `slot_updated` of the groups, if there is a group; `None` is below the others.
abbrev pub newer : Option (Option ℤ) → Option ℤ → Option (Option ℤ)
newer none slot = some slot
newer (some best) slot = some (if at_least best slot then best else slot)

abbrev pub max_slot_updated :
    Option (Option ℤ) → List (Grouping × Option AssetData) → Option (Option ℤ)
max_slot_updated best [] = best
max_slot_updated best ((g, d) ∷ gs) =
    max_slot_updated (if is_group g.group_key then newer best g.slot_updated else best) gs

abbrev pub is_current : Option ℤ → Grouping × Option AssetData → Bool
is_current newest (g, d) =
    not (is_group g.group_key) || (eq_slot g.slot_updated newest && is_some g.group_value)

abbrev pub retain_current :
    Option (Option ℤ) → List (Grouping × Option AssetData) → List (Grouping × Option AssetData)
retain_current none gs = gs
retain_current (some newest) gs = filter (is_current newest) gs

unfoldable pub filter_out_stale_asset_groupings :
    List (Grouping × Option AssetData) → List (Grouping × Option AssetData)
filter_out_stale_asset_groupings gs = retain_current (max_slot_updated none gs) gs

abbrev pub eq_value : Option Pubkey → Option Pubkey → Bool
eq_value none none = true
eq_value (some a) (some b) = a == b
eq_value _ _ = false

abbrev pub group_row : Pubkey → Option Pubkey → ℤ → Grouping
group_row id value slot = record {
  asset_id = id;
  group_key = group;
  group_value = value;
  slot_updated = some slot;
  verified = true;
  group_info_seq = some (pos 0);
}

abbrev pub set_group : ℤ → Grouping → Grouping
set_group slot r = record r {
  slot_updated = some slot;
  verified = true;
  group_info_seq = some (pos 0);
}

-- One value, or null, on the groups of one asset: the two partial indices make a value's row unique,
-- and that of null.
unfoldable pub put_group : Pubkey → Option Pubkey → ℤ → List Grouping → List Grouping
put_group id value slot [] = group_row id value slot ∷ []
put_group id value slot (r ∷ rows) =
    let rest = put_group id value slot rows in
    if eq_value r.group_value value
    then (if at_least (some slot) r.slot_updated then set_group slot r ∷ rows else r ∷ rows)
    else r ∷ rest

unfoldable pub put_each_group : Pubkey → List Pubkey → ℤ → List Grouping → List Grouping
put_each_group id [] slot rows = rows
put_each_group id (v ∷ vs) slot rows = put_each_group id vs slot (put_group id (some v) slot rows)

-- No group at all is a row of null. The values of one statement are distinct.
unfoldable pub put_groups : Pubkey → List Pubkey → ℤ → List Grouping → List Grouping
put_groups id [] slot rows = put_group id none slot rows
put_groups id (v ∷ vs) slot rows = put_each_group id (v ∷ vs) slot rows
