-- ===== src/Bubblegum/Upserts/Related.antt =====
-- program_transformers/src/bubblegum/db.rs: the upserts of `asset_data`, `asset_grouping`,
-- `asset_creators` and `asset_authority`.
use das.Prelude.{
  ℕ, ℤ, pos, true, false, Option, none, some, List, [], ◌∷◌, ◌+◌, ◌%◌, ◌==◌, as_i16, if◌then◌else◌,
}
use das.Database.{
  Pubkey, AssetData, AssetCreator, CollectionGroup, AssetAuthority, AssetTables, Action,
  execute_assets, storage_write_error, asset_index_error, upsert, alter, newer_or_null,
}
use das.Bubblegum.Types.{Crates, Creator, Collection}

pub asset_data_row : AssetData → ℤ → Option AssetData → Option AssetData
asset_data_row new s =
    upsert new (λ r. record new { metadata = r.metadata }) λ r. newer_or_null s r.base_info_seq

pub collection_row : CollectionGroup → ℤ → Option CollectionGroup → Option CollectionGroup
collection_row new s = upsert new (λ r. new) λ r. newer_or_null s r.group_info_seq

pub creator_row : AssetCreator → ℤ → Option AssetCreator → Option AssetCreator
creator_row new s = upsert new (λ r. new) λ r. newer_or_null s r.seq

-- `ON CONFLICT (asset_id) DO NOTHING`
unfoldable pub authority_row : AssetAuthority → Option AssetAuthority → Option AssetAuthority
authority_row new = upsert new (λ r. r) λ r. true

module _ (crates : Crates) where
  open crates use {bs58_encode}

  pub collection_group : Pubkey → Option Collection → ℤ → ℤ → CollectionGroup
  collection_group asset_id c slot_updated seq = record {
    asset_id = asset_id;
    group_value = elim c [ none ↦ none | some col ↦ some (bs58_encode col.key) ];
    verified = elim c [ none ↦ false | some col ↦ col.verified ];
    slot_updated = some slot_updated;
    group_info_seq = some seq;
  }

unfoldable pub upsert_collection_info : CollectionGroup → ℤ → Action (Unit {0})
upsert_collection_info g s =
    execute_assets storage_write_error
      λ t. record t { asset_grouping = alter g.asset_id (collection_row g s) t.asset_grouping }

unfoldable pub upsert_asset_data : AssetData → ℤ → Action (Unit {0})
upsert_asset_data a s =
    execute_assets storage_write_error
      λ t. record t { asset_data = alter a.id (asset_data_row a s) t.asset_data }

-- The rows that `upsert_asset_creators` sends: one for each creator at its position, or one
-- placeholder if there is none.
pub creator_rows : Pubkey → ℤ → ℤ → ℕ → List Creator → List AssetCreator
creator_rows id slot s i [] = []
creator_rows id slot s i (c ∷ cs) =
    record {
      asset_id = id;
      creator = some c.address;
      share = pos c.share;
      verified = c.verified;
      seq = some s;
      slot_updated = some slot;
      position = as_i16 i;
    }
    ∷ creator_rows id slot s (i + 1) cs

abbrev pub placeholder_creator : Pubkey → ℤ → ℤ → AssetCreator
placeholder_creator id slot s = record {
  asset_id = id;
  creator = none;
  share = pos 100;
  verified = false;
  seq = some s;
  slot_updated = some slot;
  position = pos 0;
}

pub db_creators : Pubkey → List Creator → ℤ → ℤ → List AssetCreator
unfolding creator_rows
db_creators id [] slot s = placeholder_creator id slot s ∷ []
db_creators id (c ∷ cs) slot s = creator_rows id slot s 0 (c ∷ cs)

-- One statement for all the rows; the key is the asset with the 16 bits of the position.
pub put_creators : ℕ → List AssetCreator → ℤ → (ℕ → Option AssetCreator) → ℕ → Option AssetCreator
put_creators i [] s t = t
put_creators i (c ∷ cs) s t = put_creators (i + 1) cs s (alter (i % 0x1_0000) (creator_row c s) t)

unfoldable pub set_creators : Pubkey → List AssetCreator → ℤ → AssetTables → AssetTables
set_creators id cs s t = record t {
  asset_creators =
      λ j. if id == j then put_creators 0 cs s (t.asset_creators j) else t.asset_creators j;
}

unfoldable pub upsert_asset_creators : Pubkey → List Creator → ℤ → ℤ → Action (Unit {0})
upsert_asset_creators id creators slot s =
    execute_assets storage_write_error (set_creators id (db_creators id creators slot s) s)

-- The parameters stand in the order of the source: the slot before the sequence number.
unfoldable pub upsert_asset_authority : Pubkey → Pubkey → ℤ → ℤ → Action (Unit {0})
upsert_asset_authority asset_id authority slot_updated seq = execute_assets asset_index_error λ t.
    record t {
      asset_authority =
          alter asset_id
            (authority_row (record {
              asset_id = asset_id;
              authority = authority;
              seq = seq;
              slot_updated = slot_updated;
            }))
            t.asset_authority;
    }
