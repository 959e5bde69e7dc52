-- ===== src/Bubblegum/Upserts/Spare.antt =====
-- The upserts of db.rs, and a row of `asset` whose `seq` is 0.
use das.Prelude.{ℕ, ℤ, ◌≡◌, refl, Bool, true, ◌&&◌, Option, none, some, List, arith}
use das.Database.{
  Pubkey, AssetData, CollectionGroup, storage_write_error, asset_index_error, nonzero_or_null,
  ge_or_null, newer_or_null,
}
use das.Database.Decompressed.{
  SparesRow, guarded-SparesRow, alter-SparesTables, Spares, execute_assets-Spares,
}
use das.Bubblegum.Types.{Creator}
use das.Bubblegum.Upserts.{
  LeafInfo, BaseInfo, leaf_row, owner_row, compression_row, seq_row, base_info_row, on_asset,
  upsert_asset_with_leaf_info, upsert_asset_with_owner_and_delegate_info,
  upsert_asset_with_compression_info, upsert_asset_with_seq, upsert_asset_base_info,
}
use das.Bubblegum.Upserts.Related.{
  upsert_collection_info, upsert_asset_data, upsert_asset_creators, upsert_asset_authority,
  set_creators,
}

leaf_row-SparesRow : (id : Pubkey) (l : LeafInfo) (s : ℤ) → SparesRow (leaf_row id l s)
unfolding leaf_row
leaf_row-SparesRow id l s = guarded-SparesRow _ _ _ (λ r. ge_or_null s r.leaf_seq) λ r. refl

owner_row-SparesRow :
    (id owner : Pubkey) (delegate : Option Pubkey) (s : ℤ)
    → SparesRow (owner_row id owner delegate s)
unfolding owner_row
owner_row-SparesRow id owner delegate s =
    guarded-SparesRow _ _ _ (λ r. ge_or_null s r.owner_delegate_seq) λ r. refl

and_true : (b : Bool) → b ≡ (b && true)
and_true b = ground arith

compression_row-SparesRow :
    (id : Pubkey) (c d : Bool) (n : ℕ) (m : Option Pubkey) → SparesRow (compression_row id c d n m)
unfolding compression_row
compression_row-SparesRow id c d n m =
    guarded-SparesRow _ _ _ (λ r. true) λ r. and_true (nonzero_or_null r.seq)

newer : (s : ℤ) (q : Option ℤ) → newer_or_null s q ≡ (nonzero_or_null q && ge_or_null s q)
newer s none = refl
newer s (some q) = refl

seq_row-SparesRow : (id : Pubkey) (s : ℤ) → SparesRow (seq_row id s)
unfolding seq_row
seq_row-SparesRow id s = guarded-SparesRow _ _ _ (λ r. ge_or_null s r.seq) λ r. newer s r.seq

base_info_row-SparesRow : (id : Pubkey) (b : BaseInfo) (s : ℤ) → SparesRow (base_info_row id b s)
unfolding base_info_row
base_info_row-SparesRow id b s =
    guarded-SparesRow _ _ _ (λ r. ge_or_null s r.base_info_seq) λ r. refl

pub upsert_asset_with_leaf_info-Spares :
    (id : Pubkey) (l : LeafInfo) (s : ℤ) → Spares (upsert_asset_with_leaf_info id l s)
unfolding upsert_asset_with_leaf_info
upsert_asset_with_leaf_info-Spares id l s =
    execute_assets-Spares storage_write_error (on_asset id (leaf_row id l s))
      (alter-SparesTables id _ (leaf_row-SparesRow id l s))

pub upsert_asset_with_owner_and_delegate_info-Spares :
    (id owner : Pubkey) (delegate : Option Pubkey) (s : ℤ)
    → Spares (upsert_asset_with_owner_and_delegate_info id owner delegate s)
unfolding upsert_asset_with_owner_and_delegate_info
upsert_asset_with_owner_and_delegate_info-Spares id owner delegate s =
    execute_assets-Spares storage_write_error (on_asset id (owner_row id owner delegate s))
      (alter-SparesTables id _ (owner_row-SparesRow id owner delegate s))

pub upsert_asset_with_compression_info-Spares :
    (id : Pubkey) (c d : Bool) (n : ℕ) (m : Option Pubkey)
    → Spares (upsert_asset_with_compression_info id c d n m)
unfolding upsert_asset_with_compression_info
upsert_asset_with_compression_info-Spares id c d n m =
    execute_assets-Spares storage_write_error (on_asset id (compression_row id c d n m))
      (alter-SparesTables id _ (compression_row-SparesRow id c d n m))

pub upsert_asset_with_seq-Spares : (id : Pubkey) (s : ℤ) → Spares (upsert_asset_with_seq id s)
unfolding upsert_asset_with_seq
upsert_asset_with_seq-Spares id s =
    execute_assets-Spares storage_write_error (on_asset id (seq_row id s))
      (alter-SparesTables id _ (seq_row-SparesRow id s))

pub upsert_asset_base_info-Spares :
    (id : Pubkey) (b : BaseInfo) (s : ℤ) → Spares (upsert_asset_base_info id b s)
unfolding upsert_asset_base_info
upsert_asset_base_info-Spares id b s =
    execute_assets-Spares asset_index_error (on_asset id (base_info_row id b s))
      (alter-SparesTables id _ (base_info_row-SparesRow id b s))

-- The statements on other tables.
pub upsert_collection_info-Spares :
    (g : CollectionGroup) (s : ℤ) → Spares (upsert_collection_info g s)
unfolding upsert_collection_info
upsert_collection_info-Spares g s =
    execute_assets-Spares storage_write_error _ (record { table = λ t j c. refl })

pub upsert_asset_data-Spares : (a : AssetData) (s : ℤ) → Spares (upsert_asset_data a s)
unfolding upsert_asset_data
upsert_asset_data-Spares a s =
    execute_assets-Spares storage_write_error _ (record { table = λ t j c. refl })

pub upsert_asset_creators-Spares :
    (id : Pubkey) (cs : List Creator) (slot s : ℤ) → Spares (upsert_asset_creators id cs slot s)
unfolding upsert_asset_creators set_creators
upsert_asset_creators-Spares id cs slot s =
    execute_assets-Spares storage_write_error _ (record { table = λ t j c. refl })

pub upsert_asset_authority-Spares :
    (id authority : Pubkey) (slot s : ℤ) → Spares (upsert_asset_authority id authority slot s)
unfolding upsert_asset_authority
upsert_asset_authority-Spares id authority slot s =
    execute_assets-Spares asset_index_error _ (record { table = λ t j c. refl })
