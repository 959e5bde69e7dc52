-- ===== src/Bubblegum/Upserts.antt =====
-- program_transformers/src/bubblegum/db.rs: the upserts of the table `asset`. Each is the SQL
-- statement as a function on the row at its key, and the call that sends it.
pub mod Related
pub mod Order
pub mod Spare
use das.Prelude.{
  ℕ, ℤ, pos, Bool, true, false, ◌&&◌, ◌||◌, Option, none, some, List, [], ◌∷◌, ◌+◌, ◌%◌, ◌==◌, Text,
  trim, as_i16, if◌then◌else◌,
}
use das.Database.{
  Pubkey, Hash, OwnerType, SpecificationVersions, SpecificationAssetClass, RoyaltyTargetType, Asset,
  default_asset, AssetData, AssetCreator, CollectionGroup, AssetAuthority, AssetTables, Action,
  execute_assets, storage_write_error, asset_index_error, upsert, alter, nonzero_or_null,
  ge_or_null, newer_or_null, greatest,
}
use das.Bubblegum.Types.{Crates, Creator, Collection}

-- The values of `upsert_asset_with_leaf_info`, with its hashes as the texts that it writes.
pub record LeafInfo : Type 0 where
  pub nonce : ℤ
  pub tree_id : Pubkey
  pub leaf : Hash
  pub data_hash : Text
  pub creator_hash : Text
  pub collection_hash : Option Text
  pub asset_data_hash : Option Text
  pub flags : Option ℕ
  pub frozen : Bool
  pub non_transferable : Bool

-- The columns that are written with or without flags; without, `frozen` is reset.
abbrev set_leaf : LeafInfo → ℤ → Bool → Asset → Asset
set_leaf l s frozen r = record r {
  nonce = some l.nonce;
  tree_id = some l.tree_id;
  leaf = some l.leaf;
  data_hash = some l.data_hash;
  creator_hash = some l.creator_hash;
  leaf_seq = some s;
  frozen = frozen;
}

abbrev set_leaf_flags : Option ℕ → LeafInfo → ℤ → Asset → Asset
set_leaf_flags none l s r = set_leaf l s false r
set_leaf_flags (some f) l s r =
    let r' = set_leaf l s l.frozen r in
    record r' {
      collection_hash = l.collection_hash;
      asset_data_hash = l.asset_data_hash;
      bubblegum_flags = some (pos f);
      non_transferable = some l.non_transferable;
    }

-- What the statement writes to the row that it inserts or updates.
pub set_leaf_info : LeafInfo → ℤ → Asset → Asset
set_leaf_info l = set_leaf_flags l.flags l

pub leaf_row : Pubkey → LeafInfo → ℤ → Option Asset → Option Asset
unfolding set_leaf_info
leaf_row id l s =
    upsert (set_leaf_info l s (default_asset id)) (set_leaf_info l s)
      λ r. nonzero_or_null r.seq && ge_or_null s r.leaf_seq

abbrev pub set_owner_and_delegate : Pubkey → Option Pubkey → ℤ → Asset → Asset
set_owner_and_delegate owner delegate s r = record r {
  owner = some owner;
  delegate = delegate;
  owner_delegate_seq = some s;
}

pub owner_row : Pubkey → Pubkey → Option Pubkey → ℤ → Option Asset → Option Asset
owner_row id owner delegate s =
    upsert (set_owner_and_delegate owner delegate s (default_asset id))
      (set_owner_and_delegate owner delegate s)
      λ r. nonzero_or_null r.seq && ge_or_null s r.owner_delegate_seq

abbrev pub set_compression : Bool → Bool → ℕ → Option Pubkey → Asset → Asset
set_compression compressed compressible supply supply_mint r = record r {
  compressed = compressed;
  compressible = compressible;
  supply = supply;
  supply_mint = supply_mint;
}

pub compression_row : Pubkey → Bool → Bool → ℕ → Option Pubkey → Option Asset → Option Asset
compression_row id compressed compressible supply supply_mint =
    upsert (set_compression compressed compressible supply supply_mint (default_asset id))
      (set_compression compressed compressible supply supply_mint) λ r. nonzero_or_null r.seq

abbrev pub set_seq : ℤ → Asset → Asset
set_seq s r = record r { seq = some s }

pub seq_row : Pubkey → ℤ → Option Asset → Option Asset
seq_row id s = upsert (set_seq s (default_asset id)) (set_seq s) λ r. newer_or_null s r.seq

-- The values of `upsert_asset_base_info`.
pub record BaseInfo : Type 0 where
  pub owner_type : OwnerType
  pub specification_version : SpecificationVersions
  pub specification_asset_class : SpecificationAssetClass
  pub royalty_target_type : RoyaltyTargetType
  pub royalty_target : Option Pubkey
  pub royalty_amount : ℤ
  pub slot_updated : ℤ

abbrev pub set_base_info : Pubkey → BaseInfo → ℤ → Asset → Asset
set_base_info key b s r = record r {
  owner_type = b.owner_type;
  specification_version = some b.specification_version;
  specification_asset_class = some b.specification_asset_class;
  royalty_target_type = b.royalty_target_type;
  royalty_target = b.royalty_target;
  royalty_amount = b.royalty_amount;
  asset_data = some key;
  slot_updated_cnft_transaction = some b.slot_updated;
  base_info_seq = some s;
}

-- The SET clause also raises `slot_updated`; an inserted row leaves it null.
pub base_info_row : Pubkey → BaseInfo → ℤ → Option Asset → Option Asset
base_info_row id b s =
    upsert (set_base_info id b s (default_asset id))
      (λ r.
        let r' = set_base_info id b s r in
        record r' { slot_updated = greatest r.slot_updated b.slot_updated })
      λ r. nonzero_or_null r.seq && ge_or_null s r.base_info_seq

abbrev pub on_asset : Pubkey → (Option Asset → Option Asset) → AssetTables → AssetTables
on_asset id f t = record t { asset = alter id f t.asset }

module _ (crates : Crates) where
  open crates use {bs58_encode, non_transferable, asset_lvl_frozen, permanent_lvl_frozen}

  abbrev pub hash_text : Hash → Text
  hash_text h = trim (bs58_encode h)

  abbrev map_hash : Option Hash → Option Text
  map_hash none = none
  map_hash (some h) = some (hash_text h)

  -- Of the flag bits two decide `frozen`, one `non_transferable`; without flags neither is set.
  abbrev flag : (ℕ → Bool) → Option ℕ → Bool
  flag f none = false
  flag f (some b) = f b

  unfoldable pub leaf_info :
      ℤ → Pubkey → Hash → Hash → Hash → Option Hash → Option Hash → Option ℕ → LeafInfo
  leaf_info nonce tree_id leaf data_hash creator_hash collection_hash asset_data_hash flags =
      record {
        nonce = nonce;
        tree_id = tree_id;
        leaf = leaf;
        data_hash = hash_text data_hash;
        creator_hash = hash_text creator_hash;
        collection_hash = map_hash collection_hash;
        asset_data_hash = map_hash asset_data_hash;
        flags = flags;
        frozen = flag (λ b. asset_lvl_frozen b || permanent_lvl_frozen b) flags;
        non_transferable = flag non_transferable flags;
      }

unfoldable pub upsert_asset_with_leaf_info : Pubkey → LeafInfo → ℤ → Action (Unit {0})
upsert_asset_with_leaf_info id l s =
    execute_assets storage_write_error (on_asset id (leaf_row id l s))

unfoldable pub upsert_asset_with_owner_and_delegate_info :
    Pubkey → Pubkey → Option Pubkey → ℤ → Action (Unit {0})
upsert_asset_with_owner_and_delegate_info id owner delegate s =
    execute_assets storage_write_error (on_asset id (owner_row id owner delegate s))

unfoldable pub upsert_asset_with_compression_info :
    Pubkey → Bool → Bool → ℕ → Option Pubkey → Action (Unit {0})
upsert_asset_with_compression_info id compressed compressible supply supply_mint =
    execute_assets storage_write_error
      (on_asset id (compression_row id compressed compressible supply supply_mint))

unfoldable pub upsert_asset_with_seq : Pubkey → ℤ → Action (Unit {0})
upsert_asset_with_seq id s = execute_assets storage_write_error (on_asset id (seq_row id s))

unfoldable pub upsert_asset_base_info : Pubkey → BaseInfo → ℤ → Action (Unit {0})
upsert_asset_base_info id b s =
    execute_assets asset_index_error (on_asset id (base_info_row id b s))
