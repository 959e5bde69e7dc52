-- ===== src/Accounts/Columns.antt =====
-- program_transformers/src/asset_upserts.rs: the three groups of columns of `asset` that account
-- updates write, each guarded by its own slot.
pub mod Views
pub mod Order
use das.Prelude.{
  ℕ, ℤ, pos, Bool, true, false, Option, none, some, List, [], ◌∷◌, as_i64, if◌then◌else◌,
}
use das.Database.{
  Pubkey, Json, OwnerType, SpecificationVersions, SpecificationAssetClass, RoyaltyTargetType, Asset,
  default_asset, upsert, at_least, greatest, or_zero,
}

pub record AssetTokenAccountColumns : Type 0 where
  pub mint : Pubkey
  pub owner : Option Pubkey
  pub frozen : Bool
  pub delegate : Option Pubkey
  pub slot_updated_token_account : Option ℤ

abbrev pub set_token_account : AssetTokenAccountColumns → Asset → Asset
set_token_account c r = record r {
  owner = c.owner;
  frozen = c.frozen;
  delegate = c.delegate;
  slot_updated_token_account = c.slot_updated_token_account;
}

-- `slot_updated = GREATEST(COALESCE(asset.slot_updated, 0), COALESCE(excluded.…, 0))`
abbrev pub raise_slot : Option ℤ → Asset → Asset
raise_slot v r = record r { slot_updated = greatest r.slot_updated (or_zero v) }

-- An inserted row leaves `slot_updated` null.
unfoldable pub token_account_row : AssetTokenAccountColumns → Option Asset → Option Asset
token_account_row c =
    upsert (set_token_account c (default_asset c.mint))
      (λ r. raise_slot c.slot_updated_token_account (set_token_account c r))
      λ r. at_least c.slot_updated_token_account r.slot_updated_token_account

pub record AssetMintAccountColumns : Type 0 where
  pub mint : Pubkey
  pub supply : ℕ
  pub slot_updated_mint_account : ℤ
  pub extensions : Option Json

-- The columns that the statement sets in an old row, too.
abbrev pub set_mint_account : AssetMintAccountColumns → Asset → Asset
set_mint_account c r = record r {
  supply = c.supply;
  slot_updated_mint_account = some c.slot_updated_mint_account;
  mint_extensions = c.extensions;
  asset_data = some c.mint;
}

abbrev pub mint_account_inserted : AssetMintAccountColumns → Asset
mint_account_inserted c =
    let r = set_mint_account c (default_asset c.mint) in
    record r {
      supply_mint = some c.mint;
      slot_updated = some c.slot_updated_mint_account;
      specification_asset_class = some SpecificationAssetClass.fungible_token;
      owner_type = OwnerType.token;
    }

unfoldable pub mint_account_row : AssetMintAccountColumns → Option Asset → Option Asset
mint_account_row c =
    upsert (mint_account_inserted c)
      (λ r. raise_slot (some c.slot_updated_mint_account) (set_mint_account c r))
      λ r. at_least (some c.slot_updated_mint_account) r.slot_updated_mint_account

pub record AssetMetadataAccountColumns : Type 0 where
  pub mint : Pubkey
  pub owner_type : OwnerType
  pub specification_asset_class : Option SpecificationAssetClass
  pub royalty_amount : ℤ
  pub asset_data : Option Pubkey
  pub slot_updated_metadata_account : ℕ
  pub mpl_core_plugins : Option Json
  pub mpl_core_unknown_plugins : Option Json
  pub mpl_core_collection_num_minted : Option ℤ
  pub mpl_core_collection_current_size : Option ℤ
  pub mpl_core_plugins_json_version : Option ℤ
  pub mpl_core_external_plugins : Option Json
  pub mpl_core_unknown_external_plugins : Option Json
  pub is_agent : Bool
  pub asset_signer : Option Pubkey

abbrev pub metadata_slot : AssetMetadataAccountColumns → Option ℤ
metadata_slot c = some (as_i64 c.slot_updated_metadata_account)

abbrev pub set_metadata_account : AssetMetadataAccountColumns → Asset → Asset
set_metadata_account c r = record r {
  owner_type = c.owner_type;
  specification_version = some SpecificationVersions.v1;
  specification_asset_class = c.specification_asset_class;
  tree_id = none;
  nonce = some (pos 0);
  seq = some (pos 0);
  leaf = none;
  data_hash = none;
  creator_hash = none;
  compressed = false;
  compressible = false;
  royalty_target_type = RoyaltyTargetType.creators;
  royalty_target = none;
  royalty_amount = c.royalty_amount;
  asset_data = c.asset_data;
  slot_updated_metadata_account = metadata_slot c;
  burnt = false;
  mpl_core_plugins = c.mpl_core_plugins;
  mpl_core_unknown_plugins = c.mpl_core_unknown_plugins;
  mpl_core_collection_num_minted = c.mpl_core_collection_num_minted;
  mpl_core_collection_current_size = c.mpl_core_collection_current_size;
  mpl_core_plugins_json_version = c.mpl_core_plugins_json_version;
  mpl_core_external_plugins = c.mpl_core_external_plugins;
  mpl_core_unknown_external_plugins = c.mpl_core_unknown_external_plugins;
  is_agent = c.is_agent;
  asset_signer = c.asset_signer;
}

-- An inserted row leaves `slot_updated` null.
unfoldable pub metadata_account_row : AssetMetadataAccountColumns → Option Asset → Option Asset
metadata_account_row c =
    upsert (set_metadata_account c (default_asset c.mint))
      (λ r. raise_slot (metadata_slot c) (set_metadata_account c r))
      λ r. at_least (metadata_slot c) r.slot_updated_metadata_account

-- One statement on the row of an asset.
pub data AccountStatement : Type 0 where
  token_account : AssetTokenAccountColumns → AccountStatement
  mint_account : AssetMintAccountColumns → AccountStatement
  metadata_account : AssetMetadataAccountColumns → AccountStatement

abbrev pub run_statement : AccountStatement → Option Asset → Option Asset
run_statement (token_account c) row = token_account_row c row
run_statement (mint_account c) row = mint_account_row c row
run_statement (metadata_account c) row = metadata_account_row c row

-- The statements in the order in which they reach the database.
abbrev pub run_statements : List AccountStatement → Option Asset → Option Asset
run_statements [] row = row
run_statements (x ∷ xs) row = run_statements xs (run_statement x row)
