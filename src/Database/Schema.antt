-- ===== src/Database/Schema.antt =====
-- digital_asset_types/src/dao/generated: the columns and enums of the tables. A pubkey, a hash or a
-- row id of 32 bytes is a number; a JSON value, which is only stored and copied, is one too.
use das.Prelude.{ℕ, ℤ, pos, Bool, false, Option, none, List, Text}

abbrev pub Pubkey : Type 0
Pubkey = ℕ

abbrev pub Hash : Type 0
Hash = ℕ

abbrev pub Json : Type 0
Json = ℕ

pub data OwnerType : Type 0 where
  single token unknown : OwnerType

pub data SpecificationVersions : Type 0 where
  unknown v0 v1 v2 : SpecificationVersions

pub data SpecificationAssetClass : Type 0 where
  fungible_asset fungible_token identity_nft mpl_bubblegum_v2 : SpecificationAssetClass
  mpl_core_asset mpl_core_collection mpl_core_group nft : SpecificationAssetClass
  non_transferable_nft print printable_nft programmable_nft : SpecificationAssetClass
  transfer_restricted_nft unknown : SpecificationAssetClass

pub data RoyaltyTargetType : Type 0 where
  creators fanout single unknown : RoyaltyTargetType

pub data Mutability : Type 0 where
  immutable mutable unknown : Mutability

pub data ChainMutability : Type 0 where
  immutable mutable unknown : ChainMutability

-- `asset`, but for `created_at`, which the database fills.
pub record Asset : Type 0 where
  pub id : Pubkey
  pub alt_id : Option Pubkey
  pub specification_version : Option SpecificationVersions
  pub specification_asset_class : Option SpecificationAssetClass
  pub owner : Option Pubkey
  pub owner_type : OwnerType
  pub delegate : Option Pubkey
  pub frozen : Bool
  pub supply : ℕ
  pub supply_mint : Option Pubkey
  pub compressed : Bool
  pub compressible : Bool
  pub seq : Option ℤ
  pub tree_id : Option Pubkey
  pub leaf : Option Hash
  pub nonce : Option ℤ
  pub royalty_target_type : RoyaltyTargetType
  pub royalty_target : Option Pubkey
  pub royalty_amount : ℤ
  pub asset_data : Option Pubkey
  pub burnt : Bool
  pub slot_updated : Option ℤ
  pub slot_updated_metadata_account : Option ℤ
  pub slot_updated_mint_account : Option ℤ
  pub slot_updated_token_account : Option ℤ
  pub slot_updated_cnft_transaction : Option ℤ
  pub data_hash : Option Text
  pub creator_hash : Option Text
  pub owner_delegate_seq : Option ℤ
  pub leaf_seq : Option ℤ
  pub base_info_seq : Option ℤ
  pub mint_extensions : Option Json
  pub mpl_core_plugins : Option Json
  pub mpl_core_unknown_plugins : Option Json
  pub mpl_core_collection_num_minted : Option ℤ
  pub mpl_core_collection_current_size : Option ℤ
  pub mpl_core_plugins_json_version : Option ℤ
  pub mpl_core_external_plugins : Option Json
  pub mpl_core_unknown_external_plugins : Option Json
  pub collection_hash : Option Text
  pub asset_data_hash : Option Text
  pub bubblegum_flags : Option ℤ
  pub non_transferable : Option Bool
  pub is_agent : Bool
  pub agent_token : Option Pubkey
  pub asset_signer : Option Pubkey
  pub slot_updated_agent_registry : Option ℤ

-- What an INSERT leaves in the columns that it does not name: the defaults of init.sql and of the
-- migrations.
abbrev pub default_asset : Pubkey → Asset
default_asset key = record {
  id = key;
  alt_id = none;
  specification_version = none;
  specification_asset_class = none;
  owner = none;
  owner_type = OwnerType.single;
  delegate = none;
  frozen = false;
  supply = 1;
  supply_mint = none;
  compressed = false;
  compressible = false;
  seq = none;
  tree_id = none;
  leaf = none;
  nonce = none;
  royalty_target_type = RoyaltyTargetType.creators;
  royalty_target = none;
  royalty_amount = pos 0;
  asset_data = none;
  burnt = false;
  slot_updated = none;
  slot_updated_metadata_account = none;
  slot_updated_mint_account = none;
  slot_updated_token_account = none;
  slot_updated_cnft_transaction = none;
  data_hash = none;
  creator_hash = none;
  owner_delegate_seq = none;
  leaf_seq = none;
  base_info_seq = none;
  mint_extensions = none;
  mpl_core_plugins = none;
  mpl_core_unknown_plugins = none;
  mpl_core_collection_num_minted = none;
  mpl_core_collection_current_size = none;
  mpl_core_plugins_json_version = none;
  mpl_core_external_plugins = none;
  mpl_core_unknown_external_plugins = none;
  collection_hash = none;
  asset_data_hash = none;
  bubblegum_flags = none;
  non_transferable = none;
  is_agent = false;
  agent_token = none;
  asset_signer = none;
  slot_updated_agent_registry = none;
}

pub record AssetData : Type 0 where
  pub id : Pubkey
  pub chain_data_mutability : ChainMutability
  pub chain_data : Json
  pub metadata_url : Text
  pub metadata_mutability : Mutability
  pub metadata : Json
  pub slot_updated : ℤ
  pub reindex : Option Bool
  pub raw_name : Option (List ℕ)
  pub raw_symbol : Option (List ℕ)
  pub base_info_seq : Option ℤ

-- `creator` is an empty byte vector in the row that stands for "no creators", here `none`.
pub record AssetCreator : Type 0 where
  pub asset_id : Pubkey
  pub creator : Option Pubkey
  pub share : ℤ
  pub verified : Bool
  pub seq : Option ℤ
  pub slot_updated : Option ℤ
  pub position : ℤ

-- A row with `group_key` "collection". `group_value` is the pubkey's text.
pub record CollectionGroup : Type 0 where
  pub asset_id : Pubkey
  pub group_value : Option Text
  pub verified : Bool
  pub slot_updated : Option ℤ
  pub group_info_seq : Option ℤ

pub record AssetAuthority : Type 0 where
  pub asset_id : Pubkey
  pub authority : Pubkey
  pub seq : ℤ
  pub slot_updated : ℤ

pub record ClItem : Type 0 where
  pub tree : Pubkey
  pub node_idx : ℤ
  pub leaf_idx : Option ℤ
  pub seq : ℤ
  pub level : ℤ
  pub hash : Hash

-- `supply` is a decimal without a fraction.
pub record Token : Type 0 where
  pub mint : Pubkey
  pub supply : ℕ
  pub decimals : ℤ
  pub token_program : Pubkey
  pub mint_authority : Option Pubkey
  pub freeze_authority : Option Pubkey
  pub close_authority : Option Pubkey
  pub extension_data : Option (List ℕ)
  pub slot_updated : ℤ
  pub extensions : Option Json

pub record TokenAccount : Type 0 where
  pub pubkey : Pubkey
  pub mint : Pubkey
  pub amount : ℤ
  pub owner : Pubkey
  pub frozen : Bool
  pub close_authority : Option Pubkey
  pub delegate : Option Pubkey
  pub delegated_amount : ℤ
  pub slot_updated : ℤ
  pub token_program : Pubkey
  pub extensions : Option Json
