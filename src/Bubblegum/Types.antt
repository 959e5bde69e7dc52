-- ===== src/Bubblegum/Types.antt =====
-- The parsed instruction that the handlers take (blockbuster/src/programs/bubblegum/mod.rs and the
-- types of the crates mpl-bubblegum and mpl-account-compression), and what the handlers use of code
-- outside the repository.
use das.Prelude.{ℕ, Bool, Option, List, Text, String, trim, drop_nul, ◌⊎◌}
use das.Database.{Pubkey, Hash, Json}

-- A number of a leaf event, a path node or an argument is the u8, u16, u32 or u64 of the source.
pub record PathNode : Type 0 where
  pub node : Hash
  pub index : ℕ

pub record ChangeLogEventV1 : Type 0 where
  pub id : Pubkey
  pub path : List PathNode
  pub seq : ℕ
  pub index : ℕ

pub record LeafV1 : Type 0 where
  pub id : Pubkey
  pub owner : Pubkey
  pub delegate : Pubkey
  pub nonce : ℕ
  pub data_hash : Hash
  pub creator_hash : Hash

pub record LeafV2 : Type 0 where
  pub id : Pubkey
  pub owner : Pubkey
  pub delegate : Pubkey
  pub nonce : ℕ
  pub data_hash : Hash
  pub creator_hash : Hash
  pub collection_hash : Hash
  pub asset_data_hash : Hash
  pub flags : ℕ

pub data LeafSchema : Type 0 where
  v1 : LeafV1 → LeafSchema
  v2 : LeafV2 → LeafSchema

pub data Version : Type 0 where
  v1 v2 : Version

pub record LeafSchemaEvent : Type 0 where
  pub version : Version
  pub schema : LeafSchema
  pub leaf_hash : Hash

pub record Creator : Type 0 where
  pub address : Pubkey
  pub verified : Bool
  pub share : ℕ

pub record Collection : Type 0 where
  pub verified : Bool
  pub key : Pubkey

pub data UseMethod : Type 0 where
  burn multiple single : UseMethod

pub record Uses : Type 0 where
  pub use_method : UseMethod
  pub remaining : ℕ
  pub total : ℕ

pub record MetadataArgs : Type 0 where
  pub name : Text
  pub symbol : Text
  pub uri : Text
  pub seller_fee_basis_points : ℕ
  pub primary_sale_happened : Bool
  pub is_mutable : Bool
  pub edition_nonce : Option ℕ
  pub collection : Option Collection
  pub uses : Option Uses
  pub creators : List Creator

pub record UpdateArgs : Type 0 where
  pub name : Option Text
  pub symbol : Option Text
  pub uri : Option Text
  pub creators : Option (List Creator)
  pub seller_fee_basis_points : Option ℕ
  pub primary_sale_happened : Option Bool
  pub is_mutable : Option Bool

pub data Payload : Type 0 where
  unknown : Payload
  mint : (args : MetadataArgs) (authority tree_id : Pubkey) → Payload
  decompress : (args : MetadataArgs) → Payload
  cancel_redeem : (root : Pubkey) → Payload
  creator_verification : (metadata : MetadataArgs) (creator : Pubkey) (verify : Bool) → Payload
  collection_verification : (collection : Pubkey) (verify : Bool) → Payload
  update_metadata :
      (current_metadata : MetadataArgs) (update_args : UpdateArgs) (tree_id : Pubkey) → Payload

pub data InstructionName : Type 0 where
  unknown mint_v1 mint_to_collection_v1 redeem cancel_redeem transfer : InstructionName
  delegate decompress_v1 compress burn create_tree verify_creator : InstructionName
  unverify_creator verify_collection unverify_collection : InstructionName
  set_and_verify_collection set_decompressible_state update_metadata : InstructionName
  burn_v2 collect_v2 create_tree_v2 delegate_and_freeze_v2 delegate_v2 : InstructionName
  freeze_v2 mint_v2 set_collection_v2 set_non_transferable_v2 : InstructionName
  thaw_and_revoke_v2 thaw_v2 transfer_v2 unverify_creator_v2 : InstructionName
  update_asset_data_v2 update_metadata_v2 verify_creator_v2 : InstructionName

pub record BubblegumInstruction : Type 0 where
  pub instruction : InstructionName
  pub tree_update : Option ChangeLogEventV1
  pub leaf_update : Option LeafSchemaEvent
  pub payload : Option Payload

-- Of `InstructionBundle` the handlers read these two.
pub record Bundle : Type 0 where
  pub txn_id : Text
  pub slot : ℕ

pub data TokenStandard : Type 0 where
  non_fungible : TokenStandard

-- digital_asset_types/src/json/chain_data.rs
pub record ChainDataV1 : Type 0 where
  pub name : Text
  pub symbol : Text
  pub edition_nonce : Option ℕ
  pub primary_sale_happened : Bool
  pub token_standard : Option TokenStandard
  pub uses : Option Uses

-- `DownloadMetadataInfo` of program_transformers/src/lib.rs.
pub record DownloadMetadataInfo : Type 0 where
  pub asset_data_id : Pubkey
  pub uri : Text

-- `DownloadMetadataInfo::new`
pub download_info : Pubkey → Text → DownloadMetadataInfo
download_info id uri = record { asset_data_id = id; uri = drop_nul (trim uri) }

-- The third-party functions that the handlers call: base 58 (bs58, solana-sdk), the flag bits of a
-- leaf and the program id (mpl-bubblegum), program addresses from three seeds and a
-- program (solana-sdk), JSON (serde_json);
-- and the caller's `DownloadMetadataNotifier`, with the error that it may return.
pub record Crates : Type 0 where
  pub bs58_encode : ℕ → Text
  pub bs58_decode : Text → Option (List ℕ)
  pub non_transferable : ℕ → Bool
  pub asset_lvl_frozen : ℕ → Bool
  pub permanent_lvl_frozen : ℕ → Bool
  pub bubblegum_id : Pubkey
  pub find_program_address : String → Pubkey → List ℕ → Pubkey → Pubkey
  pub chain_data_to_value : ChainDataV1 → String ⊎ Json
  pub json_string : String → Json
  pub notify : DownloadMetadataInfo → Option String
