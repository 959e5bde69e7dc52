-- ===== src/Bubblegum/Metadata.antt =====
-- The handlers that write metadata: mint.rs and update_metadata.rs.
pub mod Atomic
pub mod Spare
pub mod Authority
use das.Prelude.{
  ◌⊎◌, ℕ, ℤ, pos, Bool, true, false, Option, none, some, [], Text, String, as_i64, into_bytes,
  drop_nul, List, ◌∷◌, inl, inr,
}
use das.Database.{
  Pubkey, Json, OwnerType, SpecificationVersions, SpecificationAssetClass, RoyaltyTargetType,
  Mutability, ChainMutability, AssetData, Action, pure, raise, bind_result, ◌>>=◌, ◌>>◌,
  transaction, deserialization_error,
}
use das.Bubblegum.Types.{
  Crates, BubblegumInstruction, Bundle, LeafSchemaEvent, ChangeLogEventV1, Payload, Version,
  MetadataArgs, UpdateArgs, ChainDataV1, TokenStandard, DownloadMetadataInfo, download_info,
  Creator,
}
use das.Bubblegum.Upserts.{
  BaseInfo, upsert_asset_base_info, upsert_asset_with_compression_info,
  upsert_asset_with_owner_and_delegate_info, upsert_asset_with_seq,
}
use das.Bubblegum.Upserts.Related.{
  collection_group, upsert_asset_data, upsert_asset_creators, upsert_asset_authority,
  upsert_collection_info,
}
use das.Bubblegum.ChangeLog.{save_changelog_event}
use das.Bubblegum.Leaf.{normalized, delegate_of, upsert_leaf, not_parsed}

-- `ChainDataV1::sanitize`. The use method keeps its name from one crate's type to the other's.
unfoldable pub sanitize : ChainDataV1 → ChainDataV1
sanitize c = record c { name = drop_nul c.name; symbol = drop_nul c.symbol }

abbrev pub mutability_of : Bool → ChainMutability
mutability_of true = ChainMutability.mutable
mutability_of false = ChainMutability.immutable

abbrev pub class_of : Version → SpecificationAssetClass
class_of Version.v2 = SpecificationAssetClass.mpl_bubblegum_v2
class_of Version.v1 = SpecificationAssetClass.nft

abbrev pub or_else : {A : Type 0} → Option A → A → A
or_else none a = a
or_else (some b) a = b

abbrev json_of : String ⊎ Json → Action Json
json_of (inl e) = raise (deserialization_error e)
json_of (inr j) = pure j

module _ (crates : Crates) where
  -- `serde_json::to_value(chain_data)` after `sanitize`.
  pub chain_data_json : ChainDataV1 → Action Json
  chain_data_json c = json_of (crates.chain_data_to_value (sanitize c))

  -- The `asset_data` row of a leaf: the metadata itself is still to be downloaded.
  pub new_asset_data : Pubkey → Bool → Json → Text → ℤ → Text → Text → ℤ → AssetData
  new_asset_data id is_mutable chain_data uri slot name symbol seq = record {
    id = id;
    chain_data_mutability = mutability_of is_mutable;
    chain_data = chain_data;
    metadata_url = uri;
    metadata_mutability = Mutability.mutable;
    metadata = crates.json_string "processing";
    slot_updated = slot;
    reindex = some true;
    raw_name = some (into_bytes name);
    raw_symbol = some (into_bytes symbol);
    base_info_seq = some seq;
  }

  pub new_base_info : Version → ℕ → ℤ → BaseInfo
  new_base_info version seller_fee_basis_points slot = record {
    owner_type = OwnerType.single;
    specification_version = SpecificationVersions.v1;
    specification_asset_class = class_of version;
    royalty_target_type = RoyaltyTargetType.creators;
    royalty_target = none;
    royalty_amount = pos seller_fee_basis_points;
    slot_updated = slot;
  }

  -- What to download, unless the URI is empty.
  abbrev pub download_of : Pubkey → Text → Option DownloadMetadataInfo
  download_of id [] = none
  download_of id (c ∷ uri) = some (download_info id (c ∷ uri))

  -- The rows of a mint.
  pub mint_rows :
      LeafSchemaEvent → MetadataArgs → Pubkey → Pubkey → ℤ → ℤ → Json → Action (Unit {0})
  unfolding new_asset_data new_base_info
  mint_rows le metadata authority tree_id slot_i seq chain_data =
      let leaf = normalized le.schema in
      transaction (do
        upsert_asset_data
            (new_asset_data leaf.id metadata.is_mutable chain_data (drop_nul metadata.uri) slot_i
              metadata.name metadata.symbol seq)
            seq
        upsert_asset_base_info leaf.id
            (new_base_info le.version metadata.seller_fee_basis_points slot_i) seq
        upsert_asset_with_compression_info leaf.id true false 1 none
        upsert_leaf crates leaf (as_i64 leaf.nonce) tree_id le.leaf_hash seq
        upsert_asset_with_owner_and_delegate_info leaf.id leaf.owner
            (delegate_of leaf.owner leaf.delegate) seq
        upsert_asset_with_seq leaf.id seq
        upsert_asset_creators leaf.id metadata.creators slot_i seq
        -- The call passes the sequence number where the slot is expected, and the slot last.
        upsert_asset_authority leaf.id authority seq slot_i
        upsert_collection_info (collection_group crates leaf.id metadata.collection slot_i seq) seq)

  mint_event :
      LeafSchemaEvent
      → ChangeLogEventV1
      → MetadataArgs
      → Pubkey
      → Pubkey
      → Bundle
      → String
      → Action (Option DownloadMetadataInfo)
  unfolding chain_data_json mint_rows
  mint_event le cl metadata authority tree_id bundle instruction = do
    seq ← save_changelog_event crates cl bundle.slot bundle.txn_id instruction
    let leaf = normalized le.schema
    let slot_i = as_i64 bundle.slot
    let uri = drop_nul metadata.uri
    chain_data ← chain_data_json (record {
      name = metadata.name;
      symbol = metadata.symbol;
      edition_nonce = metadata.edition_nonce;
      primary_sale_happened = metadata.primary_sale_happened;
      token_standard = some TokenStandard.non_fungible;
      uses = metadata.uses;
    })
    mint_rows le metadata authority tree_id slot_i (as_i64 seq) chain_data
    pure (download_of leaf.id uri)

  mint_parts :
      Option LeafSchemaEvent
      → Option ChangeLogEventV1
      → Option Payload
      → Bundle
      → String
      → Action (Option DownloadMetadataInfo)
  unfolding mint_event
  mint_parts (some le) (some cl) (some (Payload.mint args authority tree_id)) =
      mint_event le cl args authority tree_id
  mint_parts _ _ _ = λ _ _. not_parsed

  pub mint : BubblegumInstruction → Bundle → String → Action (Option DownloadMetadataInfo)
  unfolding mint_parts
  mint parsing_result =
      mint_parts parsing_result.leaf_update parsing_result.tree_update parsing_result.payload

  update_metadata_event :
      LeafSchemaEvent
      → ChangeLogEventV1
      → MetadataArgs
      → UpdateArgs
      → Pubkey
      → Bundle
      → String
      → Action (Option DownloadMetadataInfo)
  unfolding chain_data_json new_asset_data new_base_info
  update_metadata_event le cl current update_args tree_id bundle instruction = do
    seq ← save_changelog_event crates cl bundle.slot bundle.txn_id instruction
    let leaf = normalized le.schema
    let slot_i = as_i64 bundle.slot
    let uri = drop_nul (or_else update_args.uri current.uri)
    let name = or_else update_args.name current.name
    let symbol = or_else update_args.symbol current.symbol
    chain_data ← chain_data_json (record {
      name = name;
      symbol = symbol;
      edition_nonce = current.edition_nonce;
      primary_sale_happened =
          or_else update_args.primary_sale_happened current.primary_sale_happened;
      token_standard = some TokenStandard.non_fungible;
      uses = current.uses;
    })
    transaction (do
      upsert_asset_data
          (new_asset_data leaf.id (or_else update_args.is_mutable current.is_mutable) chain_data uri
            slot_i name symbol (as_i64 seq))
          (as_i64 seq)
      upsert_asset_base_info leaf.id
          (new_base_info le.version
            (or_else update_args.seller_fee_basis_points current.seller_fee_basis_points) slot_i)
          (as_i64 seq)
      upsert_leaf crates leaf (as_i64 leaf.nonce) tree_id le.leaf_hash (as_i64 seq)
      upsert_asset_with_seq leaf.id (as_i64 seq)
      upsert_asset_creators leaf.id (or_else update_args.creators current.creators) slot_i
          (as_i64 seq))
    pure (download_of leaf.id uri)

  update_metadata_parts :
      Option LeafSchemaEvent
      → Option ChangeLogEventV1
      → Option Payload
      → Bundle
      → String
      → Action (Option DownloadMetadataInfo)
  unfolding update_metadata_event
  update_metadata_parts (some le) (some cl)
        (some (Payload.update_metadata current_metadata update_args tree_id)) =
      update_metadata_event le cl current_metadata update_args tree_id
  update_metadata_parts _ _ _ = λ _ _. not_parsed

  pub update_metadata :
      BubblegumInstruction → Bundle → String → Action (Option DownloadMetadataInfo)
  unfolding update_metadata_parts
  update_metadata parsing_result =
      update_metadata_parts parsing_result.leaf_update parsing_result.tree_update
        parsing_result.payload
