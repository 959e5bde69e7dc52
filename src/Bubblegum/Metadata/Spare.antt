-- ===== src/Bubblegum/Metadata/Spare.antt =====
-- mint.rs and update_metadata.rs, and a row of `asset` whose `seq` is 0.
use das.Prelude.{Option, some, String}
use das.Database.Decompressed.{
  Spares, KeepsAssets-Spares, bind-Spares, transaction-Spares, pure-Spares,
}
use das.Bubblegum.Metadata.Atomic.{chain_data_json-KeepsAssets}
use das.Bubblegum.Upserts.Spare.{
  upsert_asset_data-Spares, upsert_asset_base_info-Spares,
  upsert_asset_with_compression_info-Spares, upsert_asset_with_owner_and_delegate_info-Spares,
  upsert_asset_with_seq-Spares, upsert_asset_creators-Spares, upsert_asset_authority-Spares,
  upsert_collection_info-Spares,
}
use das.Bubblegum.Types.{
  Crates, Bundle, LeafSchemaEvent, ChangeLogEventV1, Payload, BubblegumInstruction,
}
use das.Bubblegum.Leaf.Spare.{upsert_leaf-Spares, not_parsed-Spares, save_then_transaction}
use das.Bubblegum.Metadata.{mint, mint_parts, update_metadata, update_metadata_parts}

module _ (crates : Crates) (bundle : Bundle) (s : String) where
  mint_parts-Spares :
      (le : Option LeafSchemaEvent) (cl : Option ChangeLogEventV1) (q : Option Payload)
      → Spares (mint_parts crates le cl q bundle s)
  unfolding mint_parts
  mint_parts-Spares (some le) (some cl) (some (Payload.mint m authority tree)) =
      save_then_transaction crates bundle s cl _ λ seq.
        bind-Spares (KeepsAssets-Spares (chain_data_json-KeepsAssets crates bundle s _)) λ j.
          bind-Spares
            (transaction-Spares (
              bind-Spares (upsert_asset_data-Spares _ _) λ _.
                bind-Spares (upsert_asset_base_info-Spares _ _ _) λ _.
                  bind-Spares (upsert_asset_with_compression_info-Spares _ _ _ _ _) λ _.
                    bind-Spares (upsert_leaf-Spares crates _ _ _ _ _) λ _.
                      bind-Spares (upsert_asset_with_owner_and_delegate_info-Spares _ _ _ _) λ _.
                        bind-Spares (upsert_asset_with_seq-Spares _ _) λ _.
                          bind-Spares (upsert_asset_creators-Spares _ _ _ _) λ _.
                            bind-Spares (upsert_asset_authority-Spares _ _ _ _)
                              λ _. upsert_collection_info-Spares _ _))
            λ _. pure-Spares _
  mint_parts-Spares _ _ _ = not_parsed-Spares

  pub mint-Spares : (p : BubblegumInstruction) → Spares (mint crates p bundle s)
  unfolding mint
  mint-Spares p = mint_parts-Spares p.leaf_update p.tree_update p.payload

  update_metadata_parts-Spares :
      (le : Option LeafSchemaEvent) (cl : Option ChangeLogEventV1) (q : Option Payload)
      → Spares (update_metadata_parts crates le cl q bundle s)
  unfolding update_metadata_parts
  update_metadata_parts-Spares (some le) (some cl) (some (Payload.update_metadata m u tree)) =
      save_then_transaction crates bundle s cl _ λ seq.
        bind-Spares (KeepsAssets-Spares (chain_data_json-KeepsAssets crates bundle s _)) λ j.
          bind-Spares
            (transaction-Spares (
              bind-Spares (upsert_asset_data-Spares _ _) λ _.
                bind-Spares (upsert_asset_base_info-Spares _ _ _) λ _.
                  bind-Spares (upsert_leaf-Spares crates _ _ _ _ _) λ _.
                    bind-Spares (upsert_asset_with_seq-Spares _ _)
                      λ _. upsert_asset_creators-Spares _ _ _ _))
            λ _. pure-Spares _
  update_metadata_parts-Spares _ _ _ = not_parsed-Spares

  pub update_metadata-Spares :
      (p : BubblegumInstruction) → Spares (update_metadata crates p bundle s)
  unfolding update_metadata
  update_metadata-Spares p = update_metadata_parts-Spares p.leaf_update p.tree_update p.payload
