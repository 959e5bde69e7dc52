-- ===== src/Bubblegum/Metadata/Atomic.antt =====
-- mint.rs and update_metadata.rs when they fail.
use das.Prelude.{Option, some, String, ◌⊎◌, inl, inr}
use das.Database.{Json, deserialization_error}
use das.Database.Rollback.{
  RollsBack, KeepsAssets, pure-Keeps, raise-Keeps, bind-RollsBack, bind_pure-RollsBack,
  transaction-RollsBack,
}
use das.Bubblegum.Types.{
  Crates, Bundle, LeafSchemaEvent, ChangeLogEventV1, Payload, BubblegumInstruction, ChainDataV1,
}
use das.Bubblegum.Leaf.Atomic.{not_parsed-RollsBack, save_then_transaction}
use das.Bubblegum.Metadata.{
  chain_data_json, json_of, mint, mint_parts, update_metadata, update_metadata_parts, sanitize,
}

json_of-KeepsAssets : (r : String ⊎ Json) → KeepsAssets (json_of r)
json_of-KeepsAssets (inl e) = raise-Keeps (deserialization_error e)
json_of-KeepsAssets (inr j) = pure-Keeps j

module _ (crates : Crates) (bundle : Bundle) (s : String) where
  pub chain_data_json-KeepsAssets : (c : ChainDataV1) → KeepsAssets (chain_data_json crates c)
  unfolding chain_data_json
  chain_data_json-KeepsAssets c = json_of-KeepsAssets (crates.chain_data_to_value (sanitize c))

  mint_parts-RollsBack :
      (le : Option LeafSchemaEvent) (cl : Option ChangeLogEventV1) (q : Option Payload)
      → RollsBack (mint_parts crates le cl q bundle s)
  unfolding mint_parts
  mint_parts-RollsBack (some le) (some cl) (some (Payload.mint m authority tree)) =
      save_then_transaction crates bundle s cl _ λ seq.
        bind-RollsBack (chain_data_json-KeepsAssets _)
          λ j. bind_pure-RollsBack _ (transaction-RollsBack _)
  mint_parts-RollsBack _ _ _ = not_parsed-RollsBack

  pub mint-RollsBack : (p : BubblegumInstruction) → RollsBack (mint crates p bundle s)
  unfolding mint
  mint-RollsBack p = mint_parts-RollsBack p.leaf_update p.tree_update p.payload

  update_metadata_parts-RollsBack :
      (le : Option LeafSchemaEvent) (cl : Option ChangeLogEventV1) (q : Option Payload)
      → RollsBack (update_metadata_parts crates le cl q bundle s)
  unfolding update_metadata_parts
  update_metadata_parts-RollsBack (some le) (some cl) (some (Payload.update_metadata m u tree)) =
      save_then_transaction crates bundle s cl _ λ seq.
        bind-RollsBack (chain_data_json-KeepsAssets _)
          λ j. bind_pure-RollsBack _ (transaction-RollsBack _)
  update_metadata_parts-RollsBack _ _ _ = not_parsed-RollsBack

  pub update_metadata-RollsBack :
      (p : BubblegumInstruction) → RollsBack (update_metadata crates p bundle s)
  unfolding update_metadata
  update_metadata-RollsBack p =
      update_metadata_parts-RollsBack p.leaf_update p.tree_update p.payload
