-- ===== src/Bubblegum/Leaf/Verification.antt =====
-- collection_verification.rs and creator_verification.rs of program_transformers/src/bubblegum.
use das.Prelude.{Bool, Option, none, some, List, String, as_i64, ◌==◌, if◌then◌else◌, pos, map}
use das.Database.{Pubkey, Action, ◌>>=◌, ◌>>◌, transaction}
use das.Bubblegum.Types.{
  Crates, BubblegumInstruction, Bundle, LeafSchemaEvent, ChangeLogEventV1, Payload, Creator,
  Collection, MetadataArgs,
}
use das.Bubblegum.Upserts.{upsert_asset_with_owner_and_delegate_info, upsert_asset_with_seq}
use das.Bubblegum.Upserts.Related.{collection_group, upsert_collection_info, upsert_asset_creators}
use das.Bubblegum.ChangeLog.{save_changelog_event}
use das.Bubblegum.Leaf.{normalized, delegate_of, not_parsed, upsert_leaf}

module _ (crates : Crates) where
  -- The program's own id stands for "no collection".
  pub verified_collection : Pubkey → Bool → Option Collection
  verified_collection collection verify =
      if collection == crates.bubblegum_id
      then none
      else some (record { verified = verify; key = collection })

  collection_event :
      LeafSchemaEvent → ChangeLogEventV1 → Pubkey → Bool → Bundle → String → Action (Unit {0})
  unfolding verified_collection
  collection_event le cl collection verify bundle instruction = do
    seq ← save_changelog_event crates cl bundle.slot bundle.txn_id instruction
    let leaf = normalized le.schema
    transaction (do
      upsert_leaf crates leaf (pos cl.index) cl.id le.leaf_hash (as_i64 seq)
      upsert_asset_with_seq leaf.id (as_i64 seq)
      upsert_collection_info
          (collection_group crates leaf.id (verified_collection collection verify)
            (as_i64 bundle.slot) (as_i64 seq))
          (as_i64 seq))

  unfoldable pub collection_verification_parts :
      Option LeafSchemaEvent
      → Option ChangeLogEventV1
      → Option Payload
      → Bundle
      → String
      → Action (Unit {0})
  unfolding collection_event
  collection_verification_parts (some le) (some cl)
        (some (Payload.collection_verification collection verify)) =
      collection_event le cl collection verify
  collection_verification_parts _ _ _ = λ _ _. not_parsed

  unfoldable pub collection_verification :
      BubblegumInstruction → Bundle → String → Action (Unit {0})
  unfolding collection_verification_parts
  collection_verification parsing_result =
      collection_verification_parts parsing_result.leaf_update parsing_result.tree_update
        parsing_result.payload

-- The creators with the flag of one address set.
pub updated_creators : Pubkey → Bool → List Creator → List Creator
updated_creators creator verify =
    map λ c. if c.address == creator then record c { verified = verify } else c

module _ (crates : Crates) where
  creator_event :
      LeafSchemaEvent
      → ChangeLogEventV1
      → MetadataArgs
      → Pubkey
      → Bool
      → Bundle
      → String
      → Action (Unit {0})
  creator_event le cl metadata creator verify bundle instruction = do
    seq ← save_changelog_event crates cl bundle.slot bundle.txn_id instruction
    let leaf = normalized le.schema
    transaction (do
      upsert_leaf crates leaf (pos cl.index) cl.id le.leaf_hash (as_i64 seq)
      upsert_asset_with_owner_and_delegate_info leaf.id leaf.owner
          (delegate_of leaf.owner leaf.delegate) (as_i64 seq)
      upsert_asset_with_seq leaf.id (as_i64 seq)
      upsert_asset_creators leaf.id (updated_creators creator verify metadata.creators)
          (as_i64 bundle.slot) (as_i64 seq))

  unfoldable pub creator_verification_parts :
      Option LeafSchemaEvent
      → Option ChangeLogEventV1
      → Option Payload
      → Bundle
      → String
      → Action (Unit {0})
  unfolding creator_event
  creator_verification_parts (some le) (some cl)
        (some (Payload.creator_verification metadata creator verify)) =
      creator_event le cl metadata creator verify
  creator_verification_parts _ _ _ = λ _ _. not_parsed

  unfoldable pub creator_verification : BubblegumInstruction → Bundle → String → Action (Unit {0})
  unfolding creator_verification_parts
  creator_verification parsing_result =
      creator_verification_parts parsing_result.leaf_update parsing_result.tree_update
        parsing_result.payload
