-- ===== src/Bubblegum/Leaf/Spare.antt =====
-- The handlers of Leaf.antt, and a row of `asset` whose `seq` is 0.
use das.Prelude.{ℕ, ℤ, ◌≡◌, refl, true, Option, none, some, String}
use das.Database.{
  Pubkey, Hash, Asset, Action, ◌>>=◌, parsing_error, execute_assets, storage_write_error,
}
use das.Database.Rollback.{raise-Keeps}
use das.Database.Decompressed.{
  but_burnt, is_decompressed, alter-SparesTables, Spares, KeepsAssets-Spares, execute_assets-Spares,
  bind-Spares, transaction-Spares,
}
use das.Bubblegum.Types.{
  Crates, Bundle, LeafSchema, LeafSchemaEvent, ChangeLogEventV1, Payload, BubblegumInstruction,
}
use das.Bubblegum.ChangeLog.{save_changelog_event}
use das.Bubblegum.ChangeLog.Gap.{save_changelog_event-KeepsAssets}
use das.Bubblegum.Leaf.{
  NormalizedLeafFields, upsert_leaf, burnt_row, not_parsed, cancel_redeem_leaf, transfer,
  transfer_parts, delegation_freezing_nontransferability,
  delegation_freezing_nontransferability_parts, redeem, redeem_parts, cancel_redeem,
  cancel_redeem_parts, burn, burn_parts,
}
use das.Bubblegum.Leaf.Verification.{
  collection_verification, collection_verification_parts, creator_verification,
  creator_verification_parts,
}
use das.Bubblegum.Upserts.{on_asset}
use das.Bubblegum.Upserts.Spare.{
  upsert_asset_with_leaf_info-Spares, upsert_asset_with_owner_and_delegate_info-Spares,
  upsert_asset_with_seq-Spares, upsert_collection_info-Spares, upsert_asset_creators-Spares,
}

pub upsert_leaf-Spares :
    (crates : Crates) (leaf : NormalizedLeafFields) (nonce : ℤ) (tree_id : Pubkey)
    (leaf_hash : Hash) (seq : ℤ)
    → Spares (upsert_leaf crates leaf nonce tree_id leaf_hash seq)
unfolding upsert_leaf
upsert_leaf-Spares crates leaf nonce tree_id leaf_hash seq =
    upsert_asset_with_leaf_info-Spares _ _ _

burnt_row-row :
    (crates : Crates) (id : Pubkey) (r : Option Asset)
    → is_decompressed r ≡ true
    → but_burnt (burnt_row crates id r) ≡ but_burnt r
unfolding burnt_row
burnt_row-row crates id none h = absurd (cc)
burnt_row-row crates id (some r) h = refl

burnt-Spares :
    (crates : Crates) (id : Pubkey)
    → Spares (execute_assets storage_write_error (on_asset id (burnt_row crates id)))
burnt-Spares crates id =
    execute_assets-Spares storage_write_error (on_asset id (burnt_row crates id))
      (alter-SparesTables id _ (record { row = burnt_row-row crates id }))

pub not_parsed-Spares : {A : Type 0} → Spares (not_parsed {A = A})
not_parsed-Spares = KeepsAssets-Spares (raise-Keeps (parsing_error "Ix not parsed correctly"))

module _ (crates : Crates) (bundle : Bundle) (s : String) where
  -- The shape of every handler.
  pub save_then_transaction :
      {A : Type 0} (cl : ChangeLogEventV1) (k : ℕ → Action A)
      → ((seq : ℕ) → Spares (k seq))
      → Spares (save_changelog_event crates cl bundle.slot bundle.txn_id s >>= k)
  save_then_transaction cl k h =
      bind-Spares
        (KeepsAssets-Spares
          (save_changelog_event-KeepsAssets crates cl bundle.slot bundle.txn_id s))
        h

  cancel_redeem_leaf-Spares :
      (cl : ChangeLogEventV1) (leaf_hash : Hash) (seq : ℤ) (l : LeafSchema)
      → Spares (cancel_redeem_leaf crates cl leaf_hash seq l)
  unfolding cancel_redeem_leaf
  cancel_redeem_leaf-Spares cl leaf_hash seq (LeafSchema.v1 l) = transaction-Spares (
      bind-Spares (upsert_asset_with_leaf_info-Spares _ _ _) λ _.
        bind-Spares (upsert_asset_with_owner_and_delegate_info-Spares _ _ _ _)
          λ _. upsert_asset_with_seq-Spares _ _)
  cancel_redeem_leaf-Spares cl leaf_hash seq (LeafSchema.v2 l) = KeepsAssets-Spares (raise-Keeps _)

  transfer_parts-Spares :
      (le : Option LeafSchemaEvent) (cl : Option ChangeLogEventV1)
      → Spares (transfer_parts crates le cl bundle s)
  unfolding transfer_parts
  transfer_parts-Spares (some le) (some cl) = save_then_transaction cl _ (λ seq.
      transaction-Spares (
        bind-Spares (upsert_leaf-Spares crates _ _ _ _ _) λ _.
          bind-Spares (upsert_asset_with_owner_and_delegate_info-Spares _ _ _ _)
            λ _. upsert_asset_with_seq-Spares _ _))
  transfer_parts-Spares _ _ = not_parsed-Spares

  pub transfer-Spares : (p : BubblegumInstruction) → Spares (transfer crates p bundle s)
  unfolding transfer
  transfer-Spares p = transfer_parts-Spares p.leaf_update p.tree_update

  delegation_freezing_nontransferability_parts-Spares :
      (le : Option LeafSchemaEvent) (cl : Option ChangeLogEventV1)
      → Spares (delegation_freezing_nontransferability_parts crates le cl bundle s)
  unfolding delegation_freezing_nontransferability_parts
  delegation_freezing_nontransferability_parts-Spares (some le) (some cl) =
      save_then_transaction cl _ (λ seq. transaction-Spares (
        bind-Spares (upsert_leaf-Spares crates _ _ _ _ _) λ _.
          bind-Spares (upsert_asset_with_owner_and_delegate_info-Spares _ _ _ _)
            λ _. upsert_asset_with_seq-Spares _ _))
  delegation_freezing_nontransferability_parts-Spares _ _ = not_parsed-Spares

  pub delegation_freezing_nontransferability-Spares :
      (p : BubblegumInstruction) → Spares (delegation_freezing_nontransferability crates p bundle s)
  unfolding delegation_freezing_nontransferability
  delegation_freezing_nontransferability-Spares p =
      delegation_freezing_nontransferability_parts-Spares p.leaf_update p.tree_update

  redeem_parts-Spares : (cl : Option ChangeLogEventV1) → Spares (redeem_parts crates cl bundle s)
  unfolding redeem_parts
  redeem_parts-Spares (some cl) = save_then_transaction cl _ (λ seq. transaction-Spares (
      bind-Spares (upsert_asset_with_leaf_info-Spares _ _ _) λ _. upsert_asset_with_seq-Spares _ _))
  redeem_parts-Spares none = not_parsed-Spares

  pub redeem-Spares : (p : BubblegumInstruction) → Spares (redeem crates p bundle s)
  unfolding redeem
  redeem-Spares p = redeem_parts-Spares p.tree_update

  cancel_redeem_parts-Spares :
      (le : Option LeafSchemaEvent) (cl : Option ChangeLogEventV1)
      → Spares (cancel_redeem_parts crates le cl bundle s)
  unfolding cancel_redeem_parts
  cancel_redeem_parts-Spares (some le) (some cl) =
      save_then_transaction cl _ (λ seq. cancel_redeem_leaf-Spares cl le.leaf_hash _ le.schema)
  cancel_redeem_parts-Spares _ _ = not_parsed-Spares

  pub cancel_redeem-Spares : (p : BubblegumInstruction) → Spares (cancel_redeem crates p bundle s)
  unfolding cancel_redeem
  cancel_redeem-Spares p = cancel_redeem_parts-Spares p.leaf_update p.tree_update

  burn_parts-Spares : (cl : Option ChangeLogEventV1) → Spares (burn_parts crates cl bundle s)
  unfolding burn_parts
  burn_parts-Spares (some cl) = save_then_transaction cl _ (λ seq.
      transaction-Spares
        (bind-Spares (burnt-Spares crates _) λ _. upsert_asset_with_seq-Spares _ _))
  burn_parts-Spares none = not_parsed-Spares

  pub burn-Spares : (p : BubblegumInstruction) → Spares (burn crates p bundle s)
  unfolding burn
  burn-Spares p = burn_parts-Spares p.tree_update

  collection_verification_parts-Spares :
      (le : Option LeafSchemaEvent) (cl : Option ChangeLogEventV1) (q : Option Payload)
      → Spares (collection_verification_parts crates le cl q bundle s)
  unfolding collection_verification_parts
  collection_verification_parts-Spares (some le) (some cl)
        (some (Payload.collection_verification c v)) =
      save_then_transaction cl _ (λ seq. transaction-Spares (
        bind-Spares (upsert_leaf-Spares crates _ _ _ _ _) λ _.
          bind-Spares (upsert_asset_with_seq-Spares _ _) λ _. upsert_collection_info-Spares _ _))
  collection_verification_parts-Spares _ _ _ = not_parsed-Spares

  pub collection_verification-Spares :
      (p : BubblegumInstruction) → Spares (collection_verification crates p bundle s)
  unfolding collection_verification
  collection_verification-Spares p =
      collection_verification_parts-Spares p.leaf_update p.tree_update p.payload

  creator_verification_parts-Spares :
      (le : Option LeafSchemaEvent) (cl : Option ChangeLogEventV1) (q : Option Payload)
      → Spares (creator_verification_parts crates le cl q bundle s)
  unfolding creator_verification_parts
  creator_verification_parts-Spares (some le) (some cl)
        (some (Payload.creator_verification m c v)) =
      save_then_transaction cl _ (λ seq. transaction-Spares (
        bind-Spares (upsert_leaf-Spares crates _ _ _ _ _) λ _.
          bind-Spares (upsert_asset_with_owner_and_delegate_info-Spares _ _ _ _) λ _.
            bind-Spares (upsert_asset_with_seq-Spares _ _)
              λ _. upsert_asset_creators-Spares _ _ _ _))
  creator_verification_parts-Spares _ _ _ = not_parsed-Spares

  pub creator_verification-Spares :
      (p : BubblegumInstruction) → Spares (creator_verification crates p bundle s)
  unfolding creator_verification
  creator_verification-Spares p =
      creator_verification_parts-Spares p.leaf_update p.tree_update p.payload
