-- ===== src/Bubblegum/Leaf/Atomic.antt =====
-- The handlers of Leaf.antt (transfer.rs, delegate.rs, redeem.rs, cancel_redeem.rs, burn.rs and the
-- two verifications) when they fail: each has at most one transaction.
use das.Prelude.{ℕ, Option, none, some, String, ℤ}
use das.Database.{Hash, Action, ◌>>=◌, parsing_error}
use das.Database.Rollback.{
  RollsBack, KeepsAssets-RollsBack, bind-RollsBack, transaction-RollsBack, raise-Keeps,
}
use das.Bubblegum.Types.{
  Crates, Bundle, LeafSchema, LeafSchemaEvent, ChangeLogEventV1, Payload, BubblegumInstruction,
}
use das.Bubblegum.ChangeLog.{save_changelog_event}
use das.Bubblegum.ChangeLog.Gap.{save_changelog_event-KeepsAssets}
use das.Bubblegum.Leaf.{
  not_parsed, cancel_redeem_leaf, transfer, transfer_parts, delegation_freezing_nontransferability,
  delegation_freezing_nontransferability_parts, redeem, redeem_parts, cancel_redeem,
  cancel_redeem_parts, burn, burn_parts,
}
use das.Bubblegum.Leaf.Verification.{
  collection_verification, collection_verification_parts, creator_verification,
  creator_verification_parts,
}

pub not_parsed-RollsBack : {A : Type 0} → RollsBack (not_parsed {A = A})
not_parsed-RollsBack = KeepsAssets-RollsBack (raise-Keeps (parsing_error "Ix not parsed correctly"))

module _ (crates : Crates) (bundle : Bundle) (s : String) where
  -- The shape of every handler.
  pub save_then_transaction :
      {A : Type 0} (cl : ChangeLogEventV1) (k : ℕ → Action A)
      → ((seq : ℕ) → RollsBack (k seq))
      → RollsBack (save_changelog_event crates cl bundle.slot bundle.txn_id s >>= k)
  save_then_transaction cl k h =
      bind-RollsBack (save_changelog_event-KeepsAssets crates cl bundle.slot bundle.txn_id s) h

  cancel_redeem_leaf-RollsBack :
      (cl : ChangeLogEventV1) (leaf_hash : Hash) (seq : ℤ) (l : LeafSchema)
      → RollsBack (cancel_redeem_leaf crates cl leaf_hash seq l)
  unfolding cancel_redeem_leaf
  cancel_redeem_leaf-RollsBack cl leaf_hash seq (LeafSchema.v1 l) = transaction-RollsBack _
  cancel_redeem_leaf-RollsBack cl leaf_hash seq (LeafSchema.v2 l) =
      KeepsAssets-RollsBack (raise-Keeps _)

  transfer_parts-RollsBack :
      (le : Option LeafSchemaEvent) (cl : Option ChangeLogEventV1)
      → RollsBack (transfer_parts crates le cl bundle s)
  unfolding transfer_parts
  transfer_parts-RollsBack (some le) (some cl) =
      save_then_transaction cl _ (λ seq. transaction-RollsBack _)
  transfer_parts-RollsBack _ _ = not_parsed-RollsBack

  pub transfer-RollsBack : (p : BubblegumInstruction) → RollsBack (transfer crates p bundle s)
  unfolding transfer
  transfer-RollsBack p = transfer_parts-RollsBack p.leaf_update p.tree_update

  delegation_freezing_nontransferability_parts-RollsBack :
      (le : Option LeafSchemaEvent) (cl : Option ChangeLogEventV1)
      → RollsBack (delegation_freezing_nontransferability_parts crates le cl bundle s)
  unfolding delegation_freezing_nontransferability_parts
  delegation_freezing_nontransferability_parts-RollsBack (some le) (some cl) =
      save_then_transaction cl _ (λ seq. transaction-RollsBack _)
  delegation_freezing_nontransferability_parts-RollsBack _ _ = not_parsed-RollsBack

  pub delegation_freezing_nontransferability-RollsBack :
      (p : BubblegumInstruction)
      → RollsBack (delegation_freezing_nontransferability crates p bundle s)
  unfolding delegation_freezing_nontransferability
  delegation_freezing_nontransferability-RollsBack p =
      delegation_freezing_nontransferability_parts-RollsBack p.leaf_update p.tree_update

  redeem_parts-RollsBack :
      (cl : Option ChangeLogEventV1) → RollsBack (redeem_parts crates cl bundle s)
  unfolding redeem_parts
  redeem_parts-RollsBack (some cl) = save_then_transaction cl _ (λ seq. transaction-RollsBack _)
  redeem_parts-RollsBack none = not_parsed-RollsBack

  pub redeem-RollsBack : (p : BubblegumInstruction) → RollsBack (redeem crates p bundle s)
  unfolding redeem
  redeem-RollsBack p = redeem_parts-RollsBack p.tree_update

  cancel_redeem_parts-RollsBack :
      (le : Option LeafSchemaEvent) (cl : Option ChangeLogEventV1)
      → RollsBack (cancel_redeem_parts crates le cl bundle s)
  unfolding cancel_redeem_parts
  cancel_redeem_parts-RollsBack (some le) (some cl) =
      save_then_transaction cl _ (λ seq. cancel_redeem_leaf-RollsBack cl le.leaf_hash _ le.schema)
  cancel_redeem_parts-RollsBack _ _ = not_parsed-RollsBack

  pub cancel_redeem-RollsBack :
      (p : BubblegumInstruction) → RollsBack (cancel_redeem crates p bundle s)
  unfolding cancel_redeem
  cancel_redeem-RollsBack p = cancel_redeem_parts-RollsBack p.leaf_update p.tree_update

  burn_parts-RollsBack : (cl : Option ChangeLogEventV1) → RollsBack (burn_parts crates cl bundle s)
  unfolding burn_parts
  burn_parts-RollsBack (some cl) = save_then_transaction cl _ (λ seq. transaction-RollsBack _)
  burn_parts-RollsBack none = not_parsed-RollsBack

  pub burn-RollsBack : (p : BubblegumInstruction) → RollsBack (burn crates p bundle s)
  unfolding burn
  burn-RollsBack p = burn_parts-RollsBack p.tree_update

  collection_verification_parts-RollsBack :
      (le : Option LeafSchemaEvent) (cl : Option ChangeLogEventV1) (q : Option Payload)
      → RollsBack (collection_verification_parts crates le cl q bundle s)
  unfolding collection_verification_parts
  collection_verification_parts-RollsBack (some le) (some cl)
        (some (Payload.collection_verification c v)) =
      save_then_transaction cl _ (λ seq. transaction-RollsBack _)
  collection_verification_parts-RollsBack _ _ _ = not_parsed-RollsBack

  pub collection_verification-RollsBack :
      (p : BubblegumInstruction) → RollsBack (collection_verification crates p bundle s)
  unfolding collection_verification
  collection_verification-RollsBack p =
      collection_verification_parts-RollsBack p.leaf_update p.tree_update p.payload

  creator_verification_parts-RollsBack :
      (le : Option LeafSchemaEvent) (cl : Option ChangeLogEventV1) (q : Option Payload)
      → RollsBack (creator_verification_parts crates le cl q bundle s)
  unfolding creator_verification_parts
  creator_verification_parts-RollsBack (some le) (some cl)
        (some (Payload.creator_verification m c v)) =
      save_then_transaction cl _ (λ seq. transaction-RollsBack _)
  creator_verification_parts-RollsBack _ _ _ = not_parsed-RollsBack

  pub creator_verification-RollsBack :
      (p : BubblegumInstruction) → RollsBack (creator_verification crates p bundle s)
  unfolding creator_verification
  creator_verification-RollsBack p =
      creator_verification_parts-RollsBack p.leaf_update p.tree_update p.payload
