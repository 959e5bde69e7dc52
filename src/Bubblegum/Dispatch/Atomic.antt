-- ===== src/Bubblegum/Dispatch/Atomic.antt =====
-- handle_bubblegum_instruction of mod.rs when it ends in an error.
use das.Prelude.{◌≡◌, false, Option, none, some, String, arith}
use das.Database.{World, err, pure, ProgramTransformerError}
use das.Database.Rollback.{
  RollsBack, RollsBack-run, KeepsAssets-RollsBack, pure-Keeps, FailsByNotifier,
  bind_notifier-RollsBack, from_notifier,
}
use das.Bubblegum.Types.{
  Crates, Bundle, BubblegumInstruction, InstructionName, DownloadMetadataInfo,
}
use das.Bubblegum.Leaf.Atomic.{
  transfer-RollsBack, delegation_freezing_nontransferability-RollsBack, redeem-RollsBack,
  cancel_redeem-RollsBack, burn-RollsBack, collection_verification-RollsBack,
  creator_verification-RollsBack,
}
use das.Bubblegum.Metadata.Atomic.{mint-RollsBack, update_metadata-RollsBack}
use das.Bubblegum.Names.{ix_str}
use das.Bubblegum.Dispatch.{notify_if_some, dispatch, handle_bubblegum_instruction}

pub nothing-RollsBack : RollsBack (pure tt)
nothing-RollsBack = KeepsAssets-RollsBack (pure-Keeps tt)

module _ (crates : Crates) where
  notify_if_some-FailsByNotifier :
      (o : Option DownloadMetadataInfo) → FailsByNotifier (notify_if_some crates o)
  unfolding notify_if_some pure
  notify_if_some-FailsByNotifier none = record { only = λ w e q. absurd (cc) }
  notify_if_some-FailsByNotifier (some i) = record { only = λ w e q. ground arith }

  dispatch-RollsBack :
      (n : InstructionName) (p : BubblegumInstruction) (b : Bundle) (s : String)
      → RollsBack (dispatch crates n p b s)
  unfolding dispatch
  dispatch-RollsBack InstructionName.transfer p b s = transfer-RollsBack crates b s p
  dispatch-RollsBack InstructionName.transfer_v2 p b s = transfer-RollsBack crates b s p
  dispatch-RollsBack InstructionName.burn p b s = burn-RollsBack crates b s p
  dispatch-RollsBack InstructionName.burn_v2 p b s = burn-RollsBack crates b s p
  dispatch-RollsBack InstructionName.delegate p b s =
      delegation_freezing_nontransferability-RollsBack crates b s p
  dispatch-RollsBack InstructionName.delegate_v2 p b s =
      delegation_freezing_nontransferability-RollsBack crates b s p
  dispatch-RollsBack InstructionName.delegate_and_freeze_v2 p b s =
      delegation_freezing_nontransferability-RollsBack crates b s p
  dispatch-RollsBack InstructionName.freeze_v2 p b s =
      delegation_freezing_nontransferability-RollsBack crates b s p
  dispatch-RollsBack InstructionName.set_non_transferable_v2 p b s =
      delegation_freezing_nontransferability-RollsBack crates b s p
  dispatch-RollsBack InstructionName.thaw_v2 p b s =
      delegation_freezing_nontransferability-RollsBack crates b s p
  dispatch-RollsBack InstructionName.thaw_and_revoke_v2 p b s =
      delegation_freezing_nontransferability-RollsBack crates b s p
  dispatch-RollsBack InstructionName.mint_v1 p b s =
      bind_notifier-RollsBack (mint-RollsBack crates b s p) notify_if_some-FailsByNotifier
  dispatch-RollsBack InstructionName.mint_to_collection_v1 p b s =
      bind_notifier-RollsBack (mint-RollsBack crates b s p) notify_if_some-FailsByNotifier
  dispatch-RollsBack InstructionName.mint_v2 p b s =
      bind_notifier-RollsBack (mint-RollsBack crates b s p) notify_if_some-FailsByNotifier
  dispatch-RollsBack InstructionName.redeem p b s = redeem-RollsBack crates b s p
  dispatch-RollsBack InstructionName.cancel_redeem p b s = cancel_redeem-RollsBack crates b s p
  dispatch-RollsBack InstructionName.decompress_v1 p b s = nothing-RollsBack
  dispatch-RollsBack InstructionName.verify_creator p b s =
      creator_verification-RollsBack crates b s p
  dispatch-RollsBack InstructionName.unverify_creator p b s =
      creator_verification-RollsBack crates b s p
  dispatch-RollsBack InstructionName.verify_creator_v2 p b s =
      creator_verification-RollsBack crates b s p
  dispatch-RollsBack InstructionName.unverify_creator_v2 p b s =
      creator_verification-RollsBack crates b s p
  dispatch-RollsBack InstructionName.verify_collection p b s =
      collection_verification-RollsBack crates b s p
  dispatch-RollsBack InstructionName.unverify_collection p b s =
      collection_verification-RollsBack crates b s p
  dispatch-RollsBack InstructionName.set_and_verify_collection p b s =
      collection_verification-RollsBack crates b s p
  dispatch-RollsBack InstructionName.set_collection_v2 p b s =
      collection_verification-RollsBack crates b s p
  dispatch-RollsBack InstructionName.set_decompressible_state p b s = nothing-RollsBack
  dispatch-RollsBack InstructionName.update_metadata p b s =
      bind_notifier-RollsBack (update_metadata-RollsBack crates b s p)
        notify_if_some-FailsByNotifier
  dispatch-RollsBack InstructionName.update_metadata_v2 p b s =
      bind_notifier-RollsBack (update_metadata-RollsBack crates b s p)
        notify_if_some-FailsByNotifier
  dispatch-RollsBack InstructionName.update_asset_data_v2 p b s = nothing-RollsBack
  dispatch-RollsBack _ p b s = nothing-RollsBack

  -- If the handling of an instruction ends in an error, other than that of the download notifier,
  -- then every asset table is as it was before, whichever request of the handler failed.
  pub handle_bubblegum_instruction_rolls_back :
      (p : BubblegumInstruction) (b : Bundle) (w : World) (e : ProgramTransformerError)
      → (handle_bubblegum_instruction crates p b w).0 ≡ err e
      → from_notifier e ≡ false
      → (handle_bubblegum_instruction crates p b w).1.db.assets ≡ w.db.assets
  unfolding handle_bubblegum_instruction
  handle_bubblegum_instruction_rolls_back p b w e =
      RollsBack-run (dispatch crates p.instruction p b (ix_str p.instruction)) w e
        (dispatch-RollsBack p.instruction p b (ix_str p.instruction))
