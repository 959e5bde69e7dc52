-- ===== src/Bubblegum/Dispatch/Spare.antt =====
-- handle_bubblegum_instruction of mod.rs, and a row of `asset` whose `seq` is 0.
use das.Prelude.{◌≡◌, true, ℕ, Option, none, some, String, arith}
use das.Database.{World, pure}
use das.Database.Decompressed.{
  is_decompressed, but_burnt, Spares, bind-Spares, KeepsAssets-Spares, pure-Spares,
}
use das.Database.Rollback.{KeepsAssets, pure-Keeps}
use das.Bubblegum.Types.{
  Crates, Bundle, BubblegumInstruction, InstructionName, DownloadMetadataInfo,
}
use das.Bubblegum.Leaf.Spare.{
  transfer-Spares, delegation_freezing_nontransferability-Spares, redeem-Spares,
  cancel_redeem-Spares, burn-Spares, collection_verification-Spares, creator_verification-Spares,
}
use das.Bubblegum.Metadata.Spare.{mint-Spares, update_metadata-Spares}
use das.Bubblegum.Names.{ix_str}
use das.Bubblegum.Dispatch.{notify_if_some, dispatch, handle_bubblegum_instruction}

nothing-Spares : Spares (pure tt)
nothing-Spares = pure-Spares tt

module _ (crates : Crates) where
  notify_if_some-KeepsAssets :
      (o : Option DownloadMetadataInfo) → KeepsAssets (notify_if_some crates o)
  unfolding notify_if_some
  notify_if_some-KeepsAssets none = pure-Keeps tt
  notify_if_some-KeepsAssets (some i) = record { same = λ w. ground arith }

  notify_if_some-Spares : (o : Option DownloadMetadataInfo) → Spares (notify_if_some crates o)
  notify_if_some-Spares o = KeepsAssets-Spares (notify_if_some-KeepsAssets o)

  dispatch-Spares :
      (n : InstructionName) (p : BubblegumInstruction) (b : Bundle) (s : String)
      → Spares (dispatch crates n p b s)
  unfolding dispatch
  dispatch-Spares InstructionName.transfer p b s = transfer-Spares crates b s p
  dispatch-Spares InstructionName.transfer_v2 p b s = transfer-Spares crates b s p
  dispatch-Spares InstructionName.burn p b s = burn-Spares crates b s p
  dispatch-Spares InstructionName.burn_v2 p b s = burn-Spares crates b s p
  dispatch-Spares InstructionName.delegate p b s =
      delegation_freezing_nontransferability-Spares crates b s p
  dispatch-Spares InstructionName.delegate_v2 p b s =
      delegation_freezing_nontransferability-Spares crates b s p
  dispatch-Spares InstructionName.delegate_and_freeze_v2 p b s =
      delegation_freezing_nontransferability-Spares crates b s p
  dispatch-Spares InstructionName.freeze_v2 p b s =
      delegation_freezing_nontransferability-Spares crates b s p
  dispatch-Spares InstructionName.set_non_transferable_v2 p b s =
      delegation_freezing_nontransferability-Spares crates b s p
  dispatch-Spares InstructionName.thaw_v2 p b s =
      delegation_freezing_nontransferability-Spares crates b s p
  dispatch-Spares InstructionName.thaw_and_revoke_v2 p b s =
      delegation_freezing_nontransferability-Spares crates b s p
  dispatch-Spares InstructionName.mint_v1 p b s =
      bind-Spares (mint-Spares crates b s p) notify_if_some-Spares
  dispatch-Spares InstructionName.mint_to_collection_v1 p b s =
      bind-Spares (mint-Spares crates b s p) notify_if_some-Spares
  dispatch-Spares InstructionName.mint_v2 p b s =
      bind-Spares (mint-Spares crates b s p) notify_if_some-Spares
  dispatch-Spares InstructionName.redeem p b s = redeem-Spares crates b s p
  dispatch-Spares InstructionName.cancel_redeem p b s = cancel_redeem-Spares crates b s p
  dispatch-Spares InstructionName.decompress_v1 p b s = nothing-Spares
  dispatch-Spares InstructionName.verify_creator p b s = creator_verification-Spares crates b s p
  dispatch-Spares InstructionName.unverify_creator p b s = creator_verification-Spares crates b s p
  dispatch-Spares InstructionName.verify_creator_v2 p b s = creator_verification-Spares crates b s p
  dispatch-Spares InstructionName.unverify_creator_v2 p b s =
      creator_verification-Spares crates b s p
  dispatch-Spares InstructionName.verify_collection p b s =
      collection_verification-Spares crates b s p
  dispatch-Spares InstructionName.unverify_collection p b s =
      collection_verification-Spares crates b s p
  dispatch-Spares InstructionName.set_and_verify_collection p b s =
      collection_verification-Spares crates b s p
  dispatch-Spares InstructionName.set_collection_v2 p b s =
      collection_verification-Spares crates b s p
  dispatch-Spares InstructionName.set_decompressible_state p b s = nothing-Spares
  dispatch-Spares InstructionName.update_metadata p b s =
      bind-Spares (update_metadata-Spares crates b s p) notify_if_some-Spares
  dispatch-Spares InstructionName.update_metadata_v2 p b s =
      bind-Spares (update_metadata-Spares crates b s p) notify_if_some-Spares
  dispatch-Spares InstructionName.update_asset_data_v2 p b s = nothing-Spares
  dispatch-Spares _ p b s = nothing-Spares

  -- A row of `asset` whose `seq` is 0, that of a decompressed asset, is after any instruction, on
  -- any database and whichever requests fail, what it was before, except that it may be burnt.
  pub handle_bubblegum_instruction_spares_decompressed :
      (p : BubblegumInstruction) (b : Bundle) (w : World) (j : ℕ)
      → is_decompressed (w.db.assets.asset j) ≡ true
      → but_burnt ((handle_bubblegum_instruction crates p b w).1.db.assets.asset j)
        ≡ but_burnt (w.db.assets.asset j)
  unfolding handle_bubblegum_instruction
  handle_bubblegum_instruction_spares_decompressed p b w j =
      (dispatch-Spares p.instruction p b (ix_str p.instruction)).spare w j
