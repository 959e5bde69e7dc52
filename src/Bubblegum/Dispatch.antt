-- ===== src/Bubblegum/Dispatch.antt =====
-- `handle_bubblegum_instruction` of program_transformers/src/bubblegum/mod.rs.
pub mod Atomic
pub mod Spare
use das.Prelude.{Option, none, some, List, [], ◌∷◌, ◌++◌, String}
use das.Database.{
  World, Result, ok, err, Action, pure, raise, bind_result, ◌>>=◌, ◌>>◌, download_metadata_notify,
}
use das.Bubblegum.Types.{
  Crates, BubblegumInstruction, InstructionName, Bundle, DownloadMetadataInfo,
}
use das.Bubblegum.Names.{ix_str}
use das.Bubblegum.Leaf.{
  transfer, delegation_freezing_nontransferability, redeem, cancel_redeem, burn,
}
use das.Bubblegum.Leaf.Verification.{collection_verification, creator_verification}
use das.Bubblegum.Metadata.{mint, update_metadata}

module _ (crates : Crates) where
  -- `download_metadata_notifier(info).await.map_err(DownloadMetadataNotify)?`
  notify : DownloadMetadataInfo → Action (Unit {0})
  notify info w = elim (crates.notify info) [
    | none ↦ (ok tt, record w { notified = w.notified ++ (info.asset_data_id, info.uri) ∷ [] })
    | some e ↦ (err (download_metadata_notify e), w)
  ]

  notify_if_some : Option DownloadMetadataInfo → Action (Unit {0})
  unfolding notify
  notify_if_some none = pure tt
  notify_if_some (some info) = notify info

  -- The handler of an instruction; names that the source leaves to `debug!` do nothing.
  unfoldable pub dispatch :
      InstructionName → BubblegumInstruction → Bundle → String → Action (Unit {0})
  unfolding notify_if_some
  dispatch InstructionName.transfer p b s = transfer crates p b s
  dispatch InstructionName.transfer_v2 p b s = transfer crates p b s
  dispatch InstructionName.burn p b s = burn crates p b s
  dispatch InstructionName.burn_v2 p b s = burn crates p b s
  dispatch InstructionName.delegate p b s = delegation_freezing_nontransferability crates p b s
  dispatch InstructionName.delegate_v2 p b s = delegation_freezing_nontransferability crates p b s
  dispatch InstructionName.delegate_and_freeze_v2 p b s =
      delegation_freezing_nontransferability crates p b s
  dispatch InstructionName.freeze_v2 p b s = delegation_freezing_nontransferability crates p b s
  dispatch InstructionName.set_non_transferable_v2 p b s =
      delegation_freezing_nontransferability crates p b s
  dispatch InstructionName.thaw_v2 p b s = delegation_freezing_nontransferability crates p b s
  dispatch InstructionName.thaw_and_revoke_v2 p b s =
      delegation_freezing_nontransferability crates p b s
  dispatch InstructionName.mint_v1 p b s = mint crates p b s >>= notify_if_some
  dispatch InstructionName.mint_to_collection_v1 p b s = mint crates p b s >>= notify_if_some
  dispatch InstructionName.mint_v2 p b s = mint crates p b s >>= notify_if_some
  dispatch InstructionName.redeem p b s = redeem crates p b s
  dispatch InstructionName.cancel_redeem p b s = cancel_redeem crates p b s
  dispatch InstructionName.decompress_v1 p b s = pure tt
  dispatch InstructionName.verify_creator p b s = creator_verification crates p b s
  dispatch InstructionName.unverify_creator p b s = creator_verification crates p b s
  dispatch InstructionName.verify_creator_v2 p b s = creator_verification crates p b s
  dispatch InstructionName.unverify_creator_v2 p b s = creator_verification crates p b s
  dispatch InstructionName.verify_collection p b s = collection_verification crates p b s
  dispatch InstructionName.unverify_collection p b s = collection_verification crates p b s
  dispatch InstructionName.set_and_verify_collection p b s = collection_verification crates p b s
  dispatch InstructionName.set_collection_v2 p b s = collection_verification crates p b s
  dispatch InstructionName.set_decompressible_state p b s = pure tt
  dispatch InstructionName.update_metadata p b s = update_metadata crates p b s >>= notify_if_some
  dispatch InstructionName.update_metadata_v2 p b s =
      update_metadata crates p b s >>= notify_if_some
  dispatch InstructionName.update_asset_data_v2 p b s = pure tt
  dispatch _ p b s = pure tt

  unfoldable pub handle_bubblegum_instruction : BubblegumInstruction → Bundle → Action (Unit {0})
  unfolding dispatch
  handle_bubblegum_instruction parsing_result bundle =
      dispatch parsing_result.instruction parsing_result bundle (ix_str parsing_result.instruction)
