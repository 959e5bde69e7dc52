-- ===== src/Accounts/Burns.antt =====
-- program_transformers/src/{token_metadata,mpl_core_program}/v1_asset.rs: `burn_v1_asset`, which is
-- the same in both, and the statements of the Core `save_v1_asset` on the table `asset`.
pub mod Replay
use das.Prelude.{ℕ, Bool, true, Option, none, some, as_i64, if◌then◌else◌}
use das.Database.{
  Pubkey, Asset, default_asset, upsert, alter, gt_column, Action, execute_assets,
  storage_write_error,
}
use das.Accounts.Columns.{
  AssetMetadataAccountColumns, metadata_account_row, mint_account_row, token_account_row,
}

abbrev pub set_burnt : ℕ → Asset → Asset
set_burnt slot r = record r { slot_updated = some (as_i64 slot); burnt = true }

-- `WHERE excluded.slot_updated > asset.slot_updated`
pub burn_row : Pubkey → ℕ → Option Asset → Option Asset
burn_row id slot =
    upsert (set_burnt slot (default_asset id)) (set_burnt slot)
      λ r. gt_column (as_i64 slot) r.slot_updated

pub burn_v1_asset : Pubkey → ℕ → Action (Unit {0})
burn_v1_asset id slot =
    execute_assets storage_write_error λ t. record t { asset = alter id (burn_row id slot) t.asset }

-- The three upserts at the end of the Core `save_v1_asset`, all with the slot of the account update.
pub save_core_rows :
    AssetMetadataAccountColumns → Option Pubkey → Bool → Option Pubkey → Option Asset → Option Asset
save_core_rows c owner frozen delegate row =
    let slot = as_i64 c.slot_updated_metadata_account in
    let row1 = metadata_account_row c row in
    let row2 =
      mint_account_row
        (record { mint = c.mint; supply = 1; slot_updated_mint_account = slot; extensions = none })
        row1 in
    token_account_row
      (record {
        mint = c.mint;
        owner = owner;
        frozen = frozen;
        delegate = delegate;
        slot_updated_token_account = some slot;
      })
      row2
