-- ===== src/Examples/Runs.antt =====
-- The theorems at the inputs of Examples.antt.
use das.Prelude.{pos, ◌≢◌, ◌≡◌, refl, arith, [], ◌∷◌, as_i64}
use das.Prelude.{true, false, some, List}
use das.Database.{quiet, Instruction, request, ◌>>=◌, pure, transaction, storage_write_error}
use das.Database.Quiet.{after}
use das.Database.Decompressed.{but_burnt}
use das.Bubblegum.Leaf.{normalized, upsert_leaf, transfer, transfer_parts, transfer_event}
use das.Bubblegum.Leaf.Commute.{transfer_comm}
use das.Bubblegum.ChangeLog.{
  insert_change_log, insert_path, finish_change_log, insert_backfill_item, ignore_error,
  save_changelog_event,
}
use das.Bubblegum.ChangeLog.Backfill.{insert_change_log_backfill}
use das.Bubblegum.ChangeLog.Order.{saved, saved_comm}
use das.Bubblegum.Upserts.{upsert_asset_with_leaf_info, upsert_asset_with_owner_and_delegate_info}
use das.Bubblegum.Dispatch.{dispatch, handle_bubblegum_instruction}
use das.Bubblegum.Dispatch.Atomic.{handle_bubblegum_instruction_rolls_back}
use das.Bubblegum.Dispatch.Spare.{handle_bubblegum_instruction_spares_decompressed}
use das.Bubblegum.ChangeLog.Replay.{Saving, saved_all}
use das.Bubblegum.ChangeLog.Rows.{columns, saved_lem}
use das.Bubblegum.Names.{instruction_from, to_pascal_case, instruction_from-to_pascal_case}
use das.Examples.{crates, log, leaf, transfer_to, bundle, empty, decompressed, refusing}

three_is_not_four : as_i64 3 ≢ as_i64 4
three_is_not_four = λ h. ground arith

three_is_not_zero : as_i64 3 ≢ pos 0
three_is_not_zero = λ h. ground arith

four_is_not_zero : as_i64 4 ≢ pos 0
four_is_not_zero = λ h. ground arith

transfer_comm_example :
    (after
      (transfer crates (transfer_to 50 3) bundle "Transfer")
      (after (transfer crates (transfer_to 51 4) bundle "Transfer") empty)).assets
    ≡ (after
        (transfer crates (transfer_to 51 4) bundle "Transfer")
        (after (transfer crates (transfer_to 50 3) bundle "Transfer") empty)).assets
unfolding normalized
transfer_comm_example =
    transfer_comm crates (leaf 50) (leaf 51) (log 3) (log 4) (transfer_to 50 3) (transfer_to 51 4)
      bundle bundle "Transfer" "Transfer" (1 ∷ 2 ∷ []) (1 ∷ 2 ∷ []) empty refl refl refl refl refl
      refl refl three_is_not_four three_is_not_zero four_is_not_zero

saved_comm_example :
    (saved crates
      (log 3)
      9
      (1 ∷ [])
      "Transfer"
      (saved crates (log 4) 8 (2 ∷ []) "Burn" empty)).cl_items
    ≡ (saved crates
        (log 4)
        8
        (2 ∷ [])
        "Burn"
        (saved crates (log 3) 9 (1 ∷ []) "Transfer" empty)).cl_items
saved_comm_example =
    saved_comm crates (log 3) (log 4) 9 8 (1 ∷ []) (2 ∷ []) "Transfer" "Burn" empty
      three_is_not_four

-- The tree has no row yet.
insert_change_log_backfill_example :
    (insert_change_log crates (log 3) 9 (1 ∷ []) "Transfer" (quiet empty)).1.db.backfill_items
    ≡ record {
      tree = 7;
      seq = pos 3;
      slot = pos 9;
      force_chk = true;
      backfilled = false;
      failed = false;
    }
      ∷ []
unfolding insert_change_log insert_path finish_change_log insert_backfill_item ignore_error request
    ◌>>=◌ pure
insert_change_log_backfill_example =
    insert_change_log_backfill crates (log 3) 9 (1 ∷ []) "Transfer" (quiet empty) (omega arith)

spares_decompressed_example :
    but_burnt (
      (handle_bubblegum_instruction crates (transfer_to 50 3) bundle refusing).1.db.assets.asset 20)
    ≡ but_burnt (decompressed.assets.asset 20)
spares_decompressed_example =
    handle_bubblegum_instruction_spares_decompressed crates (transfer_to 50 3) bundle refusing 20
      refl

rolls_back_example :
    (handle_bubblegum_instruction crates (transfer_to 50 3) bundle refusing).1.db.assets
    ≡ decompressed.assets
unfolding handle_bubblegum_instruction dispatch transfer transfer_parts transfer_event
    save_changelog_event insert_change_log insert_path finish_change_log insert_backfill_item
    ignore_error request ◌>>=◌ pure transaction upsert_leaf upsert_asset_with_leaf_info
    upsert_asset_with_owner_and_delegate_info
rolls_back_example =
    handle_bubblegum_instruction_rolls_back crates (transfer_to 50 3) bundle refusing
      (storage_write_error "40001") refl refl

instruction_from-to_pascal_case_example :
    instruction_from (to_pascal_case Instruction.burn_v2) ≡ Instruction.burn_v2
instruction_from-to_pascal_case_example = instruction_from-to_pascal_case Instruction.burn_v2

abbrev later_saving : List Saving
later_saving = (log 4, 10, 2 ∷ [], "Burn") ∷ []

-- The leaf 3 of the tree of two leaves, with its parent.
saved_lem_example :
    let once = saved crates (log 3) 9 (1 ∷ []) "Transfer" empty in
    let later = saved_all crates later_saving once in
    (columns (once.cl_items 7 3) ≡ some (some (pos 1), pos 3, pos 0, 33))
    × ((saved crates (log 3) 9 (1 ∷ []) "Transfer" later).cl_items ≡ later.cl_items)
saved_lem_example =
    saved_lem crates (log 3) 9 (1 ∷ []) "Transfer" later_saving empty []
      (record { node = 13; index = 1 } ∷ []) (record { node = 33; index = 3 }) refl refl refl
      (omega arith) (omega arith) (omega arith)
