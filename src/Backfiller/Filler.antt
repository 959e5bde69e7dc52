-- ===== src/Backfiller/Filler.antt =====
-- nft_ingester/src/backfiller.rs: run_filler, its attempts at the trees that are taken up.
pub mod Settled
pub mod Swallowed
use das.Prelude.{
  ℕ, zero, suc, ◌*◌, ℤ, pos, Bool, true, false, Option, none, some, List, [], ◌∷◌, min, as_i64,
  ◌==◌, if◌then◌else◌,
}
use das.Database.{Pubkey}
use das.Backfiller.Rows.{
  BackfillRow, Table, BackfillTree, read, mark_tree_as_failed, clean_up_backfilled_tree,
  get_trees_to_backfill,
}
use das.Backfiller.Gaps.{
  SimpleBackfillItem, GapInfo, Missing, found, identical_seqs, start_seq, get_missing_data,
}
use das.Backfiller.Node.{
  Node, database_error, Result, ok, err, running, Backfiller, Run, done, fail, ◌>>=◌, ◌>>◌,
  put_table,
}
use das.Backfiller.Plug.{plug_gaps}
use das.Backfiller.Signatures.{find_slots_via_address}

abbrev pub slot_gaps : List ℕ → List GapInfo
slot_gaps [] = []
slot_gaps (slot ∷ slots) =
    let end : SimpleBackfillItem = record { seq = pos 0; slot = as_i64 slot } in
    record { prev = end; curr = end } ∷ slot_gaps slots

-- A request on the table. An error is one of the database.
abbrev pub query : {A : Type 0} → (List BackfillRow → A) → Run A
query f s = put_table s (read f s.table)

-- 100ms, and at most 10s; the product does not overflow below that.
abbrev pub increase_delay : Backfiller → Backfiller
increase_delay s = record s { failure_delay = min 10_000 (s.failure_delay * 2) }

abbrev pub reset_delay : Backfiller → Backfiller
reset_delay s = record s { failure_delay = 100 }

abbrev pub on_table : (Table → Option (Unit {0}) × Table) → Backfiller → Backfiller
on_table f s = record s { table = (f s.table).1 }

-- The end of one try, the last one or not.
unfoldable pub end_try :
    Pubkey → Bool → Run (Unit {0}) → Result (Option ℤ) × Backfiller → Result (Unit {0}) × Backfiller
end_try tree is_last next (ok max_seq, s) =
    (ok tt, reset_delay (on_table (clean_up_backfilled_tree max_seq tree) s))
end_try tree true next (err e, s) = (ok tt, on_table (mark_tree_as_failed tree) s)
end_try tree false next (err e, s) = next (increase_delay s)
end_try tree is_last next (running, s) = (running, s)

-- `tries == NUM_TRIES`
abbrev pub is_last_try : ℕ → Bool
is_last_try zero = true
is_last_try (suc left) = false

module _ (node : Node) where
  abbrev pub plug_found : Pubkey → Result (List ℕ) → Run (Option ℤ)
  plug_found tree (ok slots) = do plug_gaps node (slot_gaps slots) tree; done (some (pos 0))
  plug_found tree (err e) = fail e
  plug_found tree running = λ s. (running, s)

  unfoldable pub backfill_tree_from_seq_1 : ℕ → Pubkey → Run (Option ℤ)
  backfill_tree_from_seq_1 fuel tree = plug_found tree (find_slots_via_address node fuel tree)

  abbrev pub plug_missing : Pubkey → Missing (Option ℤ × List GapInfo) → Run (Option ℤ)
  plug_missing tree (found (max_seq, gaps)) = do plug_gaps node gaps tree; done max_seq
  plug_missing tree (identical_seqs a b) = fail database_error

  -- The start and the rows are read by one request each.
  unfoldable pub fetch_and_plug_gaps : Pubkey → Run (Option ℤ)
  fetch_and_plug_gaps tree = do
    start ← query (start_seq tree)
    missing ← query (get_missing_data tree)
    plug_missing tree missing

  unfoldable pub attempt : ℕ → BackfillTree → Run (Option ℤ)
  attempt fuel tree =
      if tree.backfill_from_seq_1
      then backfill_tree_from_seq_1 fuel tree.unique_tree
      else fetch_and_plug_gaps tree.unique_tree

  -- `for tries in 1..=NUM_TRIES`, by the number of tries left.
  unfoldable pub fill_tree : ℕ → ℕ → BackfillTree → Run (Unit {0})
  fill_tree fuel zero tree s = (ok tt, s)
  fill_tree fuel (suc left) tree s =
      let next = fill_tree fuel left tree in
      end_try tree.unique_tree (is_last_try left) next (attempt fuel tree s)

  unfoldable pub fill_trees : ℕ → List BackfillTree → Run (Unit {0})
  fill_trees fuel [] = done tt
  fill_trees fuel (tree ∷ trees) = do fill_tree fuel 5 tree; fill_trees fuel trees

  -- One round of the loop of run_filler.
  abbrev pub fill_taken : ℕ → Option (List BackfillTree) × Table → Run (Unit {0})
  fill_taken fuel (some trees, t) s = fill_trees fuel trees (record s { table = t })
  fill_taken fuel (none, t) s = (ok tt, increase_delay (record s { table = t }))

  unfoldable pub run_filler_round : ℕ → Run (Unit {0})
  run_filler_round fuel s = fill_taken fuel (get_trees_to_backfill s.table) s
