-- ===== src/Backfiller/Rows/Finished.antt =====
-- delete_extra_rows_and_mark_as_backfilled: what is left of the rows of a tree.
use das.Prelude.{
  ℤ, ◌≡◌, refl, Bool-cases, inl, inr, ap, ◌∙◌, Bool, true, false, not, ◌&&◌, some, List, [], ◌∷◌,
  map, filter, count, ltb, ◌==◌, eqb_ℤ, if◌then◌else◌, arith,
}
use das.Database.{Pubkey}
use das.Backfiller.Rows.{
  BackfillRow, BackfillTree, quiet, pure, ◌>>=◌, request, update_tree, is_extra, is_free, is_forced,
  mark_tree_as_backfilled, clear_force_chk_flag, unlock_tree,
  delete_extra_rows_and_mark_as_backfilled, or_mark_as_failed, clean_up_backfilled_tree,
  get_trees_to_backfill,
}
use das.Backfiller.Rows.Taken.{takes, get_trees_to_backfill_once}

abbrev finished_row : BackfillRow → BackfillRow
finished_row r = record r { backfilled = true; force_chk = false; locked = false }

-- A row of the tree, backfilled.
abbrev pub finished : Pubkey → BackfillRow → BackfillRow
finished tree r = if r.tree == tree then finished_row r else r

abbrev pub finished_rows : Pubkey → ℤ → List BackfillRow → List BackfillRow
finished_rows tree max_seq rows =
    map (finished tree) (filter (λ r. not (is_extra tree max_seq r)) rows)

no_extra :
    (tree : Pubkey) (max_seq : ℤ) (rows : List BackfillRow)
    → filter (is_extra tree max_seq) (filter (λ r. not (is_extra tree max_seq r)) rows) ≡ []
no_extra tree max_seq [] = refl
no_extra tree max_seq (r ∷ rows) = ground (arith, no_extra tree max_seq rows)

updates-finished :
    (tree : Pubkey) (rows : List BackfillRow)
    → update_tree tree
        (λ r. record r { locked = false })
        (update_tree tree
          (λ r. record r { force_chk = false })
          (update_tree tree (λ r. record r { backfilled = true }) rows))
      ≡ map (finished tree) rows
updates-finished tree [] = refl
updates-finished tree (r ∷ rows) = elim (Bool-cases (r.tree == tree)) [
  | inl e ↦ rw (e, e, e) (ap (λ l. finished_row r ∷ l) (updates-finished tree rows))
  | inr e ↦ rw (e, e, e) (ap (λ l. r ∷ l) (updates-finished tree rows))
]

delete_extra_rows-quiet :
    (tree : Pubkey) (max_seq : ℤ) (rows : List BackfillRow)
    → delete_extra_rows_and_mark_as_backfilled tree max_seq (quiet rows)
      ≡ (some tt, quiet (finished_rows tree max_seq rows))
unfolding delete_extra_rows_and_mark_as_backfilled mark_tree_as_backfilled clear_force_chk_flag
    unlock_tree request pure ◌>>=◌
delete_extra_rows-quiet tree max_seq rows =
    rw (no_extra tree max_seq rows) (ap (λ l. (some tt, quiet l)) (updates-finished tree _))

-- A row that has the greatest sequence number of the tree, and has not failed.
abbrev pub is_last : Pubkey → ℤ → BackfillRow → Bool
is_last tree max_seq r = r.tree == tree && eqb_ℤ r.seq max_seq && not r.failed

finished-forced :
    (tree : Pubkey) (max_seq : ℤ) (rows : List BackfillRow)
    → count (λ r. is_forced r && r.tree == tree) (finished_rows tree max_seq rows) ≡ 0
finished-forced tree max_seq [] = refl
finished-forced tree max_seq (r ∷ rows) = ground (arith, finished-forced tree max_seq rows)

finished-free :
    (tree : Pubkey) (max_seq : ℤ) (rows : List BackfillRow)
    → count (λ r. is_free r && r.tree == tree) (finished_rows tree max_seq rows)
      ≡ count (is_last tree max_seq) rows
finished-free tree max_seq [] = refl
finished-free tree max_seq (r ∷ rows) = ground (arith, finished-free tree max_seq rows)

-- If no request fails: cleaning up a backfilled tree deletes its rows with another sequence number
-- than the last, marks the others as backfilled, and clears their flag and their lock, and changes
-- no row of another tree. But a tree with several rows that have the last number, and have not
-- failed, keeps all of them, so that it is taken up again at once; any other tree is not.
pub clean_up_backfilled_tree_lem :
    (tree : Pubkey) (max_seq : ℤ) (rows : List BackfillRow)
    → (clean_up_backfilled_tree (some max_seq) tree (quiet rows)
        ≡ (some tt, quiet (finished_rows tree max_seq rows)))
      × ((trees : List BackfillTree) × (rows' : List BackfillRow) × (get_trees_to_backfill
              (quiet (finished_rows tree max_seq rows))
            ≡ (some trees, quiet rows'))
          × (takes tree trees ≡ ltb 1 (count (is_last tree max_seq) rows)))
unfolding clean_up_backfilled_tree or_mark_as_failed
clean_up_backfilled_tree_lem tree max_seq rows =
    let (trees, rows', e, k, again) =
      get_trees_to_backfill_once (finished_rows tree max_seq rows) in
    (
      ap (or_mark_as_failed tree) (delete_extra_rows-quiet tree max_seq rows),
      (
        trees,
        rows',
        e,
        k tree ∙ ground (arith, finished-forced tree max_seq rows, finished-free tree max_seq rows),
      ),
    )
