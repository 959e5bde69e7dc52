-- ===== src/Backfiller/Filler/Swallowed.antt =====
-- run_filler: blocks that cannot be listed.
use das.Prelude.{
  ℕ, suc, ℤ, ◌≡◌, refl, ap, ◌∙◌, Bool, true, false, Option, none, some, List, [], ◌∷◌,
  if◌then◌else◌,
}
use das.Backfiller.Rows.{BackfillRow, BackfillTree, quiet, request, clean_up_backfilled_tree}
use das.Backfiller.Rows.Finished.{finished_rows, clean_up_backfilled_tree_lem}
use das.Backfiller.Gaps.{GapInfo, found, get_missing_data}
use das.Backfiller.Blocks.{requested_ranges}
use das.Backfiller.Node.{Node, ok, Backfiller, Run, done, ◌>>=◌}
use das.Backfiller.Plug.{listed_slots, plug_slots, plug_gap, plug_gaps}
use das.Backfiller.Filler.{
  plug_missing, fetch_and_plug_gaps, attempt, end_try, fill_tree, reset_delay, on_table,
  is_last_try, backfill_tree_from_seq_1,
}

module _ (node : Node) (unlisted : (a b : ℕ) → node.get_blocks a b ≡ none) where
  listed_none : (ranges : List (ℕ × ℕ)) → listed_slots node ranges ≡ []
  unfolding listed_slots
  listed_none [] = refl
  listed_none ((a, b) ∷ ranges) = rw (listed_slots, unlisted a b) (listed_none ranges)

  plug_gaps_none :
      (gaps : List GapInfo) (tree : ℕ) (s : Backfiller) → plug_gaps node gaps tree s ≡ (ok tt, s)
  unfolding plug_gaps plug_gap plug_slots done ◌>>=◌
  plug_gaps_none [] tree s = refl
  plug_gaps_none (gap ∷ gaps) tree s =
      rw (listed_none (requested_ranges gap)) (plug_gaps_none gaps tree s)

  plug_missing_none :
      (tree : ℕ) (m : Option ℤ) (gaps : List GapInfo) (s : Backfiller)
      → plug_missing node tree (found (m, gaps)) s ≡ (ok m, s)
  unfolding done ◌>>=◌
  plug_missing_none tree m gaps s = rw (plug_gaps_none gaps tree s) refl

  fetch_and_plug_none :
      (tree : ℕ) (rows : List BackfillRow) (m : Option ℤ) (gaps : List GapInfo) (s : Backfiller)
      → s.table ≡ quiet rows
      → get_missing_data tree rows ≡ found (m, gaps)
      → fetch_and_plug_gaps node tree s ≡ (ok m, record s { table = quiet rows })
  unfolding fetch_and_plug_gaps request ◌>>=◌
  fetch_and_plug_none tree rows m gaps s e h =
      rw (e, h) (plug_missing_none tree m gaps (record s { table = quiet rows }))

  end_try_ok :
      (tree : ℕ) (is_last : Bool) (next : Run (Unit {0})) (m : Option ℤ) (s : Backfiller)
      → end_try tree is_last next (ok m, s)
        ≡ (ok tt, reset_delay (on_table (clean_up_backfilled_tree m tree) s))
  unfolding end_try
  end_try_ok tree true next m s = refl
  end_try_ok tree false next m s = refl

  -- If the RPC node lists no blocks, but gives an error each time, then the first try to fill the gaps
  -- of a tree succeeds all the same: nothing is sent, and the tree is cleaned up, so that the rows
  -- which show the gaps are deleted and the last one is marked as backfilled. (No request on the
  -- table fails, and no sequence number has two slots.)
  pub fill_tree_swallows :
      (fuel left : ℕ) (tree : BackfillTree) (rows : List BackfillRow) (m : ℤ) (gaps : List GapInfo)
      (s : Backfiller)
      → tree.backfill_from_seq_1 ≡ false
      → s.table ≡ quiet rows
      → get_missing_data tree.unique_tree rows ≡ found (some m, gaps)
      → fill_tree node fuel (suc left) tree s ≡ (
        ok tt,
        record s { table = quiet (finished_rows tree.unique_tree m rows); failure_delay = 100 },
      )
  unfolding fill_tree attempt
  fill_tree_swallows fuel left tree rows m gaps s f e h =
      let next = fill_tree node fuel left tree in
      ap
        (λ b. end_try tree.unique_tree (is_last_try left) next (
          (if b
              then backfill_tree_from_seq_1 node fuel tree.unique_tree
              else fetch_and_plug_gaps node tree.unique_tree)
            s))
        f
      ∙ ap (end_try tree.unique_tree (is_last_try left) next)
          (fetch_and_plug_none tree.unique_tree rows (some m) gaps s e h)
      ∙ end_try_ok tree.unique_tree (is_last_try left) next (some m)
          (record s { table = quiet rows })
      ∙ ap (λ p. (ok tt, record s { table = p.1; failure_delay = 100 }))
          (clean_up_backfilled_tree_lem tree.unique_tree m rows).0
