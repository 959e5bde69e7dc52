-- ===== src/Backfiller/Filler/Settled.antt =====
-- run_filler: what its tries leave of the rows of a tree.
use das.Prelude.{
  ℕ, zero, suc, ℤ, ◌≡◌, refl, ap, ◌∙◌, ◌⊎◌, inl, inr, Bool, true, false, Option, none, some, List,
  if◌then◌else◌,
}
use das.Database.{Pubkey}
use das.Backfiller.Rows.{
  BackfillRow, BackfillTree, quiet, request, update_tree, mark_tree_as_failed,
  clean_up_backfilled_tree,
}
use das.Backfiller.Rows.Finished.{finished_rows, clean_up_backfilled_tree_lem}
use das.Backfiller.Gaps.{GapInfo, Missing, found, identical_seqs}
use das.Backfiller.Node.{Node, Result, ok, err, running, Backfiller, Run, bind_result, ◌>>=◌}
use das.Backfiller.Signatures.{find_slots_via_address}
use das.Backfiller.Plug.Untouched.{ended, Keeps, done-Keeps, fail-Keeps, plug_gaps-Keeps}
use das.Backfiller.Filler.{
  plug_found, backfill_tree_from_seq_1, query, plug_missing, fetch_and_plug_gaps, attempt, end_try,
  fill_tree,
}

module _ (rows : List BackfillRow) where
  -- A step that ends and leaves the rows as they are, if no request fails.
  record KeepsRows {A : Type 0} (m : Run A) : Type 0 where
    rows_same : (s : Backfiller) → s.table ≡ quiet rows → (m s).1.table ≡ quiet rows
    rows_ends : (s : Backfiller) → s.table ≡ quiet rows → ended (m s).0 ≡ true

  bind_result-rows :
      {A B : Type 0} (f : A → Run B) (r : Result A × Backfiller)
      → r.1.table ≡ quiet rows
      → ((a : A) → KeepsRows (f a))
      → (bind_result f r).1.table ≡ quiet rows
  bind_result-rows f (ok a, s) e h = (h a).rows_same s e
  bind_result-rows f (err x, s) e h = e
  bind_result-rows f (running, s) e h = e

  bind_result-rows_ends :
      {A B : Type 0} (f : A → Run B) (r : Result A × Backfiller)
      → r.1.table ≡ quiet rows
      → ended r.0 ≡ true
      → ((a : A) → KeepsRows (f a))
      → ended (bind_result f r).0 ≡ true
  bind_result-rows_ends f (ok a, s) e k h = (h a).rows_ends s e
  bind_result-rows_ends f (err x, s) e k h = refl
  bind_result-rows_ends f (running, s) e k h = cc

  bind-KeepsRows :
      {A B : Type 0} {m : Run A} {f : A → Run B}
      → KeepsRows m
      → ((a : A) → KeepsRows (f a))
      → KeepsRows (m >>= f)
  unfolding ◌>>=◌
  bind-KeepsRows {m} {f} h k = record {
    rows_same = λ s e. bind_result-rows f (m s) (h.rows_same s e) k;
    rows_ends = λ s e. bind_result-rows_ends f (m s) (h.rows_same s e) (h.rows_ends s e) k;
  }

  Keeps-KeepsRows : {A : Type 0} {m : Run A} → Keeps m → KeepsRows m
  Keeps-KeepsRows h = record { rows_same = λ s e. h.same s ∙ e; rows_ends = λ s e. h.ends s }

  query-KeepsRows : {A : Type 0} (f : List BackfillRow → A) → KeepsRows (query f)
  unfolding request
  query-KeepsRows f = record { rows_same = λ s e. rw e refl; rows_ends = λ s e. rw e refl }

  if-KeepsRows :
      {A : Type 0} {m k : Run A} (b : Bool)
      → KeepsRows m
      → KeepsRows k
      → KeepsRows (if b then m else k)
  if-KeepsRows true h h' = h
  if-KeepsRows false h h' = h'

  module _ (node : Node) (fuel : ℕ) where
    plug_found-KeepsRows :
        (tree : Pubkey) (slots : Result (List ℕ))
        → ended slots ≡ true
        → KeepsRows (plug_found node tree slots)
    plug_found-KeepsRows tree (ok slots) h =
        bind-KeepsRows (Keeps-KeepsRows (plug_gaps-Keeps node _ tree))
          (λ _. Keeps-KeepsRows (done-Keeps _))
    plug_found-KeepsRows tree (err e) h = Keeps-KeepsRows (fail-Keeps e)
    plug_found-KeepsRows tree running h = cc

    plug_missing-KeepsRows :
        (tree : Pubkey) (missing : Missing (Option ℤ × List GapInfo))
        → KeepsRows (plug_missing node tree missing)
    plug_missing-KeepsRows tree (found (m, gaps)) =
        bind-KeepsRows (Keeps-KeepsRows (plug_gaps-Keeps node gaps tree))
          (λ _. Keeps-KeepsRows (done-Keeps m))
    plug_missing-KeepsRows tree (identical_seqs a b) = Keeps-KeepsRows (fail-Keeps _)

    attempt-KeepsRows :
        (tree : BackfillTree)
        → ended (find_slots_via_address node fuel tree.unique_tree) ≡ true
        → KeepsRows (attempt node fuel tree)
    unfolding attempt backfill_tree_from_seq_1 fetch_and_plug_gaps
    attempt-KeepsRows tree h =
        if-KeepsRows tree.backfill_from_seq_1 (plug_found-KeepsRows tree.unique_tree _ h) (
          bind-KeepsRows (query-KeepsRows _)
            λ _. bind-KeepsRows (query-KeepsRows _) (plug_missing-KeepsRows tree.unique_tree))

abbrev pub failed_rows : Pubkey → List BackfillRow → List BackfillRow
failed_rows tree = update_tree tree (λ r. record r { failed = true })

-- The tree is cleaned up, or marked as failed.
abbrev pub Settled : Pubkey → List BackfillRow → Result (Unit {0}) × Backfiller → Type 0
Settled tree rows (running, s) = ⊥
Settled tree rows (err e, s) = ⊥
Settled tree rows (ok _, s) =
    ((max_seq : ℤ) × (s.table ≡ quiet (finished_rows tree max_seq rows)))
    ⊎ (s.table ≡ quiet (failed_rows tree rows))

mark_failed-quiet :
    (tree : Pubkey) (rows : List BackfillRow)
    → (mark_tree_as_failed tree (quiet rows)).1 ≡ quiet (failed_rows tree rows)
unfolding mark_tree_as_failed request
mark_failed-quiet tree rows = refl

clean_up_none :
    (tree : Pubkey) (rows : List BackfillRow)
    → (clean_up_backfilled_tree none tree (quiet rows)).1 ≡ quiet (failed_rows tree rows)
unfolding clean_up_backfilled_tree
clean_up_none tree rows = mark_failed-quiet tree rows

end_try-Settled :
    (tree : Pubkey) (rows : List BackfillRow) (is_last : Bool) (next : Run (Unit {0}))
    (r : Result (Option ℤ) × Backfiller)
    → r.1.table ≡ quiet rows
    → ended r.0 ≡ true
    → ((s : Backfiller) → is_last ≡ false → s.table ≡ quiet rows → Settled tree rows (next s))
    → Settled tree rows (end_try tree is_last next r)
unfolding end_try
end_try-Settled tree rows is_last next (ok (some m), s) e k h = inl (
  m,
  ap (λ t. (clean_up_backfilled_tree (some m) tree t).1) e
      ∙ ap (λ p. p.1) (clean_up_backfilled_tree_lem tree m rows).0,
)
end_try-Settled tree rows is_last next (ok none, s) e k h =
    inr (ap (λ t. (clean_up_backfilled_tree none tree t).1) e ∙ clean_up_none tree rows)
end_try-Settled tree rows true next (err x, s) e k h =
    inr (ap (λ t. (mark_tree_as_failed tree t).1) e ∙ mark_failed-quiet tree rows)
end_try-Settled tree rows false next (err x, s) e k h = h _ refl e
end_try-Settled tree rows true next (running, s) e k h = cc
end_try-Settled tree rows false next (running, s) e k h = cc

-- If no request on the table fails, and a scan of the tree's signatures ends on the fuel: whatever the
-- RPC node, the cache and the messenger answer, at most so many tries as allowed settle a tree.
-- Either it is cleaned up, or all its rows are marked as failed; no other row changes.
pub fill_tree-Settled :
    (node : Node) (fuel left : ℕ) (tree : BackfillTree) (rows : List BackfillRow) (s : Backfiller)
    → s.table ≡ quiet rows
    → ended (find_slots_via_address node fuel tree.unique_tree) ≡ true
    → Settled tree.unique_tree rows (fill_tree node fuel (suc left) tree s)
unfolding fill_tree
fill_tree-Settled node fuel zero tree rows s e k =
    let kept = attempt-KeepsRows rows node fuel tree k in
    end_try-Settled tree.unique_tree rows true _ (attempt node fuel tree s) (kept.rows_same s e)
      (kept.rows_ends s e) (λ s' f. cc)
fill_tree-Settled node fuel (suc left) tree rows s e k =
    let kept = attempt-KeepsRows rows node fuel tree k in
    end_try-Settled tree.unique_tree rows false _ (attempt node fuel tree s) (kept.rows_same s e)
      (kept.rows_ends s e) (λ s' _ e'. fill_tree-Settled node fuel left tree rows s' e' k)
