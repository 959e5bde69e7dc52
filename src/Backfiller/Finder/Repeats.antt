-- ===== src/Backfiller/Finder/Repeats.antt =====
-- run_finder: a tree that is not yet taken up is asked for again.
use das.Prelude.{
  ℕ, Bool-cases, inl, inr, suc, pos, ◌+◌, ◌≡◌, refl, ap, ◌∙◌, Bool, true, false, not, ◌||◌, Option,
  some, List, [], ◌∷◌, ◌++◌, filter, any, count, ◌==◌, arith,
}
use das.Database.{Pubkey}
use das.Backfiller.Rows.{
  BackfillRow, BackfillTree, quiet, clean_up_backfilled_tree, get_trees_to_backfill,
}
use das.Backfiller.Rows.Taken.{takes}
use das.Backfiller.Rows.Finished.{is_last, finished_rows, clean_up_backfilled_tree_lem}
use das.Backfiller.Finder.{
  MissingTree, is_only, locked_or_failed, get_missing_trees, forced_rows,
  force_backfill_missing_trees, run_finder_round,
}

module _ {A : Type 0} (p : A → Bool) where
  count-append : (xs ys : List A) → count p (xs ++ ys) ≡ count p xs + count p ys
  count-append [] ys = omega arith
  count-append (x ∷ xs) ys = omega (arith, count-append xs ys)

abbrev of_tree : Pubkey → MissingTree → Bool
of_tree tree m = m.tree == tree

module _ (tree : Pubkey) where
  -- A filter that keeps the tree keeps its entries.
  count-filter_tree :
      (q : Pubkey → Bool) (ms : List MissingTree)
      → q tree ≡ true
      → count (of_tree tree) (filter (λ m. q m.tree) ms) ≡ count (of_tree tree) ms
  count-filter_tree q [] h = refl
  count-filter_tree q (m ∷ ms) h = elim (Bool-cases (m.tree == tree)) [
    | inl e ↦
        let same : m.tree ≡ tree = ground arith in
        ground (arith, ap q same, count-filter_tree q ms h)
    | inr e ↦ ground (arith, count-filter_tree q ms h)
  ]

  count-forced_rows :
      (id : ℕ) (ms : List MissingTree)
      → count (is_last tree (pos 0)) (forced_rows id ms) ≡ count (of_tree tree) ms
  count-forced_rows id [] = refl
  count-forced_rows id (m ∷ ms) = ground (arith, count-forced_rows (suc id) ms)

  any-forced_rows :
      (id : ℕ) (ms : List MissingTree) → locked_or_failed tree (forced_rows id ms) ≡ false
  any-forced_rows id [] = refl
  any-forced_rows id (m ∷ ms) = ground (arith, any-forced_rows (suc id) ms)

  any-append :
      (rows rows' : List BackfillRow)
      → locked_or_failed tree (rows ++ rows')
        ≡ (locked_or_failed tree rows || locked_or_failed tree rows')
  any-append [] rows' = refl
  any-append (r ∷ rows) rows' = ground (arith, any-append rows rows')

  module _ (chain : List MissingTree) (only : Option (List Pubkey)) (local : List Pubkey) where
    record IsMissing (rows : List BackfillRow) : Type 0 where
      on_chain : count (of_tree tree) chain ≡ 1
      wanted : is_only only tree ≡ true
      not_local : any (λ t. t == tree) local ≡ false
      free : locked_or_failed tree rows ≡ false

    round-count :
        (id : ℕ) (rows : List BackfillRow)
        → IsMissing rows
        → (count (is_last tree (pos 0)) (run_finder_round chain only local id rows)
            ≡ count (is_last tree (pos 0)) rows + 1)
          × IsMissing (run_finder_round chain only local id rows)
    unfolding run_finder_round force_backfill_missing_trees get_missing_trees
    round-count id rows h =
        let missing = get_missing_trees chain only local rows in
        let kept : count (of_tree tree) missing ≡ 1 =
          count-filter_tree (λ t. not (any (λ u. u == t) local)) _ (ap not h.not_local)
          ∙ count-filter_tree (λ t. not (locked_or_failed t rows)) _ (ap not h.free)
          ∙ count-filter_tree (is_only only) chain h.wanted
          ∙ h.on_chain in
        (
          count-append (is_last tree (pos 0)) rows (forced_rows id missing)
              ∙ ap (λ n. count (is_last tree (pos 0)) rows + n)
                  (count-forced_rows id missing ∙ kept),
          record {
            on_chain = h.on_chain;
            wanted = h.wanted;
            not_local = h.not_local;
            free =
                any-append rows (forced_rows id missing)
                ∙ ap (λ b. locked_or_failed tree rows || b) (any-forced_rows id missing)
                ∙ ground (arith, h.free);
          },
        )

-- A tree on the chain without rows in `cl_items`, whose rows are neither failed nor locked, gets a
-- row in every round of the finder. After two rounds before the filler takes it up, even a
-- successful backfill does not settle it: once it is cleaned up, it is taken up again.
pub run_finder_repeats :
    (tree : Pubkey) (chain : List MissingTree) (only : Option (List Pubkey)) (local : List Pubkey)
    (id id' : ℕ) (rows : List BackfillRow)
    → count (λ m. m.tree == tree) chain ≡ 1
    → is_only only tree ≡ true
    → any (λ t. t == tree) local ≡ false
    → locked_or_failed tree rows ≡ false
    → let after =
        run_finder_round chain only local id' (run_finder_round chain only local id rows) in
      (cleaned : List BackfillRow) × (trees : List BackfillTree) × (rows' : List BackfillRow)
      × (clean_up_backfilled_tree (some (pos 0)) tree (quiet after) ≡ (some tt, quiet cleaned))
      × (get_trees_to_backfill (quiet cleaned) ≡ (some trees, quiet rows'))
      × (takes tree trees ≡ true)
run_finder_repeats tree chain only local id id' rows c w l f =
    let missing : IsMissing tree chain only local rows = record {
      on_chain = c;
      wanted = w;
      not_local = l;
      free = f;
    } in
    let once = round-count tree chain only local id rows missing in
    let twice = round-count tree chain only local id' _ once.1 in
    let after = run_finder_round chain only local id' (run_finder_round chain only local id rows) in
    let (cleaned, (trees, rows', taken, k)) = clean_up_backfilled_tree_lem tree (pos 0) after in
    (
      finished_rows tree (pos 0) after,
      trees,
      rows',
      cleaned,
      taken,
      k ∙ ground (arith, once.0, twice.0),
    )
