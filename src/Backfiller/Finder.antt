-- ===== src/Backfiller/Finder.antt =====
-- nft_ingester/src/backfiller.rs: run_finder, which asks for the trees on the chain that have no row
-- in `cl_items`. The accounts of the tree program (fetch_trees_by_gpa) are a parameter: the trees on
-- the chain, each once, with the slots that created them.
pub mod Repeats
use das.Prelude.{
  ℕ, suc, pos, Bool, true, false, not, ◌&&◌, ◌||◌, Option, none, some, List, [], ◌∷◌, ◌++◌, map,
  filter, any, as_i64, ◌==◌,
}
use das.Database.{Pubkey}
use das.Backfiller.Rows.{BackfillRow}

pub record MissingTree : Type 0 where
  pub tree : Pubkey
  pub slot : ℕ

-- `config.backfiller_trees`
abbrev pub is_only : Option (List Pubkey) → Pubkey → Bool
is_only none tree = true
is_only (some trees) tree = any (λ t. t == tree) trees

-- `SELECT DISTINCT tree FROM backfill_items WHERE failed = true OR locked = true`
abbrev pub locked_or_failed : Pubkey → List BackfillRow → Bool
locked_or_failed tree = any (λ r. r.tree == tree && (r.failed || r.locked))

-- `local` are the trees in `cl_items`.
unfoldable pub get_missing_trees :
    List MissingTree → Option (List Pubkey) → List Pubkey → List BackfillRow → List MissingTree
get_missing_trees chain only local rows =
    filter (λ m. not (any (λ t. t == m.tree) local))
      (filter (λ m. not (locked_or_failed m.tree rows)) (filter (λ m. is_only only m.tree) chain))

abbrev pub forced_row : ℕ → MissingTree → BackfillRow
forced_row id m = record {
  id = id;
  tree = m.tree;
  seq = pos 0;
  slot = as_i64 m.slot;
  force_chk = true;
  backfilled = false;
  failed = false;
  locked = false;
}

-- The ids come from a sequence.
abbrev pub forced_rows : ℕ → List MissingTree → List BackfillRow
forced_rows id [] = []
forced_rows id (m ∷ ms) = forced_row id m ∷ forced_rows (suc id) ms

unfoldable pub force_backfill_missing_trees :
    ℕ → List MissingTree → List BackfillRow → List BackfillRow
force_backfill_missing_trees id missing rows = rows ++ forced_rows id missing

-- One round of the loop of run_finder, if no request fails.
unfoldable pub run_finder_round :
    List MissingTree → Option (List Pubkey) → List Pubkey → ℕ → List BackfillRow → List BackfillRow
run_finder_round chain only local id rows =
    force_backfill_missing_trees id (get_missing_trees chain only local rows) rows
