-- ===== src/Examples/Backfiller.antt =====
-- A tree with a gap and a number that two rows have, nodes, and the runs of the backfiller.
use mathlib.Core.List.{append-nil}
use das.Prelude.{
  ℕ, pos, ◌≡◌, refl, ◌≤ℤ◌, true, false, ◌&&◌, Option, none, some, List, [], ◌∷◌, any, leb, min, ◌+◌,
  ◌*◌, ◌==◌, arith, if◌then◌else◌, ◌++◌, ap, sym, ◌∙◌,
}
use das.Database.{Pubkey}
use das.Backfiller.Rows.{
  BackfillRow, BackfillTree, quiet, clean_up_backfilled_tree, get_trees_to_backfill,
}
use das.Backfiller.Rows.Taken.{wants, takes, get_trees_to_backfill_once}
use das.Backfiller.Rows.Finished.{finished_rows, clean_up_backfilled_tree_lem}
use das.Backfiller.Gaps.{
  GapInfo, found, gaps_after, find_gaps, start_seq, insert_distinct, rows_from, get_missing_data,
}
use das.Backfiller.Gaps.Complete.{in_gap, get_missing_data_lem}
use das.Backfiller.Blocks.{requested_ranges}
use das.Backfiller.Blocks.Covered.{contains, batches, requested_ranges_covered}
use das.Backfiller.Node.{stored, Node, ok, Backfiller}
use das.Backfiller.Signatures.{find_slots_via_address}
use das.Backfiller.Signatures.AllPages.{infos, has_slot, Answers, find_slots_via_address_lem}
use das.Backfiller.Plug.Untouched.{ended}
use das.Backfiller.Filler.{fill_tree}
use das.Backfiller.Filler.Settled.{Settled, fill_tree-Settled}
use das.Backfiller.Filler.Swallowed.{fill_tree_swallows}
use das.Backfiller.Finder.{MissingTree, run_finder_round}
use das.Backfiller.Finder.Repeats.{run_finder_repeats}

abbrev row : ℕ → ℕ → ℕ → BackfillRow
row id seq slot = record {
  id = id;
  tree = 7;
  seq = pos seq;
  slot = pos slot;
  force_chk = false;
  backfilled = false;
  failed = false;
  locked = false;
}

-- The numbers 2 and 3 are missing.
abbrev gapped : List BackfillRow
gapped = row 1 1 100 ∷ row 2 4 700_100 ∷ []

-- Two transactions have added a row for the number 4.
abbrev twice : List BackfillRow
twice = row 1 1 100 ∷ row 2 4 700_100 ∷ row 3 4 700_100 ∷ []

abbrev gap : GapInfo
gap = record {
  prev = record { seq = pos 1; slot = pos 100 };
  curr = record { seq = pos 4; slot = pos 700_100 };
}

get_trees_to_backfill_once_example :
    (trees : List BackfillTree) × (rows' : List BackfillRow) × (get_trees_to_backfill (quiet gapped)
      ≡ (some trees, quiet rows'))
    × ((t : Pubkey) → takes t trees ≡ wants t gapped)
    × (get_trees_to_backfill (quiet rows') ≡ (some [], quiet rows'))
get_trees_to_backfill_once_example = get_trees_to_backfill_once gapped

clean_up_backfilled_tree_lem_example :
    (clean_up_backfilled_tree (some (pos 4)) 7 (quiet twice)
      ≡ (some tt, quiet (finished_rows 7 (pos 4) twice)))
    × ((trees : List BackfillTree) × (rows' : List BackfillRow) × (get_trees_to_backfill
            (quiet (finished_rows 7 (pos 4) twice))
          ≡ (some trees, quiet rows'))
        × (takes 7 trees ≡ true))
clean_up_backfilled_tree_lem_example = clean_up_backfilled_tree_lem 7 (pos 4) twice

gapped-found : get_missing_data 7 gapped ≡ found (some (pos 4), gap ∷ [])
unfolding get_missing_data rows_from insert_distinct find_gaps gaps_after start_seq
gapped-found = refl

gapped_start : start_seq 7 gapped ≤ℤ pos 1
unfolding start_seq
gapped_start = ground arith

one_below : (a b : ℕ) → leb a b ≡ true → pos a ≤ℤ pos b
one_below a b h = ground arith

get_missing_data_lem_example : in_gap (pos 2) (gap ∷ []) ≡ true
get_missing_data_lem_example =
    get_missing_data_lem 7 gapped (pos 1) (pos 2) (pos 4) (gap ∷ []) gapped-found refl gapped_start
      (one_below 1 2 refl) (one_below 2 4 refl)

requested_ranges_covered_example :
    any (contains 600_000) (requested_ranges gap)
    ≡ (leb 100 600_000 && leb 600_000 (100 + min 700_000 (500_000 * batches 700_000)))
requested_ranges_covered_example =
    requested_ranges_covered gap 100 700_000 600_000 refl refl (omega arith)

-- No block can be listed; an address has two signatures.
abbrev history : List (ℕ × ℕ)
history = (90, 300) ∷ (80, 200) ∷ []

abbrev signatures_before : Option ℕ → List (ℕ × ℕ)
signatures_before none = history
signatures_before (some s) = if s == 90 then (80, 200) ∷ [] else []

abbrev node : Node
node = record {
  get_blocks = λ a b. none;
  get_block = λ slot. none;
  try_insert = λ slot. stored;
  keeps = λ slot. true;
  serializes = λ tx. true;
  sends = λ tx. true;
  signatures = λ address before. some (infos (signatures_before before));
  bubblegum = 99;
}

abbrev first_signature : List (ℕ × ℕ) → ℕ
first_signature [] = 0
first_signature (x ∷ xs) = x.0

abbrev older : List (ℕ × ℕ) → List (ℕ × ℕ)
older [] = []
older (x ∷ xs) = xs

not_empty :
    (xs ys : List (ℕ × ℕ)) (x : ℕ × ℕ) → [] ≡ xs ++ x ∷ ys → signatures_before (some x.0) ≡ ys
not_empty [] ys x h = cc
not_empty (z ∷ xs) ys x h = cc

answer_before :
    (xs ys : List (ℕ × ℕ)) (x : ℕ × ℕ) → history ≡ xs ++ x ∷ ys → signatures_before (some x.0) ≡ ys
answer_before [] ys x h =
    ap (λ l. signatures_before (some (first_signature l))) (sym h) ∙ ap older h
answer_before (y ∷ []) ys x h =
    ap (λ l. signatures_before (some (first_signature (older l)))) (sym h)
    ∙ ap (λ l. older (older l)) h
answer_before (y ∷ (z ∷ xs)) ys x h = not_empty xs ys x (ap (λ l. older (older l)) h)

node-Answers : Answers node 7 history
node-Answers = record {
  first = (history, [], refl, refl, λ l. refl);
  before = λ xs ys x h.
      (ys, [], ap (λ l. some (infos l)) (answer_before xs ys x h), sym (append-nil ys), λ l. refl);
}

find_slots_via_address_lem_example :
    (found : List ℕ) × (find_slots_via_address node 3 7 ≡ ok found)
    × ((k : ℕ) → any (λ x. x == k) found ≡ has_slot k history)
find_slots_via_address_lem_example =
    find_slots_via_address_lem node 7 history 3 node-Answers (omega arith)

abbrev idle : Backfiller
idle = record { table = quiet gapped; cache = λ slot. none; sent = []; failure_delay = 100 }

abbrev gapped_tree : BackfillTree
gapped_tree = record { unique_tree = 7; backfill_from_seq_1 = false; slot = 700_100 }

scan_ends : ended (find_slots_via_address node 3 7) ≡ true
scan_ends =
    let (slots, e, h) = find_slots_via_address_lem node 7 history 3 node-Answers (omega arith) in
    ap ended e

fill_tree-Settled_example : Settled 7 gapped (fill_tree node 3 5 gapped_tree idle)
fill_tree-Settled_example = fill_tree-Settled node 3 4 gapped_tree gapped idle refl scan_ends

fill_tree_swallows_example :
    fill_tree node 0 5 gapped_tree idle
    ≡ (ok tt, record idle { table = quiet (finished_rows 7 (pos 4) gapped); failure_delay = 100 })
fill_tree_swallows_example =
    fill_tree_swallows node (λ a b. refl) 0 4 gapped_tree gapped (pos 4) (gap ∷ []) idle refl refl
      gapped-found

abbrev chain : List MissingTree
chain = record { tree = 7; slot = 100 } ∷ record { tree = 8; slot = 200 } ∷ []

run_finder_repeats_example :
    (cleaned : List BackfillRow) × (trees : List BackfillTree) × (rows' : List BackfillRow)
    × (clean_up_backfilled_tree
          (some (pos 0))
          7
          (quiet (run_finder_round chain none [] 2 (run_finder_round chain none [] 0 [])))
        ≡ (some tt, quiet cleaned))
    × (get_trees_to_backfill (quiet cleaned) ≡ (some trees, quiet rows'))
    × (takes 7 trees ≡ true)
run_finder_repeats_example = run_finder_repeats 7 chain none [] 0 2 [] refl refl refl refl
