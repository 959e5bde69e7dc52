-- ===== src/Backfiller/Gaps.antt =====
-- nft_ingester/src/backfiller.rs: get_missing_data, the gaps in the sequence numbers of a tree.
pub mod Complete
use das.Prelude.{
  ℤ, pos, Bool, true, false, ◌&&◌, Option, none, some, List, [], ◌∷◌, filter, ltb_ℤ, leb_ℤ, eqb_ℤ,
  ◌-ℤ◌, max_ℤ, ◌==◌, if◌then◌else◌,
}
use das.Database.{Pubkey}
use das.Backfiller.Rows.{BackfillRow}

pub record SimpleBackfillItem : Type 0 where
  pub seq : ℤ
  pub slot : ℤ

pub record GapInfo : Type 0 where
  pub prev : SimpleBackfillItem
  pub curr : SimpleBackfillItem

-- `Err` holds the two slots of one sequence number.
pub data Missing (A : Type 0) : Type 0 where
  found : A → Missing A
  identical_seqs : ℤ → ℤ → Missing A

abbrev pub and_gap :
    SimpleBackfillItem → SimpleBackfillItem → Missing (List GapInfo) → Missing (List GapInfo)
and_gap prev curr (identical_seqs a b) = identical_seqs a b
and_gap prev curr (found gaps) = found (
    if ltb_ℤ (pos 1) (curr.seq -ℤ prev.seq)
    then record { prev = prev; curr = curr } ∷ gaps
    else gaps)

-- The pairs of neighbours.
unfoldable pub gaps_after : SimpleBackfillItem → List SimpleBackfillItem → Missing (List GapInfo)
gaps_after prev [] = found []
gaps_after prev (curr ∷ rows) =
    let rest = gaps_after curr rows in
    if eqb_ℤ curr.seq prev.seq then identical_seqs prev.slot curr.slot else and_gap prev curr rest

unfoldable pub find_gaps : List SimpleBackfillItem → Missing (List GapInfo)
find_gaps [] = found []
find_gaps (row ∷ rows) = gaps_after row rows

-- `MAX(seq)` of the backfilled rows of the tree, or 0.
abbrev pub max_backfilled : Pubkey → Option ℤ → List BackfillRow → Option ℤ
max_backfilled tree best [] = best
max_backfilled tree best (r ∷ rows) =
    max_backfilled tree
      (if r.tree == tree && r.backfilled
        then elim best [ none ↦ some r.seq | some b ↦ some (max_ℤ b r.seq) ]
        else best)
      rows

abbrev pub unwrap_or_default : Option ℤ → ℤ
unwrap_or_default none = pos 0
unwrap_or_default (some n) = n

unfoldable pub start_seq : Pubkey → List BackfillRow → ℤ
start_seq tree rows = unwrap_or_default (max_backfilled tree none rows)

-- `ORDER BY seq ASC` of distinct rows. The order of rows with one number is open.
unfoldable pub insert_distinct :
    SimpleBackfillItem → List SimpleBackfillItem → List SimpleBackfillItem
insert_distinct x [] = x ∷ []
insert_distinct x (y ∷ ys) =
    let rest = insert_distinct x ys in
    if ltb_ℤ x.seq y.seq
    then x ∷ y ∷ ys
    else if eqb_ℤ x.seq y.seq && eqb_ℤ x.slot y.slot
    then y ∷ ys
    else y ∷ rest

abbrev pub wanted_from : Pubkey → ℤ → BackfillRow → Bool
wanted_from tree start r = leb_ℤ start r.seq && r.tree == tree

abbrev pub item : BackfillRow → SimpleBackfillItem
item r = record { seq = r.seq; slot = r.slot }

unfoldable pub rows_from : Pubkey → ℤ → List BackfillRow → List SimpleBackfillItem
rows_from tree start [] = []
rows_from tree start (r ∷ rows) =
    let rest = rows_from tree start rows in
    if wanted_from tree start r then insert_distinct (item r) rest else rest

abbrev pub last_seq : List SimpleBackfillItem → Option ℤ
last_seq [] = none
last_seq (x ∷ []) = some x.seq
last_seq (x ∷ (y ∷ ys)) = last_seq (y ∷ ys)

abbrev pub with_max :
    List SimpleBackfillItem → Missing (List GapInfo) → Missing (Option ℤ × List GapInfo)
with_max rows (found gaps) = found (last_seq rows, gaps)
with_max rows (identical_seqs a b) = identical_seqs a b

unfoldable pub get_missing_data : Pubkey → List BackfillRow → Missing (Option ℤ × List GapInfo)
get_missing_data tree rows =
    let found_rows = rows_from tree (start_seq tree rows) rows in
    with_max found_rows (find_gaps found_rows)
