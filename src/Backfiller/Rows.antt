-- ===== src/Backfiller/Rows.antt =====
-- nft_ingester/src/backfiller.rs: the rows of `backfill_items`, the trees that are taken up
-- (get_trees_to_backfill), and what is done to the rows of a tree afterwards.
pub mod Taken
pub mod Finished
use das.Prelude.{
  ℕ, ℤ, count, as_u64, Bool, true, false, not, ◌&&◌, Option, none, some, List, [], ◌∷◌, ◌++◌, map,
  filter, ltb, ◌==◌, eqb_ℤ, max_ℤ, if◌then◌else◌,
}
use das.Database.{Pubkey}

-- `Model` of backfill_items.rs.
pub record BackfillRow : Type 0 where
  pub id : ℕ
  pub tree : Pubkey
  pub seq : ℤ
  pub slot : ℤ
  pub force_chk : Bool
  pub backfilled : Bool
  pub failed : Bool
  pub locked : Bool

-- The table, and whether each further request succeeds; after the last one all do.
pub record Table : Type 0 where
  pub rows : List BackfillRow
  pub outcomes : List Bool

-- `none` is the error of the request that failed.
abbrev pub Task : Type 0 → Type 0
Task A = Table → Option A × Table

unfoldable pub pure : {A : Type 0} → A → Task A
pure a t = (some a, t)

abbrev pub bind_outcome : {A B : Type 0} → (A → Task B) → Option A × Table → Option B × Table
bind_outcome f (some a, t) = f a t
bind_outcome f (none, t) = (none, t)

infixl 5 ◌>>=◌ ◌>>◌
unfoldable pub ◌>>=◌ : {A B : Type 0} → Task A → (A → Task B) → Task B
◌>>=◌ m f t = bind_outcome f (m t)

abbrev pub ◌>>◌ : {A B : Type 0} → Task A → Task B → Task B
m >> k = m >>= λ _. k

abbrev pub request_with :
    {A : Type 0} → (List BackfillRow → A × List BackfillRow) → List Bool → Task A
request_with f [] t = (some (f t.rows).0, record t { rows = (f t.rows).1 })
request_with f (true ∷ os) t = (some (f t.rows).0, record { rows = (f t.rows).1; outcomes = os })
request_with f (false ∷ os) t = (none, record t { outcomes = os })

unfoldable pub request : {A : Type 0} → (List BackfillRow → A × List BackfillRow) → Task A
request f t = request_with f t.outcomes t

abbrev pub read : {A : Type 0} → (List BackfillRow → A) → Task A
read f = request λ rows. (f rows, rows)

abbrev pub execute : (List BackfillRow → List BackfillRow) → Task (Unit {0})
execute f = request λ rows. (tt, f rows)

-- `begin` and `commit`, which keeps what the body wrote only if both succeed.
abbrev pub finish : {A : Type 0} → List BackfillRow → Option A × Table → Option A × Table
finish before (some a, t) = (some a, t)
finish before (none, t) = (none, record t { rows = before })

unfoldable pub transaction : {A : Type 0} → Task A → Task A
transaction body t = finish t.rows ((do execute (λ r. r); a ← body; execute (λ r. r); pure a) t)

-- A table whose requests all succeed.
abbrev pub quiet : List BackfillRow → Table
quiet rows = record { rows = rows; outcomes = [] }

-- `update_many().filter(Tree.eq(tree))`
abbrev pub update_tree : Pubkey → (BackfillRow → BackfillRow) → List BackfillRow → List BackfillRow
update_tree tree f = map (λ r. if r.tree == tree then f r else r)

unfoldable pub mark_tree_as_backfilled : Pubkey → Task (Unit {0})
mark_tree_as_backfilled tree = execute (update_tree tree (λ r. record r { backfilled = true }))

unfoldable pub mark_tree_as_failed : Pubkey → Task (Unit {0})
mark_tree_as_failed tree = execute (update_tree tree (λ r. record r { failed = true }))

unfoldable pub clear_force_chk_flag : Pubkey → Task (Unit {0})
clear_force_chk_flag tree = execute (update_tree tree (λ r. record r { force_chk = false }))

unfoldable pub unlock_tree : Pubkey → Task (Unit {0})
unlock_tree tree = execute (update_tree tree (λ r. record r { locked = false }))

-- `Tree.eq(tree)` and `Seq.ne(max_seq)`
abbrev pub is_extra : Pubkey → ℤ → BackfillRow → Bool
is_extra tree max_seq r = r.tree == tree && not (eqb_ℤ r.seq max_seq)

-- `if items.len() > 1 { for item in items.iter().skip(1) { delete_by_id(item.id) } }`
abbrev pub delete_all_of : List BackfillRow → Task (Unit {0})
delete_all_of [] = pure tt
delete_all_of (item ∷ items) = do execute (filter (λ r. not (r.id == item.id))); delete_all_of items

abbrev pub delete_but_first : List BackfillRow → Task (Unit {0})
delete_but_first [] = pure tt
delete_but_first (item ∷ items) = delete_all_of items

unfoldable pub delete_extra_rows_and_mark_as_backfilled : Pubkey → ℤ → Task (Unit {0})
delete_extra_rows_and_mark_as_backfilled tree max_seq = do
  test_items ← read (λ rows. rows)
  execute (filter (λ r. not (is_extra tree max_seq r)))
  items ← read (filter (is_extra tree max_seq))
  delete_but_first items
  mark_tree_as_backfilled tree
  clear_force_chk_flag tree
  unlock_tree tree
  test_items_after ← read (λ rows. rows)
  pure tt

-- An error is logged.
abbrev pub logged : Option (Unit {0}) × Table → Option (Unit {0}) × Table
logged (r, t) = (some tt, t)

unfoldable pub or_mark_as_failed : Pubkey → Option (Unit {0}) × Table → Option (Unit {0}) × Table
or_mark_as_failed tree (some _, t) = (some tt, t)
or_mark_as_failed tree (none, t) = logged (mark_tree_as_failed tree t)

unfoldable pub clean_up_backfilled_tree : Option ℤ → Pubkey → Task (Unit {0})
clean_up_backfilled_tree (some max_seq) tree t =
    or_mark_as_failed tree (delete_extra_rows_and_mark_as_backfilled tree max_seq t)
clean_up_backfilled_tree none tree t = logged (mark_tree_as_failed tree t)

pub record TreeWithSlot : Type 0 where
  pub tree : Pubkey
  pub slot : ℤ

pub record BackfillTree : Type 0 where
  pub unique_tree : Pubkey
  pub backfill_from_seq_1 : Bool
  pub slot : ℕ

abbrev pub is_free : BackfillRow → Bool
is_free r = not r.failed && not r.locked

abbrev pub is_forced : BackfillRow → Bool
is_forced r = r.force_chk && is_free r

-- `SELECT DISTINCT`, whose order is open: here, that of the first ones.
unfoldable pub distinct : {A : Type 0} → (A → A → Bool) → List A → List A
distinct same [] = []
distinct same (x ∷ xs) = x ∷ filter (λ y. not (same x y)) (distinct same xs)

abbrev pub tree_with_slot : BackfillRow → TreeWithSlot
tree_with_slot r = record { tree = r.tree; slot = r.slot }

abbrev pub same_tree : TreeWithSlot → TreeWithSlot → Bool
same_tree a b = a.tree == b.tree

abbrev pub same_tree_and_slot : TreeWithSlot → TreeWithSlot → Bool
same_tree_and_slot a b = a.tree == b.tree && eqb_ℤ a.slot b.slot

unfoldable pub force_chk_trees : List BackfillRow → List TreeWithSlot
force_chk_trees rows = distinct same_tree_and_slot (map tree_with_slot (filter is_forced rows))

-- `max(slot)` over the free rows of a tree.
abbrev pub max_slot : Pubkey → ℤ → List BackfillRow → ℤ
max_slot tree best [] = best
max_slot tree best (r ∷ rows) =
    max_slot tree (if is_free r && r.tree == tree then max_ℤ best r.slot else best) rows

abbrev pub free_count : Pubkey → List BackfillRow → ℕ
free_count tree = count (λ r. is_free r && r.tree == tree)

-- `GROUP BY tree HAVING COUNT(*) > 1`
unfoldable pub multi_row_trees : List BackfillRow → List TreeWithSlot
multi_row_trees rows =
    map (λ (k : TreeWithSlot). record k { slot = max_slot k.tree k.slot rows })
      (filter (λ k. ltb 1 (free_count k.tree rows))
        (distinct same_tree (map tree_with_slot (filter is_free rows))))

abbrev pub locked : BackfillRow → BackfillRow
locked r = record r { locked = true }

unfoldable pub lock_trees : List TreeWithSlot → Task (Unit {0})
lock_trees [] = pure tt
lock_trees (k ∷ ks) = do execute (update_tree k.tree locked); lock_trees ks

abbrev pub backfill_tree : Bool → TreeWithSlot → BackfillTree
backfill_tree from_seq_1 k = record {
  unique_tree = k.tree;
  backfill_from_seq_1 = from_seq_1;
  slot = as_u64 k.slot;
}

unfoldable pub get_trees_to_backfill : Task (List BackfillTree)
get_trees_to_backfill = transaction (do
  forced ← read force_chk_trees
  lock_trees forced
  multi ← read multi_row_trees
  lock_trees multi
  pure (map (backfill_tree true) forced ++ map (backfill_tree false) multi))
