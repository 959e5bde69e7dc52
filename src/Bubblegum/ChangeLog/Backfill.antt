-- ===== src/Bubblegum/ChangeLog/Backfill.antt =====
-- insert_change_log of db.rs: the rows of `backfill_items`.
use das.Prelude.{
  any, not, ◌&&◌, leb, ◌==◌, ap, ◌∙◌, ℕ, ◌+◌, ◌%◌, ◌^◌, ◌≤◌, pos, ◌≡◌, refl, subst, Bool, true,
  false, List, [], ◌∷◌, ◌++◌, Option, none, some, String, Text, arith, length, eqb_ℤ, ◌-ℤ◌, as_i64,
  i64_max,
}
use das.Database.{
  Database, World, BackfillItem, Result, ok, err, Action, bind_result, ◌>>=◌, request,
  storage_write_error, change_log_event_malformed,
}
use das.Database.Rollback.{Keeps, request-Keeps, or_raise-Keeps}
use das.Bubblegum.Types.{Crates, ChangeLogEventV1}
use das.Bubblegum.ChangeLog.{has_tree, backfill_item, insert_backfill_item, when, insert_change_log}
use das.Bubblegum.ChangeLog.Gap.{insert_path-Keeps, ignore_error-Keeps}

-- The row of an event, if `rows` were there before: the tree is checked, unless it has a row already or
-- the event is its first.
abbrev pub backfill_row : ChangeLogEventV1 → ℕ → List BackfillItem → BackfillItem
backfill_row e slot rows = record {
  tree = e.id;
  seq = as_i64 e.seq;
  slot = as_i64 slot;
  force_chk = not (any (λ b. b.tree == e.id) rows) && leb 2 e.seq;
  backfilled = false;
  failed = false;
}

has_tree-any :
    (tree : ℕ) (rows : List BackfillItem) → has_tree tree rows ≡ any (λ b. b.tree == tree) rows
unfolding has_tree
has_tree-any tree [] = refl
has_tree-any tree (b ∷ rows) = ground (arith, has_tree-any tree rows)

backfill_item-row :
    (e : ChangeLogEventV1) (slot : ℕ) (rows : List BackfillItem)
    → backfill_item e slot (has_tree e.id rows) ≡ backfill_row e slot rows
unfolding backfill_item
backfill_item-row e slot rows =
    ap (backfill_item e slot) (has_tree-any e.id rows) ∙ checked (any (λ b. b.tree == e.id) rows)
  where
    checked :
        (known : Bool)
        → backfill_item e slot known
          ≡ record (backfill_row e slot rows) { force_chk = not known && leb 2 e.seq }
    checked true = refl
    checked false = ap (λ c. record (backfill_row e slot rows) { force_chk = c }) (ground arith)

-- The rows after the change log of `e` ended so.
abbrev pub rows_after :
    ChangeLogEventV1 → ℕ → List BackfillItem → Result (Unit {0}) → List BackfillItem
rows_after e slot rows (ok _) = rows ++ backfill_row e slot rows ∷ []
rows_after e slot rows (err _) = rows

module _ (e : ChangeLogEventV1) (slot : ℕ) where
  record Logs (m : Action (Unit {0})) : Type 0 where
    log : (w : World) → (m w).1.db.backfill_items ≡ rows_after e slot w.db.backfill_items (m w).0

  bind_result-log :
      {A : Type 0} (k : A → Action (Unit {0})) (rows : List BackfillItem) (r : Result A × World)
      → r.1.db.backfill_items ≡ rows
      → ((a : A) → Logs (k a))
      → (bind_result k r).1.db.backfill_items ≡ rows_after e slot rows (bind_result k r).0
  bind_result-log k rows (ok a, w) h next =
      subst (λ u. (k a w).1.db.backfill_items ≡ rows_after e slot u (k a w).0) h ((next a).log w)
  bind_result-log k rows (err x, w) h next = h

  bind-Logs :
      {A : Type 0} {m : Action A} {k : A → Action (Unit {0})}
      → Keeps (λ d. d.backfill_items) m
      → ((a : A) → Logs (k a))
      → Logs (m >>= k)
  unfolding ◌>>=◌
  bind-Logs {m} {k} h next = record {
    log = λ w. bind_result-log k w.db.backfill_items (m w) (h.same w) next;
  }

  insert_backfill_item-log :
      (d : Database) (os : List (Option String)) (n : List (ℕ × Text))
      → let r = insert_backfill_item e slot (record { db = d; outcomes = os; notified = n }) in
        r.1.db.backfill_items ≡ rows_after e slot d.backfill_items r.0
  unfolding insert_backfill_item request ◌>>=◌
  insert_backfill_item-log d [] n =
      ap (λ b. d.backfill_items ++ b ∷ []) (backfill_item-row e slot d.backfill_items)
  insert_backfill_item-log d (none ∷ []) n =
      ap (λ b. d.backfill_items ++ b ∷ []) (backfill_item-row e slot d.backfill_items)
  insert_backfill_item-log d (none ∷ none ∷ os) n =
      ap (λ b. d.backfill_items ++ b ∷ []) (backfill_item-row e slot d.backfill_items)
  insert_backfill_item-log d (none ∷ some x ∷ os) n = refl
  insert_backfill_item-log d (some x ∷ os) n = refl

  when-Logs : (b : Bool) → b ≡ true → Logs (when b (insert_backfill_item e slot))
  when-Logs true h = record { log = λ w. insert_backfill_item-log w.db w.outcomes w.notified }
  when-Logs false h = absurd (cc)

-- The last test of the loop holds for every path, the empty one included.
path_complete :
    (n : ℕ)
    → n ≤ i64_max
    → eqb_ℤ (pos n -ℤ pos 1) (as_i64 ((n + 0xffff_ffff_ffff_ffff) % 2 ^ 64)) ≡ true
path_complete n h = ground arith

-- Whatever requests fail: if the change log ends in an error, the backfill rows are as before; if
-- it succeeds, they have one row more, of the event's tree, sequence number and slot, which is neither
-- backfilled nor failed, and which asks for a check exactly if no row before was of this tree and
-- the sequence number is at least 2. (A path of at most 2^63 - 1 nodes.)
pub insert_change_log_backfill :
    (crates : Crates) (e : ChangeLogEventV1) (slot : ℕ) (txn_id : Text) (s : String) (w : World)
    → length e.path ≤ i64_max
    → let r = insert_change_log crates e slot txn_id s w in
      r.1.db.backfill_items ≡ rows_after e slot w.db.backfill_items r.0
unfolding insert_change_log
insert_change_log_backfill crates e slot txn_id s w h = logs.log w
  where
    logs : Logs e slot (insert_change_log crates e slot txn_id s)
    logs = bind-Logs e slot (insert_path-Keeps (record { path = λ e i p d. refl }) e 0 e.path) λ _.
        bind-Logs e slot (or_raise-Keeps (crates.bs58_decode txn_id) change_log_event_malformed)
          λ b.
            bind-Logs e slot (ignore_error-Keeps (request-Keeps storage_write_error _ (λ d. refl)))
              λ _. when-Logs e slot _ (path_complete (length e.path) h)
