-- ===== src/Bubblegum/ChangeLog.antt =====
-- program_transformers/src/bubblegum/db.rs: `insert_change_log`. The nodes of the changed path go to
-- `cl_items`, one statement each, outside any transaction; then the audit row and the backfill row.
pub mod Gap
pub mod Backfill
pub mod Order
pub mod Quiet
pub mod Replay
pub mod Rows
use das.Prelude.{
  ℕ, ◌+◌, ◌-◌, ◌%◌, ◌^◌, ℤ, pos, Bool, true, false, ◌&&◌, Option, none, some, List, [], ◌∷◌, ◌++◌,
  Text, String, as_i64, wrap_i64, ◌-ℤ◌, ltb_ℤ, eqb_ℤ, ltb, ◌==◌, if◌then◌else◌, length,
}
use das.Database.{
  Pubkey, Hash, ClItem, ClAudit, BackfillItem, Database, Action, pure, raise, bind_result, ◌>>=◌,
  ◌>>◌, request, execute, storage_write_error, change_log_event_malformed, Result, ok, err, World,
  upsert, alter, or_raise,
}
use das.Bubblegum.Types.{Crates, ChangeLogEventV1, PathNode}
use das.Bubblegum.Names.{instruction_from}

-- `index - 2i64.pow(tree_height)`, with the wrap-around of a release build.
pub node_idx_to_leaf_idx : ℤ → ℕ → ℤ
node_idx_to_leaf_idx index tree_height = wrap_i64 (index -ℤ wrap_i64 (pos (2 ^ tree_height)))

-- `change_log_event.path.len() - 1`, a usize.
abbrev pub depth_of : ChangeLogEventV1 → ℕ
depth_of e = (length e.path + 0xffff_ffff_ffff_ffff) % 2 ^ 64

-- The row of one path node at level `i`, as inserted.
pub cl_item : ChangeLogEventV1 → ℕ → PathNode → ClItem
cl_item e i p = record {
  tree = e.id;
  node_idx = pos p.index;
  leaf_idx =
      if i == 0 then some (node_idx_to_leaf_idx (pos p.index) (depth_of e % 2 ^ 32)) else none;
  seq = as_i64 e.seq;
  level = pos i;
  hash = p.node;
}

-- ON CONFLICT the hash, seq, leaf_idx and level are set, `WHERE excluded.seq > cl_items.seq`.
pub cl_row : ClItem → Option ClItem → Option ClItem
cl_row new =
    upsert new
      (λ r. record r { hash = new.hash; seq = new.seq; leaf_idx = new.leaf_idx; level = new.level })
      λ r. ltb_ℤ r.seq new.seq

-- The statement for one node.
pub put_cl_item : ChangeLogEventV1 → ℕ → PathNode → (ℕ → ℕ → Option ClItem) → ℕ → ℕ → Option ClItem
put_cl_item e i p t j n =
    if e.id == j then alter p.index (cl_row (cl_item e i p)) (t j) n else t j n

-- The loop over the path, from level `i` on.
unfoldable pub insert_path : ChangeLogEventV1 → ℕ → List PathNode → Action (Unit {0})
insert_path e i [] = pure tt
insert_path e i (p ∷ ps) =
    execute storage_write_error (λ d. record d { cl_items = put_cl_item e i p d.cl_items })
    >> insert_path e (i + 1) ps

abbrev same_audit : ClAudit → ClAudit → Bool
same_audit a b = a.tree == b.tree && eqb_ℤ a.leaf_idx b.leaf_idx && eqb_ℤ a.seq b.seq

-- `ON CONFLICT (tree, leaf_idx, seq) DO NOTHING`
pub add_audit : ClAudit → List ClAudit → List ClAudit
add_audit a [] = a ∷ []
add_audit a (b ∷ bs) = if same_audit a b then b ∷ bs else b ∷ add_audit a bs

-- An error of this statement is logged and dropped.
unfoldable pub ignore_error : Action (Unit {0}) → Action (Unit {0})
ignore_error m w = (ok tt, (m w).1)

-- `backfill_items` has a row of the tree.
pub has_tree : Pubkey → List BackfillItem → Bool
has_tree tree [] = false
has_tree tree (b ∷ bs) = if b.tree == tree then true else has_tree tree bs

pub backfill_item : ChangeLogEventV1 → ℕ → Bool → BackfillItem
backfill_item e slot tree_known = record {
  tree = e.id;
  seq = as_i64 e.seq;
  slot = as_i64 slot;
  force_chk = if tree_known then false else ltb 1 e.seq;
  backfilled = false;
  failed = false;
}

-- `find().filter(tree).limit(1)`, then the insert: two requests.
unfoldable pub insert_backfill_item : ChangeLogEventV1 → ℕ → Action (Unit {0})
insert_backfill_item e slot = do
  known ← request storage_write_error (λ d. (has_tree e.id d.backfill_items, d))
  execute storage_write_error
      λ d. record d { backfill_items = d.backfill_items ++ backfill_item e slot known ∷ [] }

-- `if test { … }`
abbrev when : Bool → Action (Unit {0}) → Action (Unit {0})
when true m = m
when false m = pure tt

-- What follows the loop, after which `i` is the number of nodes: the audit row, whose failure is
-- only logged, and the backfill row.
unfoldable pub finish_change_log : Crates → ChangeLogEventV1 → ℕ → Text → String → Action (Unit {0})
unfolding ignore_error
finish_change_log crates e slot txn_id instruction = do
  tx_id_bytes ← or_raise (crates.bs58_decode txn_id) change_log_event_malformed
  ignore_error (
      execute storage_write_error λ d. record d {
        cl_audits_v2 =
            add_audit
              (record {
                tree = e.id;
                leaf_idx = pos e.index;
                seq = as_i64 e.seq;
                tx = tx_id_bytes;
                instruction = instruction_from instruction;
              })
              d.cl_audits_v2;
      })
  when (eqb_ℤ (pos (length e.path) -ℤ pos 1) (as_i64 (depth_of e))) (insert_backfill_item e slot)

unfoldable pub insert_change_log : Crates → ChangeLogEventV1 → ℕ → Text → String → Action (Unit {0})
unfolding finish_change_log
insert_change_log crates e slot txn_id instruction =
    insert_path e 0 e.path >> finish_change_log crates e slot txn_id instruction

unfoldable pub save_changelog_event : Crates → ChangeLogEventV1 → ℕ → Text → String → Action ℕ
save_changelog_event crates e slot txn_id instruction =
    insert_change_log crates e slot txn_id instruction >> pure e.seq
