-- ===== src/Bubblegum/ChangeLog/Order.antt =====
-- insert_change_log of db.rs: the rows of `cl_items` after two events.
use das.Prelude.{
  ℕ, ◌+◌, ◌≡◌, ◌≢◌, refl, ◌∙◌, ap, fun_ext, Bool, true, false, Option, none, some, List, [], ◌∷◌,
  String, Text, arith, as_i64, ◌==◌, if◌then◌else◌,
}
use das.Database.{
  ClItem, Database, ok, quiet, bind-run, ◌>>=◌, request, pure, storage_write_error,
  change_log_event_malformed,
}
use das.Database.Rollback.{Keeps, bind-Keeps, request-Keeps, or_raise-Keeps, pure-Keeps}
use das.Bubblegum.Types.{Crates, ChangeLogEventV1, PathNode}
use das.Bubblegum.ChangeLog.{
  cl_item, cl_row, put_cl_item, insert_path, insert_backfill_item, when, finish_change_log,
  insert_change_log,
}
use das.Bubblegum.ChangeLog.Gap.{ignore_error-Keeps}

-- Two writes to the row of one node, at different sequence numbers.
cl_row_comm :
    (a b : ClItem) (r : Option ClItem)
    → a.seq ≢ b.seq
    → a.tree ≡ b.tree
    → a.node_idx ≡ b.node_idx
    → cl_row a (cl_row b r) ≡ cl_row b (cl_row a r)
unfolding cl_row
cl_row_comm a b none h t n = ground arith
cl_row_comm a b (some r) h t n = ground arith

-- What one path node does to the row at the key `j`, `n`.
unfoldable pub node_row : ChangeLogEventV1 → ℕ → PathNode → ℕ → ℕ → Option ClItem → Option ClItem
node_row e i p j n r =
    if e.id == j then (if p.index == n then cl_row (cl_item e i p) r else r) else r

unfoldable pub path_row :
    ChangeLogEventV1 → ℕ → List PathNode → ℕ → ℕ → Option ClItem → Option ClItem
path_row e i [] j n r = r
path_row e i (p ∷ ps) j n r = path_row e (i + 1) ps j n (node_row e i p j n r)

-- The table after the loop over a path.
pub path_items :
    ChangeLogEventV1 → ℕ → List PathNode → (ℕ → ℕ → Option ClItem) → ℕ → ℕ → Option ClItem
path_items e i [] t = t
path_items e i (p ∷ ps) t = path_items e (i + 1) ps (put_cl_item e i p t)

pub path_items_lem :
    (e : ChangeLogEventV1) (i : ℕ) (ps : List PathNode) (t : ℕ → ℕ → Option ClItem) (j n : ℕ)
    → path_items e i ps t j n ≡ path_row e i ps j n (t j n)
unfolding path_items path_row node_row put_cl_item
path_items_lem e i [] t j n = refl
path_items_lem e i (p ∷ ps) t j n = path_items_lem e (i + 1) ps (put_cl_item e i p t) j n

module _ (e f : ChangeLogEventV1) (distinct : as_i64 e.seq ≢ as_i64 f.seq) (j n : ℕ) where
  node_row_comm :
      (i k : ℕ) (p q : PathNode) (r : Option ClItem)
      → node_row e i p j n (node_row f k q j n r) ≡ node_row f k q j n (node_row e i p j n r)
  unfolding node_row cl_item
  node_row_comm i k p q r = ground (arith, cl_row_comm (cl_item e i p) (cl_item f k q) r distinct)

  path_node_comm :
      (i k : ℕ) (ps : List PathNode) (q : PathNode) (r : Option ClItem)
      → path_row e i ps j n (node_row f k q j n r) ≡ node_row f k q j n (path_row e i ps j n r)
  unfolding path_row
  path_node_comm i k [] q r = refl
  path_node_comm i k (p ∷ ps) q r =
      ap (path_row e (i + 1) ps j n) (node_row_comm i k p q r)
      ∙ path_node_comm (i + 1) k ps q (node_row e i p j n r)

  path_row_comm :
      (i k : ℕ) (ps qs : List PathNode) (r : Option ClItem)
      → path_row e i ps j n (path_row f k qs j n r) ≡ path_row f k qs j n (path_row e i ps j n r)
  unfolding path_row
  path_row_comm i k ps [] r = refl
  path_row_comm i k ps (q ∷ qs) r =
      path_row_comm i (k + 1) ps qs (node_row f k q j n r)
      ∙ ap (path_row f (k + 1) qs j n) (path_node_comm i k ps q r)

-- The loop against a database that answers every request.
pub insert_path-quiet :
    (e : ChangeLogEventV1) (i : ℕ) (ps : List PathNode) (d : Database)
    → insert_path e i ps (quiet d)
      ≡ (ok tt, quiet (record d { cl_items = path_items e i ps d.cl_items }))
unfolding insert_path path_items request ◌>>=◌ pure
insert_path-quiet e i [] d = refl
insert_path-quiet e i (p ∷ ps) d =
    insert_path-quiet e (i + 1) ps (record d { cl_items = put_cl_item e i p d.cl_items })

-- The database after an event is saved, with no failure.
abbrev pub saved : Crates → ChangeLogEventV1 → ℕ → Text → String → Database → Database
saved crates e slot txn_id s d = (insert_change_log crates e slot txn_id s (quiet d)).1.db

backfill-Keeps :
    (e : ChangeLogEventV1) (slot : ℕ) (b : Bool)
    → Keeps (λ d. d.cl_items) (when b (insert_backfill_item e slot))
unfolding insert_backfill_item
backfill-Keeps e slot true =
    bind-Keeps (request-Keeps storage_write_error _ (λ d. refl))
      (λ known. request-Keeps storage_write_error _ (λ d. refl))
backfill-Keeps e slot false = pure-Keeps tt

finish_change_log-Keeps :
    (crates : Crates) (e : ChangeLogEventV1) (slot : ℕ) (txn_id : Text) (s : String)
    → Keeps (λ d. d.cl_items) (finish_change_log crates e slot txn_id s)
unfolding finish_change_log
finish_change_log-Keeps crates e slot txn_id s =
    bind-Keeps (or_raise-Keeps (crates.bs58_decode txn_id) change_log_event_malformed) λ b.
      bind-Keeps (ignore_error-Keeps (request-Keeps storage_write_error _ (λ d. refl)))
        λ _. backfill-Keeps e slot _

pub cl_items-saved :
    (crates : Crates) (e : ChangeLogEventV1) (slot : ℕ) (txn_id : Text) (s : String) (d : Database)
    → (saved crates e slot txn_id s d).cl_items ≡ path_items e 0 e.path d.cl_items
unfolding insert_change_log
cl_items-saved crates e slot txn_id s d =
    ap (λ r. r.1.db.cl_items) (bind-run _ _ (quiet d) tt _ (insert_path-quiet e 0 e.path d))
    ∙ (finish_change_log-Keeps crates e slot txn_id s).same _

-- Two events with different sequence numbers leave the same rows in `cl_items`, whichever of them
-- is saved first, if no request fails; they may belong to one tree, and their paths may meet.
pub saved_comm :
    (crates : Crates) (e f : ChangeLogEventV1) (slot slot' : ℕ) (txn_id txn_id' : Text)
    (s s' : String) (d : Database)
    → as_i64 e.seq ≢ as_i64 f.seq
    → (saved crates e slot txn_id s (saved crates f slot' txn_id' s' d)).cl_items
      ≡ (saved crates f slot' txn_id' s' (saved crates e slot txn_id s d)).cl_items
saved_comm crates e f slot slot' txn_id txn_id' s s' d h =
    rw (cl_items-saved, cl_items-saved, cl_items-saved, cl_items-saved)
      (fun_ext λ j. fun_ext λ n. rows j n)
  where
    rows :
        (j n : ℕ)
        → path_items e 0 e.path (path_items f 0 f.path d.cl_items) j n
          ≡ path_items f 0 f.path (path_items e 0 e.path d.cl_items) j n
    rows j n =
        rw (path_items_lem, path_items_lem, path_items_lem, path_items_lem)
          (path_row_comm e f h j n 0 0 e.path f.path (d.cl_items j n))
