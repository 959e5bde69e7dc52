-- ===== src/Bubblegum/ChangeLog/Rows.antt =====
-- insert_change_log of db.rs: the row of a node, once its change log is saved, and saved again.
use das.Prelude.{
  ℕ, suc, ◌+◌, ◌-◌, ◌%◌, ◌^◌, ◌≤◌, ◌≡◌, refl, ◌∙◌, ap, Bool, true, false, inl, inr, Option, none,
  some, List, [], ◌∷◌, ◌++◌, any, length, String, Text, arith, as_i64, i64_max, wrap_i64,
  wrap_i64_id, ℤ, pos, ltb_ℤ, ◌-ℤ◌, ◌==◌, ==_refl, Bool-cases, if◌then◌else◌,
}
use das.Database.{Hash, ClItem, Database}
use das.Bubblegum.Types.{Crates, ChangeLogEventV1, PathNode}
use das.Bubblegum.ChangeLog.{cl_item, cl_row, depth_of, node_idx_to_leaf_idx}
use das.Bubblegum.ChangeLog.Order.{node_row, path_row, saved}
use das.Bubblegum.ChangeLog.Replay.{Saving, saved_all, saved_again, row-saved, is_here, path_miss}

-- What a row says of its node: the leaf's index, the sequence number, the level and the hash.
abbrev pub Columns : Type 0
Columns = Option ℤ × ℤ × ℤ × Hash

abbrev pub columns : Option ClItem → Option Columns
columns none = none
columns (some r) = some (r.leaf_idx, r.seq, r.level, r.hash)

abbrev pub is_older : ℤ → Option ClItem → Bool
is_older seq none = true
is_older seq (some r) = ltb_ℤ r.seq seq

cl_row-columns :
    (new : ClItem) (r : Option ClItem)
    → columns (cl_row new r) ≡ (
        if is_older new.seq r then some (new.leaf_idx, new.seq, new.level, new.hash) else columns r)
unfolding cl_row
cl_row-columns new none = refl
cl_row-columns new (some r) = elim (Bool-cases (ltb_ℤ r.seq new.seq)) [
  | inl h ↦ rw h refl
  | inr h ↦ rw h refl
]

path_row-append :
    (e : ChangeLogEventV1) (i : ℕ) (pre ps : List PathNode) (j n : ℕ) (r : Option ClItem)
    → path_row e i (pre ++ ps) j n r ≡ path_row e (i + length pre) ps j n (path_row e i pre j n r)
unfolding path_row
path_row-append e i [] ps j n r = ap (λ k. path_row e k ps j n r) (omega arith)
path_row-append e i (q ∷ pre) ps j n r =
    path_row-append e (i + 1) pre ps j n _
    ∙ ap (λ k. path_row e k ps j n (path_row e (i + 1) pre j n (node_row e i q j n r)))
        (omega arith)

not_here :
    (e : ChangeLogEventV1) (n : ℕ) (ps : List PathNode)
    → any (λ q. q.index == n) ps ≡ false
    → any (is_here e e.id n) ps ≡ false
not_here e n [] h = refl
not_here e n (q ∷ ps) h = ground (arith, not_here e n ps)

node_row_here :
    (e : ChangeLogEventV1) (i : ℕ) (p : PathNode) (r : Option ClItem)
    → node_row e i p e.id p.index r ≡ cl_row (cl_item e i p) r
unfolding node_row
node_row_here e i p r = rw (==_refl e.id, ==_refl p.index) refl

-- The row of the only node of the path with its index.
path_row_here :
    (e : ChangeLogEventV1) (pre post : List PathNode) (p : PathNode) (r : Option ClItem)
    → e.path ≡ pre ++ p ∷ post
    → any (λ q. q.index == p.index) pre ≡ false
    → any (λ q. q.index == p.index) post ≡ false
    → path_row e 0 e.path e.id p.index r ≡ cl_row (cl_item e (length pre) p) r
unfolding path_row
path_row_here e pre post p r shape h k =
    let n = p.index in
    ap (λ ps. path_row e 0 ps e.id n r) shape
    ∙ path_row-append e 0 pre (p ∷ post) e.id n r
    ∙ ap (λ i. path_row e i (p ∷ post) e.id n (path_row e 0 pre e.id n r)) (start (length pre))
    ∙ ap (λ x. path_row e (length pre) (p ∷ post) e.id n x)
        (path_miss e e.id n 0 pre r (not_here e n pre h))
    ∙ path_miss e e.id n (length pre + 1) post _ (not_here e n post k)
    ∙ node_row_here e (length pre) p r
  where
    start : (l : ℕ) → 0 + l ≡ l
    start l = omega arith

leaf_idx_lem :
    (index height : ℕ)
    → 2 ^ height ≤ index
    → index ≤ i64_max
    → node_idx_to_leaf_idx (pos index) height ≡ pos (index - 2 ^ height)
unfolding node_idx_to_leaf_idx
leaf_idx_lem index height h k =
    ap (λ z. wrap_i64 (pos index -ℤ z)) (wrap_i64_id (2 ^ height) (omega arith))
    ∙ ap wrap_i64 (exact index (2 ^ height) h)
    ∙ wrap_i64_id (index - 2 ^ height) (omega arith)
  where
    exact : (a b : ℕ) → b ≤ a → pos a -ℤ pos b ≡ pos (a - b)
    exact a b h = ground arith

-- The leaf's index, of the node at the bottom: the first of the path.
abbrev pub leaf_of : List PathNode → List PathNode → PathNode → Option ℤ
leaf_of [] post p = some (pos (p.index - 2 ^ length post))
leaf_of (q ∷ pre) post p = none

leaf_of_lem :
    (e : ChangeLogEventV1) (pre post : List PathNode) (p : PathNode)
    → e.path ≡ pre ++ p ∷ post
    → length post ≤ 62
    → 2 ^ length post ≤ p.index
    → p.index ≤ i64_max
    → (cl_item e (length pre) p).leaf_idx ≡ leaf_of pre post p
unfolding cl_item
leaf_of_lem e (q ∷ pre) post p shape b h k = above (length pre) _
  where
    above : (l : ℕ) (x : Option ℤ) → (if suc l == 0 then x else none) ≡ none
    above l x = ground arith
leaf_of_lem e [] post p shape b h k =
    let depth : depth_of e % 2 ^ 32 ≡ length post =
      ap (λ l. ((l + 0xffff_ffff_ffff_ffff) % 2 ^ 64) % 2 ^ 32) (ap length shape)
      ∙ small (length post) b in
    ap some (ap (node_idx_to_leaf_idx (pos p.index)) depth ∙ leaf_idx_lem p.index (length post) h k)
  where
    small : (l : ℕ) → l ≤ 62 → ((suc l + 0xffff_ffff_ffff_ffff) % 2 ^ 64) % 2 ^ 32 ≡ l
    small l b = omega arith

-- The node `p` of a change log's path, with `pre` below it and `post` above it, whose index is at least
-- 2 ^ (the nodes above it), and that of no other node of the path. If no request fails: once the
-- change log is saved, the row of the node has its hash, its level, the event's sequence number, and,
-- at the bottom, the leaf's index, which counts from the first leaf; unless a row with this or a later
-- sequence number was there, which stays. And whatever change logs are saved after it, of this or
-- other trees, saving the same one again changes nothing in `cl_items`. (At most 62 nodes are above it,
-- and its index is an i64.)
pub saved_lem :
    (crates : Crates) (e : ChangeLogEventV1) (slot : ℕ) (txn_id : Text) (s : String)
    (fs : List Saving) (d : Database) (pre post : List PathNode) (p : PathNode)
    → e.path ≡ pre ++ p ∷ post
    → any (λ q. q.index == p.index) pre ≡ false
    → any (λ q. q.index == p.index) post ≡ false
    → length post ≤ 62
    → 2 ^ length post ≤ p.index
    → p.index ≤ i64_max
    → let once = saved crates e slot txn_id s d in
      let later = saved_all crates fs once in
      let old = d.cl_items e.id p.index in
      (columns (once.cl_items e.id p.index) ≡ (
        if is_older (as_i64 e.seq) old
        then some (leaf_of pre post p, as_i64 e.seq, pos (length pre), p.node)
        else columns old))
      × ((saved crates e slot txn_id s later).cl_items ≡ later.cl_items)
unfolding cl_item
saved_lem crates e slot txn_id s fs d pre post p shape h k b low high =
    let old = d.cl_items e.id p.index in
    (
      ap columns (
            row-saved crates e slot txn_id s d e.id p.index
            ∙ path_row_here e pre post p old shape h k)
          ∙ cl_row-columns (cl_item e (length pre) p) old
          ∙ ap
              (λ l.
                if is_older (as_i64 e.seq) old
                then some (l, as_i64 e.seq, pos (length pre), p.node)
                else columns old)
              (leaf_of_lem e pre post p shape b low high),
      saved_again crates e slot txn_id s fs d,
    )
