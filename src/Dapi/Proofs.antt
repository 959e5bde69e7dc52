-- ===== src/Dapi/Proofs.antt =====
-- digital_asset_types/src/dapi/change_logs.rs: the Merkle proof of a leaf, from the stored nodes of
-- its tree. The query for the nodes is a function from node indices to rows.
pub mod Siblings
pub mod Complete
use das.Prelude.{
  ℕ, zero, suc, ◌+◌, ◌-◌, ◌/◌, ◌%◌, ℤ, pos, negsuc, Bool, true, false, ◌&&◌, Option, none, some,
  List, [], ◌∷◌, Text, String, ◌==◌, ltb, eqb_ℤ, if◌then◌else◌, length, set, replicate, map,
}

-- The bytes of hashes and keys are lists here, as the default value has none.
pub record SimpleChangeLog : Type 0 where
  pub hash : List ℕ
  pub level : ℤ
  pub node_idx : ℤ
  pub seq : ℤ
  pub tree : List ℕ

pub record AssetProof : Type 0 where
  pub root : Text
  pub leaf : Text
  pub proof : List Text
  pub node_index : ℕ
  pub tree_id : Text

-- The loop of `get_required_nodes_for_proof`, on fuel.
unfoldable pub required_from : ℕ → ℕ → List ℕ
required_from zero idx = 1 ∷ []
required_from (suc fuel) idx =
    let rest = required_from fuel (idx / 2) in
    if ltb 1 idx then (if idx % 2 == 0 then idx + 1 else idx - 1) ∷ rest else 1 ∷ []

-- The index itself is fuel enough, since each turn halves it.
unfoldable pub get_required_nodes_for_proof : ℕ → List ℕ
unfolding required_from
get_required_nodes_for_proof index = required_from index index

-- `SimpleChangeLog::default()`
abbrev pub default_node : SimpleChangeLog
default_node = record { hash = []; level = pos 0; node_idx = pos 0; seq = pos 0; tree = [] }

abbrev pub is_empty : List ℕ → Bool
is_empty [] = true
is_empty (b ∷ bs) = false

-- `*n == SimpleChangeLog::default()`
unfoldable pub is_default : SimpleChangeLog → Bool
is_default n =
    is_empty n.hash
    && eqb_ℤ n.level (pos 0)
    && eqb_ℤ n.node_idx (pos 0)
    && eqb_ℤ n.seq (pos 0)
    && is_empty n.tree

-- The rows that were found, at their levels. A negative level is an index out of range, a panic.
unfoldable pub fill : List SimpleChangeLog → List SimpleChangeLog → Option (List SimpleChangeLog)
fill [] l = some l
fill (n ∷ ns) l = elim n.level [
  | pos k ↦ fill ns (if ltb k (length l) then set l k n else l)
  | negsuc k ↦ none
]

-- `filter_map(|n| node_map.get(&(tree, n)))`
unfoldable pub found : (ℕ → Option SimpleChangeLog) → List ℕ → List SimpleChangeLog
found row [] = []
found row (r ∷ rs) = let rest = found row rs in elim (row r) [ none ↦ rest | some n ↦ n ∷ rest ]

-- `final_node_list.pop().unwrap()`: the list before its last element, and this one.
unfoldable pub pop : {A : Type 0} → List A → Option (List A × A)
pop [] = none
pop (a ∷ xs) =
    let rest = pop xs in elim rest [ none ↦ some ([], a) | some (i, z) ↦ some (a ∷ i, z) ]

-- `empty_node` is that of spl-concurrent-merkle-tree, `bs58_encode` that of bs58.
module _ (empty_node : ℕ → List ℕ) (bs58_encode : List ℕ → Text) where
  unfoldable pub make_empty_node : ℕ → ℕ → List ℕ → SimpleChangeLog
  make_empty_node lvl node_index tree = record {
    node_idx = pos node_index;
    level = pos lvl;
    hash = empty_node lvl;
    seq = pos 0;
    tree = tree;
  }

  -- The second loop of `build_asset_proof`, from level `i` on.
  unfoldable pub complete : List ℕ → ℕ → List SimpleChangeLog → List ℕ → List SimpleChangeLog
  complete tree i (n ∷ ns) (nin ∷ nins) =
      (if is_default n then make_empty_node i nin tree else n) ∷ complete tree (i + 1) ns nins
  complete tree i ns _ = ns

  unfoldable pub proof_of :
      List ℕ → ℕ → List ℕ → List SimpleChangeLog × SimpleChangeLog → AssetProof
  proof_of tree_id leaf_node_idx leaf_hash (nodes, last) = record {
    root = bs58_encode last.hash;
    leaf = bs58_encode leaf_hash;
    proof = map (λ n. bs58_encode n.hash) nodes;
    node_index = leaf_node_idx;
    tree_id = bs58_encode tree_id;
  }

  -- None is a panic.
  unfoldable pub build_asset_proof :
      List ℕ → ℕ → List ℕ → List ℕ → List SimpleChangeLog → Option AssetProof
  unfolding fill complete pop proof_of
  build_asset_proof tree_id leaf_node_idx leaf_hash req_indexes required_nodes =
      elim (fill required_nodes (replicate (length req_indexes) default_node)) [
        | none ↦ none
        | some nodes ↦ elim (pop (complete tree_id 0 nodes req_indexes)) [
          | none ↦ none
          | some p ↦ some (proof_of tree_id leaf_node_idx leaf_hash p)
        ]
      ]
