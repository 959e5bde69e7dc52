-- ===== src/Examples/Merkle.antt =====
-- The theorems on Merkle proofs at the leaf 5 of a tree of depth 2, whose node 3 is not stored.
use das.Prelude.{
  ℕ, ◌≡◌, refl, pos, Option, none, some, [], ◌∷◌, ◌==◌, ◌/◌, ◌^◌, if◌then◌else◌, length, get_elem?,
  arith,
}
use das.Dapi.Proofs.{
  SimpleChangeLog, get_required_nodes_for_proof, required_from, make_empty_node, build_asset_proof,
  found,
}
use das.Dapi.Proofs.Siblings.{
  sibling, get_required_nodes_for_proof_root, get_required_nodes_for_proof-sibling,
}
use das.Dapi.Proofs.Complete.{IsPlaced, stored_or_empty, nodes_from, build_asset_proof_lem}

abbrev node : ℕ → ℕ → SimpleChangeLog
node k r = record { hash = r ∷ 0 ∷ []; level = pos k; node_idx = pos r; seq = pos 6; tree = 7 ∷ [] }

abbrev row : ℕ → Option SimpleChangeLog
row r = if r == 4 then some (node 0 4) else (if r == 1 then some (node 2 1) else none)

required_five : get_required_nodes_for_proof 5 ≡ 4 ∷ 3 ∷ 1 ∷ []
unfolding get_required_nodes_for_proof required_from
required_five = refl

get_required_nodes_for_proof_root_example :
    (length (get_required_nodes_for_proof 5) ≡ 3)
    × (get_elem? (get_required_nodes_for_proof 5) 2 ≡ some 1)
get_required_nodes_for_proof_root_example =
    get_required_nodes_for_proof_root 2 5 (omega arith) (omega arith)

get_required_nodes_for_proof-sibling_example :
    get_elem? (get_required_nodes_for_proof 5) 1 ≡ some (sibling (5 / 2 ^ 1))
get_required_nodes_for_proof-sibling_example =
    get_required_nodes_for_proof-sibling 2 5 1 (omega arith) (omega arith) (omega arith)

placed :
    (k r : ℕ) (n : SimpleChangeLog)
    → ◌≡◌ {A = Option SimpleChangeLog} (some (node k r)) (some n)
    → (n.level ≡ pos k) × (n.node_idx ≡ pos r)
placed k r n e = ground arith

row-IsPlaced : IsPlaced row 0 (4 ∷ 3 ∷ 1 ∷ [])
row-IsPlaced = (
  (λ n e. placed 0 4 n e),
  omega arith,
  ((λ n e. absurd (cc)), omega arith, ((λ n e. placed 2 1 n e), omega arith, tt)),
)

build_asset_proof_example :
    build_asset_proof
      (λ k. k ∷ k ∷ [])
      (λ bytes. bytes)
      (7 ∷ [])
      5
      (9 ∷ [])
      (4 ∷ 3 ∷ 1 ∷ [])
      (found row (4 ∷ 3 ∷ 1 ∷ []))
    ≡ some (record {
      root = 1 ∷ 0 ∷ [];
      leaf = 9 ∷ [];
      proof = (4 ∷ 0 ∷ []) ∷ (1 ∷ 1 ∷ []) ∷ [];
      node_index = 5;
      tree_id = 7 ∷ [];
    })
unfolding stored_or_empty nodes_from make_empty_node
build_asset_proof_example =
    build_asset_proof_lem row (λ k. k ∷ k ∷ []) (λ bytes. bytes) (7 ∷ []) 5 (9 ∷ []) 4 (3 ∷ 1 ∷ [])
      row-IsPlaced
