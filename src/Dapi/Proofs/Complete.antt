-- ===== src/Dapi/Proofs/Complete.antt =====
-- change_logs.rs: `build_asset_proof` from the rows that were found.
use das.Prelude.{
  ℕ, ◌+◌, ◌≤◌, pos, negsuc, ◌≡◌, refl, sym, ◌∙◌, ap, subst, true, Option, none, some, List, [], ◌∷◌,
  ◌++◌, Text, ltb, length, set, replicate, length-append, arith, map, if◌then◌else◌,
}
use das.Dapi.Proofs.{
  SimpleChangeLog, AssetProof, default_node, is_default, fill, found, pop, make_empty_node,
  complete, proof_of, build_asset_proof,
}

-- The rows at the required indices stand at their levels, counted from `k`, and at their indices.
abbrev pub IsPlaced : (ℕ → Option SimpleChangeLog) → ℕ → List ℕ → Type 0
IsPlaced row k [] = Unit {0}
IsPlaced row k (r ∷ rs) =
    ((n : SimpleChangeLog) → row r ≡ some n → (n.level ≡ pos k) × (n.node_idx ≡ pos r))
    × (1 ≤ r)
    × IsPlaced row (k + 1) rs

or_default : Option SimpleChangeLog → SimpleChangeLog
or_default none = default_node
or_default (some n) = n

abbrev pub last_of : {A : Type 0} → A → List A → A
last_of a [] = a
last_of a (b ∷ bs) = last_of b bs

abbrev pub init_of : {A : Type 0} → A → List A → List A
init_of a [] = []
init_of a (b ∷ bs) = a ∷ init_of b bs

module _ {A : Type 0} where
  set-append :
      (xs : List A) (d n : A) (ys : List A)
      → set (xs ++ d ∷ ys) (length xs) n ≡ (xs ++ n ∷ []) ++ ys
  set-append [] d n ys = refl
  set-append (x ∷ xs) d n ys = ap (λ l. x ∷ l) (set-append xs d n ys)

  append_one : (xs : List A) (d : A) (ys : List A) → xs ++ d ∷ ys ≡ (xs ++ d ∷ []) ++ ys
  append_one [] d ys = refl
  append_one (x ∷ xs) d ys = ap (λ l. x ∷ l) (append_one xs d ys)

  length-one : (xs : List A) (d : A) → length (xs ++ d ∷ []) ≡ length xs + 1
  length-one xs d = length-append xs (d ∷ [])

  in_range : (xs : List A) (d : A) (ys : List A) → ltb (length xs) (length (xs ++ d ∷ ys)) ≡ true
  in_range xs d ys = rw (length-append) (ground arith)

pop_lem : {A : Type 0} (a : A) (xs : List A) → pop (a ∷ xs) ≡ some (init_of a xs, last_of a xs)
unfolding pop
pop_lem a [] = refl
pop_lem a (b ∷ bs) =
    ap (λ o. elim o [ none ↦ some ([], a) | some (i, z) ↦ some (a ∷ i, z) ]) (pop_lem b bs)

-- A found row goes to its level; without one the default value stays there.
fill_next :
    (o : Option SimpleChangeLog) (pre nodes rest : List SimpleChangeLog)
    → ((n : SimpleChangeLog) → o ≡ some n → n.level ≡ pos (length pre))
    → fill (elim o [ none ↦ nodes | some n ↦ n ∷ nodes ]) (pre ++ default_node ∷ rest)
      ≡ fill nodes ((pre ++ or_default o ∷ []) ++ rest)
unfolding fill or_default
fill_next none pre nodes rest h = ap (fill nodes) (append_one pre default_node rest)
fill_next (some n) pre nodes rest h =
    let l = pre ++ default_node ∷ rest in
    ap
      (λ v. elim v [
        | pos k ↦ fill nodes (if ltb k (length l) then set l k n else l)
        | negsuc k ↦ none
      ])
      (h n refl)
    ∙ ap (λ b. fill nodes (if b then set l (length pre) n else l)) (in_range pre default_node rest)
    ∙ ap (fill nodes) (set-append pre default_node n rest)

module _ (row : ℕ → Option SimpleChangeLog) where
  -- What the first loop makes of the rest of the list, once the levels below are done.
  fill-found :
      (pre : List SimpleChangeLog) (rs : List ℕ)
      → IsPlaced row (length pre) rs
      → fill (found row rs) (pre ++ replicate (length rs) default_node)
        ≡ some (pre ++ map (λ r. or_default (row r)) rs)
  unfolding fill found
  fill-found pre [] h = refl
  fill-found pre (r ∷ rs) h =
      fill_next (row r) pre (found row rs) (replicate (length rs) default_node) (λ n e. (h.0 n e).0)
      ∙ fill-found (pre ++ or_default (row r) ∷ []) rs
          (subst (λ k. IsPlaced row k rs) (sym (length-one pre (or_default (row r)))) h.2)
      ∙ ap some (sym (append_one pre (or_default (row r)) (map (λ x. or_default (row x)) rs)))

  module _ (empty_node : ℕ → List ℕ) (bs58_encode : List ℕ → Text) (tree : List ℕ) where
    -- The node at level `k` and index `r`.
    unfoldable pub stored_or_empty : ℕ → ℕ → SimpleChangeLog
    stored_or_empty k r = elim (row r) [
      | none ↦ make_empty_node empty_node bs58_encode k r tree
      | some n ↦ n
    ]

    unfoldable pub nodes_from : ℕ → List ℕ → List SimpleChangeLog
    nodes_from k [] = []
    nodes_from k (r ∷ rs) = stored_or_empty k r ∷ nodes_from (k + 1) rs

    complete_one :
        (k r : ℕ) (o : Option SimpleChangeLog)
        → 1 ≤ r
        → ((n : SimpleChangeLog) → o ≡ some n → (n.level ≡ pos k) × (n.node_idx ≡ pos r))
        → (if is_default (or_default o)
            then make_empty_node empty_node bs58_encode k r tree
            else or_default o)
          ≡ elim o [ none ↦ make_empty_node empty_node bs58_encode k r tree | some n ↦ n ]
    unfolding is_default or_default
    complete_one k r none h g = refl
    complete_one k r (some n) h g = ground (arith, g n refl)

    complete-map :
        (k : ℕ) (rs : List ℕ)
        → IsPlaced row k rs
        → complete empty_node bs58_encode tree k (map (λ r. or_default (row r)) rs) rs
          ≡ nodes_from k rs
    unfolding complete nodes_from stored_or_empty
    complete-map k [] h = refl
    complete-map k (r ∷ rs) h =
        ap
          (λ n.
            n ∷ complete empty_node bs58_encode tree (k + 1) (map (λ x. or_default (row x)) rs) rs)
          (complete_one k r (row r) h.1 h.0)
        ∙ ap (λ l. stored_or_empty k r ∷ l) (complete-map (k + 1) rs h.2)

    -- If the found rows stand at their levels, the proof has the hash of each required node but the
    -- last, in this order, and the last is its root: the stored hash where the node has a row, and
    -- that of an empty node of its level where it has none. There is no panic.
    pub build_asset_proof_lem :
        (leaf_node_idx : ℕ) (leaf_hash : List ℕ) (r : ℕ) (rs : List ℕ)
        → IsPlaced row 0 (r ∷ rs)
        → let first = stored_or_empty 0 r in
          let others = nodes_from 1 rs in
          build_asset_proof empty_node bs58_encode tree leaf_node_idx leaf_hash
            (r ∷ rs)
            (found row (r ∷ rs))
          ≡ some (record {
            root = bs58_encode (last_of first others).hash;
            leaf = bs58_encode leaf_hash;
            proof = map (λ n. bs58_encode n.hash) (init_of first others);
            node_index = leaf_node_idx;
            tree_id = bs58_encode tree;
          })
    unfolding build_asset_proof proof_of nodes_from
    build_asset_proof_lem leaf_node_idx leaf_hash r rs h =
        ap
          (λ o. elim o [
            | none ↦ none
            | some nodes ↦ finished (complete empty_node bs58_encode tree 0 nodes (r ∷ rs))
          ])
          (fill-found [] (r ∷ rs) h)
        ∙ ap finished (complete-map 0 (r ∷ rs) h)
        ∙ ap
            (λ o. elim o [
              | none ↦ none
              | some p ↦ some (proof_of empty_node bs58_encode tree leaf_node_idx leaf_hash p)
            ])
            (pop_lem (stored_or_empty 0 r) (nodes_from 1 rs))
      where
        finished : List SimpleChangeLog → Option AssetProof
        finished l = elim (pop l) [
          | none ↦ none
          | some p ↦ some (proof_of empty_node bs58_encode tree leaf_node_idx leaf_hash p)
        ]
