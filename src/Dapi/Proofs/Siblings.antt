-- ===== src/Dapi/Proofs/Siblings.antt =====
-- change_logs.rs: the indices that `get_required_nodes_for_proof` collects.
use native.Mathlib.Nat.{two-pow-succ, one-le-pow, pow-succ', div-div-eq-div-mul}
use das.Prelude.{
  ℕ, zero, suc, ◌+◌, ◌-◌, ◌*◌, ◌/◌, ◌%◌, ◌^◌, ◌≤◌, ◌<◌, ◌≡◌, refl, sym, ◌∙◌, ap, some, List, [],
  ◌∷◌, length, get_elem?, ltb, ◌==◌, if◌then◌else◌, arith,
}
use das.Dapi.Proofs.{required_from, get_required_nodes_for_proof}

-- The other child of the node's parent.
abbrev pub sibling : ℕ → ℕ
sibling n = 2 * (n / 2) + (1 - n % 2)

-- The siblings of a node at depth `h` and of its ancestors, and the root.
path : ℕ → ℕ → List ℕ
path zero idx = 1 ∷ []
path (suc h) idx = sibling idx ∷ path h (idx / 2)

step_lem : (idx : ℕ) → 1 < idx → (if idx % 2 == 0 then idx + 1 else idx - 1) ≡ sibling idx
step_lem idx h = ground arith

halve_low : (p idx : ℕ) → p + p ≤ idx → p ≤ idx / 2
halve_low p idx h = omega arith

halve_high : (p idx : ℕ) → idx < p + p → idx / 2 < p
halve_high p idx h = omega arith

turn :
    (idx : ℕ) (rest : List ℕ)
    → 1 < idx
    → (if ltb 1 idx then (if idx % 2 == 0 then idx + 1 else idx - 1) ∷ rest else 1 ∷ [])
      ≡ sibling idx ∷ rest
turn idx rest h = ground (arith, step_lem idx h)

required_from-path :
    (fuel h idx : ℕ)
    → 2 ^ h ≤ idx
    → idx < 2 ^ suc h
    → idx ≤ fuel
    → required_from fuel idx ≡ path h idx
unfolding required_from path
required_from-path zero h idx l g f = absurd (omega (arith, one-le-pow h 2 (omega arith)))
required_from-path (suc fuel) zero idx l g f = ground arith
required_from-path (suc fuel) (suc h) idx l g f =
    turn idx (required_from fuel (idx / 2))
      (omega (arith, two-pow-succ h, one-le-pow h 2 (omega arith)))
    ∙ ap (λ rest. sibling idx ∷ rest)
        (required_from-path fuel h (idx / 2) (halve_low (2 ^ h) idx (omega (arith, two-pow-succ h)))
          (halve_high (2 ^ suc h) idx (omega (arith, two-pow-succ (suc h))))
          (omega (arith, two-pow-succ h, one-le-pow h 2 (omega arith))))

length-path : (h idx : ℕ) → length (path h idx) ≡ h + 1
unfolding path
length-path zero idx = refl
length-path (suc h) idx = omega (arith, length-path h (idx / 2))

halves : (idx i : ℕ) → idx / 2 / 2 ^ i ≡ idx / 2 ^ suc i
halves idx i = div-div-eq-div-mul idx 2 (2 ^ i) ∙ ap (λ d. idx / d) (sym (pow-succ' 2 i))

path-sibling : (h idx i : ℕ) → i < h → get_elem? (path h idx) i ≡ some (sibling (idx / 2 ^ i))
unfolding path
path-sibling zero idx i l = absurd (omega arith)
path-sibling (suc h) idx zero l = ap (λ n. some (sibling n)) (omega arith)
path-sibling (suc h) idx (suc i) l =
    path-sibling h (idx / 2) i (omega arith) ∙ ap (λ n. some (sibling n)) (halves idx i)

path-root : (h idx : ℕ) → get_elem? (path h idx) h ≡ some 1
unfolding path
path-root zero idx = refl
path-root (suc h) idx = path-root h (idx / 2)

-- For a node at depth `h`, so one with an index between 2 ^ h and 2 ^ (h + 1), the nodes of its
-- proof are `h` nodes and then the root, 1.
pub get_required_nodes_for_proof_root :
    (h idx : ℕ)
    → 2 ^ h ≤ idx
    → idx < 2 ^ suc h
    → let nodes = get_required_nodes_for_proof idx in
      (length nodes ≡ h + 1) × (get_elem? nodes h ≡ some 1)
unfolding get_required_nodes_for_proof
get_required_nodes_for_proof_root h idx l g =
    rw (required_from-path idx h idx l g (omega arith)) (length-path h idx, path-root h idx)

-- For a node at depth `h`, each of the first `h` nodes of its proof is the sibling of the node's
-- ancestor at that many levels above it (at level 0, of the node itself).
pub get_required_nodes_for_proof-sibling :
    (h idx i : ℕ)
    → 2 ^ h ≤ idx
    → idx < 2 ^ suc h
    → i < h
    → get_elem? (get_required_nodes_for_proof idx) i ≡ some (sibling (idx / 2 ^ i))
unfolding get_required_nodes_for_proof
get_required_nodes_for_proof-sibling h idx i l g k =
    rw (required_from-path idx h idx l g (omega arith)) (path-sibling h idx i k)
