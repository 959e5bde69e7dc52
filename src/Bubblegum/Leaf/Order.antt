-- ===== src/Bubblegum/Leaf/Order.antt =====
-- The statements of transfer.rs and delegate.rs on the asset's row, for two events in either order.
use das.Prelude.{
  ℕ, pos, ◌≡◌, ◌≢◌, refl, ◌∙◌, ap, sym, fun_ext, Option, arith, is_some, as_i64, ◌==◌,
  if◌then◌else◌,
}
use das.Database.{Pubkey, Asset, AssetTables}
use das.Bubblegum.Types.{Crates, ChangeLogEventV1, LeafSchemaEvent}
use das.Bubblegum.Upserts.{leaf_info, leaf_row, owner_row, seq_row, on_asset}
use das.Bubblegum.Upserts.Order.{
  leaf_row_twice, owner_row_twice, seq_row_twice, leaf_row_comm, owner_row_comm, seq_row_comm,
  leaf_row-owner_row, leaf_row-seq_row, owner_row-seq_row,
}
use das.Bubblegum.Leaf.{normalized, delegate_of}

-- A statement that commutes with each of three, with the three in turn.
module _ {R : Type 0} (f x y z : R → R) (fx : (r : R) → f (x r) ≡ x (f r))
    (fy : (r : R) → f (y r) ≡ y (f r)) (fz : (r : R) → f (z r) ≡ z (f r)) where
  comm-three : (r : R) → f (z (y (x r))) ≡ z (y (x (f r)))
  comm-three r = fz (y (x r)) ∙ ap z (fy (x r)) ∙ ap (λ q. z (y q)) (fx r)

module _ (crates : Crates) where
  -- The three statements on the row of the leaf's asset, which is at the key `id`.
  abbrev leaf_part : Pubkey → LeafSchemaEvent → ChangeLogEventV1 → Option Asset → Option Asset
  leaf_part id le cl =
      let leaf = normalized le.schema in
      leaf_row id
        (leaf_info crates (pos cl.index) cl.id le.leaf_hash leaf.data_hash leaf.creator_hash
          leaf.collection_hash leaf.asset_data_hash leaf.flags)
        (as_i64 cl.seq)

  abbrev owner_part : Pubkey → LeafSchemaEvent → ChangeLogEventV1 → Option Asset → Option Asset
  owner_part id le cl =
      let leaf = normalized le.schema in
      owner_row id leaf.owner (delegate_of leaf.owner leaf.delegate) (as_i64 cl.seq)

  leaf_change : Pubkey → LeafSchemaEvent → ChangeLogEventV1 → Option Asset → Option Asset
  leaf_change id le cl r = seq_row id (as_i64 cl.seq) (owner_part id le cl (leaf_part id le cl r))

  -- The asset tables after the three statements.
  unfoldable pub leaf_changed : LeafSchemaEvent → ChangeLogEventV1 → AssetTables → AssetTables
  leaf_changed le cl t =
      let id = (normalized le.schema).id in
      on_asset id (seq_row id (as_i64 cl.seq))
        (on_asset id (owner_part id le cl) (on_asset id (leaf_part id le cl) t))

leaf_changed-row :
    (crates : Crates) (le : LeafSchemaEvent) (cl : ChangeLogEventV1) (t : AssetTables) (j : ℕ)
    → (leaf_changed crates le cl t).asset j ≡ (
        if (normalized le.schema).id == j
        then leaf_change crates j le cl (t.asset j)
        else t.asset j)
unfolding leaf_changed leaf_change
leaf_changed-row crates le cl t j = ground arith

module _ (crates : Crates) (a b : LeafSchemaEvent) (e f : ChangeLogEventV1)
    (version : is_some (normalized a.schema).flags ≡ is_some (normalized b.schema).flags)
    (distinct : as_i64 e.seq ≢ as_i64 f.seq) (e_open : as_i64 e.seq ≢ pos 0)
    (f_open : as_i64 f.seq ≢ pos 0) where
  module _ (id : Pubkey) where
    leaf_with :
        (r : Option Asset)
        → leaf_part crates id a e (leaf_change crates id b f r)
          ≡ leaf_change crates id b f (leaf_part crates id a e r)
    unfolding leaf_change leaf_info
    leaf_with =
        comm-three (leaf_part crates id a e) (leaf_part crates id b f) (owner_part crates id b f)
          (seq_row id (as_i64 f.seq)) (λ q. leaf_row_comm id _ _ _ _ q version distinct)
          (λ q. leaf_row-owner_row id _ _ _ _ _ q) (λ q. leaf_row-seq_row id _ _ _ q f_open)

    owner_with :
        (r : Option Asset)
        → owner_part crates id a e (leaf_change crates id b f r)
          ≡ leaf_change crates id b f (owner_part crates id a e r)
    unfolding leaf_change
    owner_with =
        comm-three (owner_part crates id a e) (leaf_part crates id b f) (owner_part crates id b f)
          (seq_row id (as_i64 f.seq)) (λ q. sym (leaf_row-owner_row id _ _ _ _ _ q))
          (λ q. owner_row_comm id _ _ _ _ _ _ q distinct)
          (λ q. owner_row-seq_row id _ _ _ _ q f_open)

    seq_with :
        (r : Option Asset)
        → seq_row id (as_i64 e.seq) (leaf_change crates id b f r)
          ≡ leaf_change crates id b f (seq_row id (as_i64 e.seq) r)
    unfolding leaf_change
    seq_with =
        comm-three (seq_row id (as_i64 e.seq)) (leaf_part crates id b f) (owner_part crates id b f)
          (seq_row id (as_i64 f.seq)) (λ q. sym (leaf_row-seq_row id _ _ _ q e_open))
          (λ q. sym (owner_row-seq_row id _ _ _ _ q e_open))
          (λ q. seq_row_comm id _ _ q e_open f_open)

    leaf_change_comm :
        (r : Option Asset)
        → leaf_change crates id a e (leaf_change crates id b f r)
          ≡ leaf_change crates id b f (leaf_change crates id a e r)
    unfolding leaf_change
    leaf_change_comm r = sym (
        comm-three (leaf_change crates id b f) (leaf_part crates id a e) (owner_part crates id a e)
          (seq_row id (as_i64 e.seq)) (λ q. sym (leaf_with q)) (λ q. sym (owner_with q))
          (λ q. sym (seq_with q)) r)

  leaf_changed-row_comm :
      (t : AssetTables) (j : ℕ)
      → (leaf_changed crates a e (leaf_changed crates b f t)).asset j
        ≡ (leaf_changed crates b f (leaf_changed crates a e t)).asset j
  leaf_changed-row_comm t j = ground (
    arith,
    leaf_changed-row crates a e (leaf_changed crates b f t) j,
    leaf_changed-row crates b f t j,
    leaf_changed-row crates a e t j,
    leaf_changed-row crates b f (leaf_changed crates a e t) j,
    leaf_change_comm j (t.asset j),
  )

  pub leaf_changed_comm :
      (t : AssetTables)
      → leaf_changed crates a e (leaf_changed crates b f t)
        ≡ leaf_changed crates b f (leaf_changed crates a e t)
  unfolding leaf_changed
  leaf_changed_comm t =
      ap (λ rows. record t { asset = rows }) (fun_ext λ j. leaf_changed-row_comm t j)

-- Three statements that commute and have their effect once, sent twice.
module _ {R : Type 0} (x y z : R → R) (xx : (r : R) → x (x r) ≡ x r) (yy : (r : R) → y (y r) ≡ y r)
    (zz : (r : R) → z (z r) ≡ z r) (xy : (r : R) → x (y r) ≡ y (x r))
    (xz : (r : R) → x (z r) ≡ z (x r)) (yz : (r : R) → y (z r) ≡ z (y r)) where
  three-twice : (r : R) → z (y (x (z (y (x r))))) ≡ z (y (x r))
  three-twice r =
      ap (λ q. z (y q)) (comm-three x x y z (λ q. refl) xy xz r)
      ∙ ap z (yz (y (x (x r))))
      ∙ zz (y (y (x (x r))))
      ∙ ap z (yy (x (x r)) ∙ ap y (xx r))

module _ (crates : Crates) (le : LeafSchemaEvent) (cl : ChangeLogEventV1)
    (cl_open : as_i64 cl.seq ≢ pos 0) where
  leaf_change_twice :
      (id : Pubkey) (r : Option Asset)
      → leaf_change crates id le cl (leaf_change crates id le cl r) ≡ leaf_change crates id le cl r
  unfolding leaf_change
  leaf_change_twice id =
      three-twice (leaf_part crates id le cl) (owner_part crates id le cl)
        (seq_row id (as_i64 cl.seq)) (λ r. leaf_row_twice id _ _ r)
        (λ r. owner_row_twice id _ _ _ r) (λ r. seq_row_twice id _ r)
        (λ q. leaf_row-owner_row id _ _ _ _ _ q) (λ q. leaf_row-seq_row id _ _ _ q cl_open)
        (λ q. owner_row-seq_row id _ _ _ _ q cl_open)

  leaf_changed-row_twice :
      (t : AssetTables) (j : ℕ)
      → (leaf_changed crates le cl (leaf_changed crates le cl t)).asset j
        ≡ (leaf_changed crates le cl t).asset j
  leaf_changed-row_twice t j = ground (
    arith,
    leaf_changed-row crates le cl (leaf_changed crates le cl t) j,
    leaf_changed-row crates le cl t j,
    leaf_change_twice j (t.asset j),
  )

  pub leaf_changed_twice :
      (t : AssetTables)
      → leaf_changed crates le cl (leaf_changed crates le cl t) ≡ leaf_changed crates le cl t
  unfolding leaf_changed
  leaf_changed_twice t =
      ap (λ rows. record t { asset = rows }) (fun_ext λ j. leaf_changed-row_twice t j)
