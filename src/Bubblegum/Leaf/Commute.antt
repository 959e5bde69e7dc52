-- ===== src/Bubblegum/Leaf/Commute.antt =====
-- transfer.rs and delegate.rs: the asset tables after two events.
use das.Prelude.{ℕ, pos, ◌≡◌, ◌≢◌, refl, ◌∙◌, ap, sym, some, List, String, is_some, as_i64}
use das.Database.{Database, Action, pure, request, quiet, bind-run, ◌>>=◌, transaction}
use das.Bubblegum.Types.{Crates, ChangeLogEventV1, LeafSchemaEvent, Bundle, BubblegumInstruction}
use das.Bubblegum.Upserts.{
  upsert_asset_with_leaf_info, upsert_asset_with_owner_and_delegate_info, upsert_asset_with_seq,
}
use das.Bubblegum.ChangeLog.{save_changelog_event}
use das.Bubblegum.ChangeLog.Quiet.{save_changelog_event-Succeeds}
use das.Bubblegum.ChangeLog.Gap.{save_changelog_event-KeepsAssets}
use das.Database.Quiet.{after}
use das.Bubblegum.Leaf.{
  normalized, upsert_leaf, transfer_event, delegation_event, transfer_parts, transfer,
  delegation_freezing_nontransferability_parts, delegation_freezing_nontransferability,
}
use das.Bubblegum.Leaf.Order.{leaf_changed, leaf_changed_comm, leaf_changed_twice}

-- A handler whose effect on the asset tables is that of the three statements.
record ChangesLeaf (crates : Crates) (m : Action (Unit {0})) (le : LeafSchemaEvent)
    (cl : ChangeLogEventV1) : Type 0 where
  change : (d : Database) → (after m d).assets ≡ leaf_changed crates le cl d.assets

module _ (crates : Crates) (le : LeafSchemaEvent) (cl : ChangeLogEventV1) (bundle : Bundle)
    (instruction : String) (bytes : List ℕ)
    (decoded : crates.bs58_decode bundle.txn_id ≡ some bytes) where
  leaf_event :
      (m : ℕ → Action (Unit {0}))
      → ((d : Database) → (after (m cl.seq) d).assets ≡ leaf_changed crates le cl d.assets)
      → ChangesLeaf crates
          (save_changelog_event crates cl bundle.slot bundle.txn_id instruction >>= m)
          le
          cl
  leaf_event m h = record {
    change = λ d.
        let save = save_changelog_event crates cl bundle.slot bundle.txn_id instruction in
        ap (λ r. r.1.db.assets)
          (bind-run save m (quiet d) cl.seq _ (
            (save_changelog_event-Succeeds crates cl bundle.slot bundle.txn_id instruction bytes
                decoded).run
              d))
        ∙ h (after save d)
        ∙ ap (leaf_changed crates le cl) (
            (save_changelog_event-KeepsAssets crates cl bundle.slot bundle.txn_id instruction).same
              (quiet d));
  }

  transfer_event-ChangesLeaf :
      ChangesLeaf crates (transfer_event crates le cl bundle instruction) le cl
  unfolding transfer_event leaf_changed transaction request ◌>>=◌ pure upsert_leaf
      upsert_asset_with_leaf_info upsert_asset_with_owner_and_delegate_info upsert_asset_with_seq
  transfer_event-ChangesLeaf = leaf_event _ (λ d. refl)

  delegation_event-ChangesLeaf :
      ChangesLeaf crates (delegation_event crates le cl bundle instruction) le cl
  unfolding delegation_event leaf_changed transaction request ◌>>=◌ pure upsert_leaf
      upsert_asset_with_leaf_info upsert_asset_with_owner_and_delegate_info upsert_asset_with_seq
  delegation_event-ChangesLeaf = leaf_event _ (λ d. refl)

  transfer-ChangesLeaf :
      (p : BubblegumInstruction)
      → p.leaf_update ≡ some le
      → p.tree_update ≡ some cl
      → ChangesLeaf crates (transfer crates p bundle instruction) le cl
  unfolding transfer transfer_parts
  transfer-ChangesLeaf p h g = rw (h, g) transfer_event-ChangesLeaf

  delegation-ChangesLeaf :
      (p : BubblegumInstruction)
      → p.leaf_update ≡ some le
      → p.tree_update ≡ some cl
      → ChangesLeaf crates
          (delegation_freezing_nontransferability crates p bundle instruction)
          le
          cl
  unfolding delegation_freezing_nontransferability delegation_freezing_nontransferability_parts
  delegation-ChangesLeaf p h g = rw (h, g) delegation_event-ChangesLeaf

ChangesLeaf-comm :
    (crates : Crates) (m n : Action (Unit {0})) (a b : LeafSchemaEvent) (e f : ChangeLogEventV1)
    → ChangesLeaf crates m a e
    → ChangesLeaf crates n b f
    → is_some (normalized a.schema).flags ≡ is_some (normalized b.schema).flags
    → as_i64 e.seq ≢ as_i64 f.seq
    → as_i64 e.seq ≢ pos 0
    → as_i64 f.seq ≢ pos 0
    → (d : Database) → (after m (after n d)).assets ≡ (after n (after m d)).assets
ChangesLeaf-comm crates m n a b e f h g version distinct e_open f_open d =
    h.change (after n d)
    ∙ ap (leaf_changed crates a e) (g.change d)
    ∙ leaf_changed_comm crates a b e f version distinct e_open f_open d.assets
    ∙ sym (g.change (after m d) ∙ ap (leaf_changed crates b f) (h.change d))

module _ (crates : Crates) (a b : LeafSchemaEvent) (e f : ChangeLogEventV1)
    (p q : BubblegumInstruction) (bundle bundle' : Bundle) (s s' : String) (bytes bytes' : List ℕ)
    (d : Database) where
  -- Two transfers, parsed in full, leave the same asset tables, whichever of them is handled first,
  -- if no request fails and the transaction ids decode: their leaves have the same schema version,
  -- their sequence numbers differ and are not 0.
  pub transfer_comm :
      p.leaf_update ≡ some a
      → p.tree_update ≡ some e
      → q.leaf_update ≡ some b
      → q.tree_update ≡ some f
      → crates.bs58_decode bundle.txn_id ≡ some bytes
      → crates.bs58_decode bundle'.txn_id ≡ some bytes'
      → is_some (normalized a.schema).flags ≡ is_some (normalized b.schema).flags
      → as_i64 e.seq ≢ as_i64 f.seq
      → as_i64 e.seq ≢ pos 0
      → as_i64 f.seq ≢ pos 0
      → (after (transfer crates p bundle s) (after (transfer crates q bundle' s') d)).assets
        ≡ (after (transfer crates q bundle' s') (after (transfer crates p bundle s) d)).assets
  transfer_comm pa pe qb qf x y version distinct e_open f_open =
      ChangesLeaf-comm crates _ _ a b e f (transfer-ChangesLeaf crates a e bundle s bytes x p pa pe)
        (transfer-ChangesLeaf crates b f bundle' s' bytes' y q qb qf) version distinct e_open f_open
        d

  -- A transfer and a delegation (or a freeze), parsed in full, leave the same asset tables,
  -- whichever is handled first, if no request fails and the transaction ids decode: their leaves
  -- have the same schema version, their sequence numbers differ and are not 0.
  pub transfer-delegation_comm :
      p.leaf_update ≡ some a
      → p.tree_update ≡ some e
      → q.leaf_update ≡ some b
      → q.tree_update ≡ some f
      → crates.bs58_decode bundle.txn_id ≡ some bytes
      → crates.bs58_decode bundle'.txn_id ≡ some bytes'
      → is_some (normalized a.schema).flags ≡ is_some (normalized b.schema).flags
      → as_i64 e.seq ≢ as_i64 f.seq
      → as_i64 e.seq ≢ pos 0
      → as_i64 f.seq ≢ pos 0
      → let delegation = delegation_freezing_nontransferability crates q bundle' s' in
        (after (transfer crates p bundle s) (after delegation d)).assets
        ≡ (after delegation (after (transfer crates p bundle s) d)).assets
  transfer-delegation_comm pa pe qb qf x y version distinct e_open f_open =
      ChangesLeaf-comm crates _ _ a b e f (transfer-ChangesLeaf crates a e bundle s bytes x p pa pe)
        (delegation-ChangesLeaf crates b f bundle' s' bytes' y q qb qf) version distinct e_open
        f_open d

-- Handling a transfer, parsed in full, a second time, as a replay of the stream does, leaves the
-- asset tables as the first time left them, if no request fails, the transaction id decodes and the
-- sequence number is not 0.
pub transfer_twice :
    (crates : Crates) (a : LeafSchemaEvent) (e : ChangeLogEventV1) (p : BubblegumInstruction)
    (bundle : Bundle) (s : String) (bytes : List ℕ) (d : Database)
    → p.leaf_update ≡ some a
    → p.tree_update ≡ some e
    → crates.bs58_decode bundle.txn_id ≡ some bytes
    → as_i64 e.seq ≢ pos 0
    → (after (transfer crates p bundle s) (after (transfer crates p bundle s) d)).assets
      ≡ (after (transfer crates p bundle s) d).assets
transfer_twice crates a e p bundle s bytes d pa pe x e_open =
    let h = transfer-ChangesLeaf crates a e bundle s bytes x p pa pe in
    h.change (after (transfer crates p bundle s) d)
    ∙ ap (leaf_changed crates a e) (h.change d)
    ∙ leaf_changed_twice crates a e e_open d.assets
    ∙ sym (h.change d)
