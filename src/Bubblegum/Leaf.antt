-- ===== src/Bubblegum/Leaf.antt =====
-- The handlers of program_transformers/src/bubblegum that change a leaf without its metadata:
-- transfer.rs, delegate.rs, redeem.rs, cancel_redeem.rs and burn.rs.
pub mod Verification
pub mod Atomic
pub mod Spare
pub mod Order
pub mod Commute
use das.Prelude.{
  ℕ, ◌+◌, ◌/◌, ◌%◌, Bool, true, false, ◌||◌, Option, none, some, List, [], ◌∷◌, String, as_i64,
  ◌==◌, if◌then◌else◌, ℤ, pos, map,
}
use das.Database.{
  Pubkey, Hash, Asset, default_asset, Action, pure, raise, bind_result, ◌>>=◌, ◌>>◌, transaction,
  execute_assets, storage_write_error, parsing_error, upsert, alter,
}
use das.Bubblegum.Types.{
  Crates, BubblegumInstruction, Bundle, LeafSchema, LeafV1, LeafV2, LeafSchemaEvent,
  ChangeLogEventV1, Payload, Creator, Collection, MetadataArgs,
}
use das.Bubblegum.Upserts.{
  leaf_info, on_asset, upsert_asset_with_leaf_info, upsert_asset_with_owner_and_delegate_info,
  upsert_asset_with_seq,
}
use das.Bubblegum.Upserts.Related.{collection_group, upsert_collection_info, upsert_asset_creators}
use das.Bubblegum.ChangeLog.{save_changelog_event}

-- `NormalizedLeafFields` and its `From<&LeafSchema>` (mod.rs).
pub record NormalizedLeafFields : Type 0 where
  pub id : Pubkey
  pub owner : Pubkey
  pub delegate : Pubkey
  pub nonce : ℕ
  pub data_hash : Hash
  pub creator_hash : Hash
  pub collection_hash : Option Hash
  pub asset_data_hash : Option Hash
  pub flags : Option ℕ

unfoldable pub normalized : LeafSchema → NormalizedLeafFields
normalized (LeafSchema.v1 l) = record {
  id = l.id;
  owner = l.owner;
  delegate = l.delegate;
  nonce = l.nonce;
  data_hash = l.data_hash;
  creator_hash = l.creator_hash;
  collection_hash = none;
  asset_data_hash = none;
  flags = none;
}
normalized (LeafSchema.v2 l) = record {
  id = l.id;
  owner = l.owner;
  delegate = l.delegate;
  nonce = l.nonce;
  data_hash = l.data_hash;
  creator_hash = l.creator_hash;
  collection_hash = some l.collection_hash;
  asset_data_hash = some l.asset_data_hash;
  flags = some l.flags;
}

-- The delegate to store: none if it is the owner itself or all zeros.
unfoldable pub delegate_of : Pubkey → Pubkey → Option Pubkey
delegate_of owner delegate = if owner == delegate || delegate == 0 then none else some delegate

-- `u32_to_u8_array`: the little-endian bytes of a u32, in an array of eight (mod.rs).
unfoldable pub u32_to_u8_array : ℕ → List ℕ
u32_to_u8_array v =
    v % 256 ∷ v / 256 % 256 ∷ v / 65_536 % 256 ∷ v / 16_777_216 % 256 ∷ 0 ∷ 0 ∷ 0 ∷ 0 ∷ []

abbrev pub not_parsed : {A : Type 0} → Action A
not_parsed = raise (parsing_error "Ix not parsed correctly")

module _ (crates : Crates) where
  -- `upsert_asset_with_leaf_info` at the values that most handlers pass.
  unfoldable pub upsert_leaf : NormalizedLeafFields → ℤ → Pubkey → Hash → ℤ → Action (Unit {0})
  upsert_leaf leaf nonce tree_id leaf_hash seq =
      upsert_asset_with_leaf_info leaf.id
        (leaf_info crates nonce tree_id leaf_hash leaf.data_hash leaf.creator_hash
          leaf.collection_hash leaf.asset_data_hash leaf.flags)
        seq

  -- The address of the asset of a leaf.
  pub asset_address : ChangeLogEventV1 → Pubkey
  asset_address cl =
      crates.find_program_address "asset" cl.id (u32_to_u8_array cl.index) crates.bubblegum_id

  unfoldable pub transfer_event :
      LeafSchemaEvent → ChangeLogEventV1 → Bundle → String → Action (Unit {0})
  transfer_event le cl bundle instruction = do
    seq ← save_changelog_event crates cl bundle.slot bundle.txn_id instruction
    let leaf = normalized le.schema
    transaction (do
      upsert_leaf leaf (pos cl.index) cl.id le.leaf_hash (as_i64 seq)
      upsert_asset_with_owner_and_delegate_info leaf.id leaf.owner
          (delegate_of leaf.owner leaf.delegate) (as_i64 seq)
      upsert_asset_with_seq leaf.id (as_i64 seq))

  unfoldable pub transfer_parts :
      Option LeafSchemaEvent → Option ChangeLogEventV1 → Bundle → String → Action (Unit {0})
  unfolding transfer_event
  transfer_parts (some le) (some cl) = transfer_event le cl
  transfer_parts _ _ = λ _ _. not_parsed

  unfoldable pub transfer : BubblegumInstruction → Bundle → String → Action (Unit {0})
  unfolding transfer_parts
  transfer parsing_result = transfer_parts parsing_result.leaf_update parsing_result.tree_update

  delegation_event : LeafSchemaEvent → ChangeLogEventV1 → Bundle → String → Action (Unit {0})
  delegation_event le cl bundle instruction = do
    seq ← save_changelog_event crates cl bundle.slot bundle.txn_id instruction
    let leaf = normalized le.schema
    transaction (do
      upsert_leaf leaf (pos cl.index) cl.id le.leaf_hash (as_i64 seq)
      upsert_asset_with_owner_and_delegate_info leaf.id leaf.owner
          (delegate_of leaf.owner leaf.delegate) (as_i64 seq)
      upsert_asset_with_seq leaf.id (as_i64 seq))

  delegation_freezing_nontransferability_parts :
      Option LeafSchemaEvent → Option ChangeLogEventV1 → Bundle → String → Action (Unit {0})
  unfolding delegation_event
  delegation_freezing_nontransferability_parts (some le) (some cl) = delegation_event le cl
  delegation_freezing_nontransferability_parts _ _ = λ _ _. not_parsed

  pub delegation_freezing_nontransferability :
      BubblegumInstruction → Bundle → String → Action (Unit {0})
  unfolding delegation_freezing_nontransferability_parts
  delegation_freezing_nontransferability parsing_result =
      delegation_freezing_nontransferability_parts parsing_result.leaf_update
        parsing_result.tree_update

  -- All hashes are zero until the redemption is cancelled.
  redeem_event : ChangeLogEventV1 → Bundle → String → Action (Unit {0})
  redeem_event cl bundle instruction = do
    seq ← save_changelog_event crates cl bundle.slot bundle.txn_id instruction
    let asset_id = asset_address cl
    transaction (do
      upsert_asset_with_leaf_info asset_id
          (leaf_info crates (pos cl.index) cl.id 0 0 0 none none none) (as_i64 seq)
      upsert_asset_with_seq asset_id (as_i64 seq))

  redeem_parts : Option ChangeLogEventV1 → Bundle → String → Action (Unit {0})
  unfolding redeem_event
  redeem_parts (some cl) = redeem_event cl
  redeem_parts none = λ _ _. not_parsed

  pub redeem : BubblegumInstruction → Bundle → String → Action (Unit {0})
  unfolding redeem_parts
  redeem parsing_result = redeem_parts parsing_result.tree_update

  -- A V2 leaf is refused, after the change log has been saved.
  cancel_redeem_leaf : ChangeLogEventV1 → Hash → ℤ → LeafSchema → Action (Unit {0})
  cancel_redeem_leaf cl leaf_hash seq (LeafSchema.v1 l) = transaction (do
    upsert_asset_with_leaf_info l.id
        (leaf_info crates (pos cl.index) cl.id leaf_hash l.data_hash l.creator_hash none none none)
        seq
    upsert_asset_with_owner_and_delegate_info l.id l.owner (delegate_of l.owner l.delegate) seq
    upsert_asset_with_seq l.id seq)
  cancel_redeem_leaf cl leaf_hash seq (LeafSchema.v2 l) =
      raise (parsing_error "LeafSchema V2 not possible for ix")

  cancel_redeem_event : LeafSchemaEvent → ChangeLogEventV1 → Bundle → String → Action (Unit {0})
  unfolding cancel_redeem_leaf
  cancel_redeem_event le cl bundle instruction = do
    seq ← save_changelog_event crates cl bundle.slot bundle.txn_id instruction
    cancel_redeem_leaf cl le.leaf_hash (as_i64 seq) le.schema

  cancel_redeem_parts :
      Option LeafSchemaEvent → Option ChangeLogEventV1 → Bundle → String → Action (Unit {0})
  unfolding cancel_redeem_event
  cancel_redeem_parts (some le) (some cl) = cancel_redeem_event le cl
  cancel_redeem_parts _ _ = λ _ _. not_parsed

  pub cancel_redeem : BubblegumInstruction → Bundle → String → Action (Unit {0})
  unfolding cancel_redeem_parts
  cancel_redeem parsing_result =
      cancel_redeem_parts parsing_result.leaf_update parsing_result.tree_update

  -- The upsert of the `burnt` column, which has no WHERE clause.
  pub burnt_row : Pubkey → Option Asset → Option Asset
  burnt_row id =
      upsert (record (default_asset id) { burnt = true }) (λ r. record r { burnt = true }) λ r. true

  burn_event : ChangeLogEventV1 → Bundle → String → Action (Unit {0})
  burn_event cl bundle instruction = do
    seq ← save_changelog_event crates cl bundle.slot bundle.txn_id instruction
    let asset_id = asset_address cl
    transaction (do
      execute_assets storage_write_error (on_asset asset_id (burnt_row asset_id))
      upsert_asset_with_seq asset_id (as_i64 seq))

  burn_parts : Option ChangeLogEventV1 → Bundle → String → Action (Unit {0})
  unfolding burn_event
  burn_parts (some cl) = burn_event cl
  burn_parts none = λ _ _. not_parsed

  pub burn : BubblegumInstruction → Bundle → String → Action (Unit {0})
  unfolding burn_parts
  burn parsing_result = burn_parts parsing_result.tree_update
