-- ===== src/Bubblegum/Metadata/Authority.antt =====
-- mint.rs: the row that a mint leaves in `asset_authority`.
use das.Prelude.{
  ℕ, ℤ, ◌≡◌, refl, ◌∙◌, ap, Option, none, some, List, String, inr, as_i64, arith, drop_nul,
}
use das.Database.{
  Pubkey, Json, AssetAuthority, Database, quiet, bind-run, ◌>>=◌, ◌>>◌, request, transaction, pure,
  alter,
}
use das.Database.Quiet.{after}
use das.Bubblegum.Types.{
  Crates, Bundle, LeafSchemaEvent, ChangeLogEventV1, Payload, BubblegumInstruction, MetadataArgs,
  ChainDataV1, TokenStandard,
}
use das.Bubblegum.Upserts.{
  upsert_asset_with_leaf_info, upsert_asset_with_owner_and_delegate_info,
  upsert_asset_with_compression_info, upsert_asset_with_seq, upsert_asset_base_info,
}
use das.Bubblegum.Upserts.Related.{
  authority_row, set_creators, upsert_collection_info, upsert_asset_data, upsert_asset_creators,
  upsert_asset_authority,
}
use das.Bubblegum.ChangeLog.{save_changelog_event}
use das.Bubblegum.ChangeLog.Quiet.{save_changelog_event-Succeeds}
use das.Bubblegum.ChangeLog.Gap.{save_changelog_event-KeepsAssets}
use das.Bubblegum.Leaf.{normalized, upsert_leaf}
use das.Bubblegum.Metadata.{
  sanitize, chain_data_json, json_of, or_else, mint_rows, download_of, mint_event, mint_parts, mint,
}

-- The chain data of a minted leaf.
abbrev pub minted_chain_data : MetadataArgs → ChainDataV1
minted_chain_data m = sanitize (record {
  name = m.name;
  symbol = m.symbol;
  edition_nonce = m.edition_nonce;
  primary_sale_happened = m.primary_sale_happened;
  token_standard = some TokenStandard.non_fungible;
  uses = m.uses;
})

-- The row of a mint: its `seq` is the slot, its `slot_updated` is the sequence number.
abbrev pub minted_authority : Pubkey → Pubkey → ChangeLogEventV1 → Bundle → AssetAuthority
minted_authority id authority cl bundle = record {
  asset_id = id;
  authority = authority;
  seq = as_i64 bundle.slot;
  slot_updated = as_i64 cl.seq;
}

authority_row_lem :
    (a : AssetAuthority) (o : Option AssetAuthority) → authority_row a o ≡ some (or_else o a)
unfolding authority_row
authority_row_lem a none = refl
authority_row_lem a (some b) = refl

alter_same :
    {R : Type 0} (k : ℕ) (f : Option R → Option R) (t : ℕ → Option R) → alter k f t k ≡ f (t k)
alter_same k f t = ground arith

mint_rows-authority :
    {A : Type 0} (crates : Crates) (le : LeafSchemaEvent) (m : MetadataArgs)
    (authority tree_id : Pubkey) (slot seq : ℤ) (j : Json) (a : A) (d : Database)
    → let id = (normalized le.schema).id in
      (after
          (mint_rows crates le m authority tree_id slot seq j >> pure a)
          d).assets.asset_authority
        id
      ≡ authority_row
          (record { asset_id = id; authority = authority; seq = slot; slot_updated = seq })
          (d.assets.asset_authority id)
unfolding mint_rows transaction request ◌>>=◌ pure upsert_leaf set_creators
    upsert_asset_with_leaf_info upsert_asset_with_owner_and_delegate_info
    upsert_asset_with_compression_info upsert_asset_with_seq upsert_asset_base_info
    upsert_collection_info upsert_asset_data upsert_asset_creators upsert_asset_authority
mint_rows-authority crates le m authority tree_id slot seq j a d =
    let id = (normalized le.schema).id in
    alter_same id
      (authority_row
        (record { asset_id = id; authority = authority; seq = slot; slot_updated = seq }))
      d.assets.asset_authority

module _ (crates : Crates) (le : LeafSchemaEvent) (cl : ChangeLogEventV1) (m : MetadataArgs)
    (authority tree_id : Pubkey) (bundle : Bundle) (s : String) (bytes : List ℕ) (j : Json)
    (decoded : crates.bs58_decode bundle.txn_id ≡ some bytes)
    (valued : crates.chain_data_to_value (minted_chain_data m) ≡ inr j) where
  abbrev id : Pubkey
  id = (normalized le.schema).id

  mint_event-authority :
      (d : Database)
      → (after (mint_event crates le cl m authority tree_id bundle s) d).assets.asset_authority id
        ≡ authority_row (minted_authority id authority cl bundle) (d.assets.asset_authority id)
  unfolding mint_event chain_data_json pure
  mint_event-authority d =
      let save = save_changelog_event crates cl bundle.slot bundle.txn_id s in
      let row = authority_row (minted_authority id authority cl bundle) in
      ap (λ r. r.1.db.assets.asset_authority id)
        (bind-run save _ (quiet d) cl.seq _ (
            (save_changelog_event-Succeeds crates cl bundle.slot bundle.txn_id s bytes decoded).run
              d)
          ∙ bind-run (chain_data_json crates _)
              (λ c.
                mint_rows crates le m authority tree_id (as_i64 bundle.slot) (as_i64 cl.seq) c
                >> pure (download_of crates id (drop_nul m.uri)))
              (quiet (after save d)) j (quiet (after save d))
              (ap (λ r. json_of r (quiet (after save d))) valued))
      ∙ mint_rows-authority crates le m authority tree_id (as_i64 bundle.slot) (as_i64 cl.seq) j
          (download_of crates id (drop_nul m.uri)) (after save d)
      ∙ ap (λ t. row (t.asset_authority id))
          ((save_changelog_event-KeepsAssets crates cl bundle.slot bundle.txn_id s).same (quiet d))

  -- A mint that is parsed in full leaves an authority that the asset already has, and otherwise
  -- writes the slot as the row's `seq`, and the sequence number as its `slot_updated`, if no request
  -- fails, the transaction id decodes and the chain data has a JSON value.
  pub mint-authority :
      (p : BubblegumInstruction) (d : Database)
      → p.leaf_update ≡ some le
      → p.tree_update ≡ some cl
      → p.payload ≡ some (Payload.mint m authority tree_id)
      → (after (mint crates p bundle s) d).assets.asset_authority id
        ≡ some (or_else (d.assets.asset_authority id) (minted_authority id authority cl bundle))
  unfolding mint mint_parts
  mint-authority p d h g q =
      rw (h, g, q)
        (mint_event-authority d ∙ authority_row_lem (minted_authority id authority cl bundle) _)
