-- ===== src/Accounts/Columns/Views.antt =====
-- The three groups of columns, seen as registers: each keeps the values with the highest slot,
-- whatever the other statements write in between.
use das.Prelude.{ℕ, ℤ, pos, ◌≡◌, refl, ◌∙◌, ap, Bool, false, Option, none, some, List, [], ◌∷◌}
use das.Database.{Pubkey, Json, SpecificationVersions, Asset, default_asset, at_least}
use das.Database.Registers.{write, see, upsert-see_kept, upsert-see_written}
use das.Accounts.Columns.{
  AssetTokenAccountColumns, AssetMintAccountColumns, AssetMetadataAccountColumns, AccountStatement,
  token_account, mint_account, metadata_account, set_token_account, set_mint_account,
  set_metadata_account, mint_account_inserted, raise_slot, token_account_row, mint_account_row,
  metadata_account_row, metadata_slot, run_statement, run_statements,
}

pub record TokenView : Type 0 where
  pub owner : Option Pubkey
  pub frozen : Bool
  pub delegate : Option Pubkey
  pub slot : Option ℤ

pub record MintView : Type 0 where
  pub supply : ℕ
  pub extensions : Option Json
  pub slot : Option ℤ

-- The metadata columns that no other statement sets in an old row.
pub record MetadataView : Type 0 where
  pub specification_version : Option SpecificationVersions
  pub royalty_amount : ℤ
  pub mpl_core_plugins : Option Json
  pub mpl_core_plugins_json_version : Option ℤ
  pub mpl_core_collection_current_size : Option ℤ
  pub mpl_core_unknown_external_plugins : Option Json
  pub mpl_core_unknown_plugins : Option Json
  pub mpl_core_external_plugins : Option Json
  pub mpl_core_collection_num_minted : Option ℤ
  pub is_agent : Bool
  pub asset_signer : Option Pubkey
  pub slot : Option ℤ

abbrev pub token_view : Asset → TokenView
token_view r = record {
  owner = r.owner;
  frozen = r.frozen;
  delegate = r.delegate;
  slot = r.slot_updated_token_account;
}

abbrev pub mint_view : Asset → MintView
mint_view r = record {
  supply = r.supply;
  extensions = r.mint_extensions;
  slot = r.slot_updated_mint_account;
}

abbrev pub metadata_view : Asset → MetadataView
metadata_view r = record {
  specification_version = r.specification_version;
  royalty_amount = r.royalty_amount;
  mpl_core_plugins = r.mpl_core_plugins;
  mpl_core_plugins_json_version = r.mpl_core_plugins_json_version;
  mpl_core_collection_current_size = r.mpl_core_collection_current_size;
  mpl_core_unknown_external_plugins = r.mpl_core_unknown_external_plugins;
  mpl_core_unknown_plugins = r.mpl_core_unknown_plugins;
  mpl_core_external_plugins = r.mpl_core_external_plugins;
  mpl_core_collection_num_minted = r.mpl_core_collection_num_minted;
  is_agent = r.is_agent;
  asset_signer = r.asset_signer;
  slot = r.slot_updated_metadata_account;
}

abbrev pub blank_token : TokenView
blank_token = record { owner = none; frozen = false; delegate = none; slot = none }

abbrev pub blank_mint : MintView
blank_mint = record { supply = 1; extensions = none; slot = none }

abbrev pub blank_metadata : MetadataView
blank_metadata = record {
  specification_version = none;
  royalty_amount = pos 0;
  mpl_core_plugins = none;
  mpl_core_plugins_json_version = none;
  mpl_core_collection_current_size = none;
  mpl_core_unknown_external_plugins = none;
  mpl_core_unknown_plugins = none;
  mpl_core_external_plugins = none;
  mpl_core_collection_num_minted = none;
  is_agent = false;
  asset_signer = none;
  slot = none;
}

-- What the columns of a statement are in the views.
abbrev pub token_value : AssetTokenAccountColumns → TokenView
token_value c = record {
  owner = c.owner;
  frozen = c.frozen;
  delegate = c.delegate;
  slot = c.slot_updated_token_account;
}

abbrev pub mint_value : AssetMintAccountColumns → MintView
mint_value c = record {
  supply = c.supply;
  extensions = c.extensions;
  slot = some c.slot_updated_mint_account;
}

abbrev pub metadata_value : AssetMetadataAccountColumns → MetadataView
metadata_value c = record {
  specification_version = some SpecificationVersions.v1;
  royalty_amount = c.royalty_amount;
  mpl_core_plugins = c.mpl_core_plugins;
  mpl_core_plugins_json_version = c.mpl_core_plugins_json_version;
  mpl_core_collection_current_size = c.mpl_core_collection_current_size;
  mpl_core_unknown_external_plugins = c.mpl_core_unknown_external_plugins;
  mpl_core_unknown_plugins = c.mpl_core_unknown_plugins;
  mpl_core_external_plugins = c.mpl_core_external_plugins;
  mpl_core_collection_num_minted = c.mpl_core_collection_num_minted;
  is_agent = c.is_agent;
  asset_signer = c.asset_signer;
  slot = metadata_slot c;
}

-- Three registers.
pub record Registers : Type 0 where
  pub token : TokenView
  pub mint : MintView
  pub metadata : MetadataView

abbrev pub see_row : Option Asset → Registers
see_row row = record {
  token = see token_view blank_token row;
  mint = see mint_view blank_mint row;
  metadata = see metadata_view blank_metadata row;
}

abbrev pub write_register : AccountStatement → Registers → Registers
write_register (token_account c) v = record v {
  token = write (λ x. x.slot) (token_value c) v.token;
}
write_register (mint_account c) v = record v { mint = write (λ x. x.slot) (mint_value c) v.mint }
write_register (metadata_account c) v = record v {
  metadata = write (λ x. x.slot) (metadata_value c) v.metadata;
}

abbrev pub write_registers : List AccountStatement → Registers → Registers
write_registers [] v = v
write_registers (x ∷ xs) v = write_registers xs (write_register x v)

-- Registers that are equal one by one.
registers_eq :
    (v w : Registers) → v.token ≡ w.token → v.mint ≡ w.mint → v.metadata ≡ w.metadata → v ≡ w
registers_eq v w p q r = λ i. record { token = p i; mint = q i; metadata = r i }

pub see_row-run_statement :
    (x : AccountStatement) (row : Option Asset)
    → see_row (run_statement x row) ≡ write_register x (see_row row)
unfolding token_account_row mint_account_row metadata_account_row
see_row-run_statement (token_account c) row =
    registers_eq (see_row (token_account_row c row)) _
      (upsert-see_written token_view blank_token (λ x. x.slot) (token_value c)
        (set_token_account c (default_asset c.mint))
        (λ r. raise_slot (c.slot_updated_token_account) (set_token_account c r))
        (λ r. at_least (c.slot_updated_token_account) r.slot_updated_token_account) refl refl
        (λ r. refl) (λ r. refl) row)
      (upsert-see_kept mint_view blank_mint (set_token_account c (default_asset c.mint))
        (λ r. raise_slot (c.slot_updated_token_account) (set_token_account c r))
        (λ r. at_least (c.slot_updated_token_account) r.slot_updated_token_account) refl (λ r. refl)
        row)
      (upsert-see_kept metadata_view blank_metadata (set_token_account c (default_asset c.mint))
        (λ r. raise_slot (c.slot_updated_token_account) (set_token_account c r))
        (λ r. at_least (c.slot_updated_token_account) r.slot_updated_token_account) refl (λ r. refl)
        row)
see_row-run_statement (mint_account c) row =
    registers_eq (see_row (mint_account_row c row)) _
      (upsert-see_kept token_view blank_token (mint_account_inserted c)
        (λ r. raise_slot (some c.slot_updated_mint_account) (set_mint_account c r))
        (λ r. at_least (some c.slot_updated_mint_account) r.slot_updated_mint_account) refl
        (λ r. refl) row)
      (upsert-see_written mint_view blank_mint (λ x. x.slot) (mint_value c)
        (mint_account_inserted c)
        (λ r. raise_slot (some c.slot_updated_mint_account) (set_mint_account c r))
        (λ r. at_least (some c.slot_updated_mint_account) r.slot_updated_mint_account) refl refl
        (λ r. refl) (λ r. refl) row)
      (upsert-see_kept metadata_view blank_metadata (mint_account_inserted c)
        (λ r. raise_slot (some c.slot_updated_mint_account) (set_mint_account c r))
        (λ r. at_least (some c.slot_updated_mint_account) r.slot_updated_mint_account) refl
        (λ r. refl) row)
see_row-run_statement (metadata_account c) row =
    registers_eq (see_row (metadata_account_row c row)) _
      (upsert-see_kept token_view blank_token (set_metadata_account c (default_asset c.mint))
        (λ r. raise_slot (metadata_slot c) (set_metadata_account c r))
        (λ r. at_least (metadata_slot c) r.slot_updated_metadata_account) refl (λ r. refl) row)
      (upsert-see_kept mint_view blank_mint (set_metadata_account c (default_asset c.mint))
        (λ r. raise_slot (metadata_slot c) (set_metadata_account c r))
        (λ r. at_least (metadata_slot c) r.slot_updated_metadata_account) refl (λ r. refl) row)
      (upsert-see_written metadata_view blank_metadata (λ x. x.slot) (metadata_value c)
        (set_metadata_account c (default_asset c.mint))
        (λ r. raise_slot (metadata_slot c) (set_metadata_account c r))
        (λ r. at_least (metadata_slot c) r.slot_updated_metadata_account) refl refl (λ r. refl)
        (λ r. refl) row)

-- However the statements on the token account, the mint and the metadata of an asset are
-- interleaved, three groups of columns of its row (owner, delegate and frozen; supply and mint
-- extensions; version, royalty, Core and agent columns) are those of three registers, one for each
-- kind of statement, where a write is dropped exactly if its slot is older than the last one.
pub see_row-run_statements :
    (xs : List AccountStatement) (row : Option Asset)
    → see_row (run_statements xs row) ≡ write_registers xs (see_row row)
see_row-run_statements [] row = refl
see_row-run_statements (x ∷ xs) row =
    see_row-run_statements xs (run_statement x row)
    ∙ ap (write_registers xs) (see_row-run_statement x row)
