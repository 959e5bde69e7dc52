-- ===== src/Accounts/Tokens.antt =====
-- program_transformers/src/token/mod.rs: the handler of SPL token accounts and mints.
pub mod Slots
pub mod Atomic
use das.Prelude.{
  ℕ, ℤ, pos, Bool, true, false, Option, none, some, as_i64, ◌==◌, ◌&&◌, eqb_ℤ, ltb_ℤ, leb_ℤ,
  if◌then◌else◌,
}
use das.Database.{
  Pubkey, Token, TokenAccount, Database, upsert, alter, Action, execute, execute_assets, request,
  transaction, ◌>>=◌, ◌>>◌, pure, raise, storage_write_error, not_implemented,
}
use das.Accounts.Columns.{
  AssetTokenAccountColumns, AssetMintAccountColumns, token_account_row, mint_account_row,
}

-- `data`, which no handler below reads, is left out.
pub record AccountInfo : Type 0 where
  pub slot : ℕ
  pub pubkey : Pubkey
  pub owner : Pubkey

pub data AccountState : Type 0 where
  uninitialized initialized frozen : AccountState

-- What the handler reads of the accounts of the crate spl_token.
pub record SplAccount : Type 0 where
  pub mint : Pubkey
  pub owner : Pubkey
  pub amount : ℕ
  pub delegate : Option Pubkey
  pub state : AccountState
  pub delegated_amount : ℕ

pub record SplMint : Type 0 where
  pub mint_authority : Option Pubkey
  pub supply : ℕ
  pub decimals : ℕ
  pub freeze_authority : Option Pubkey

pub data TokenProgramEntity : Type 0 where
  mint : SplMint → TokenProgramEntity
  token_account : SplAccount → TokenProgramEntity
  close_ix : Pubkey → TokenProgramEntity

abbrev pub is_frozen : AccountState → Bool
is_frozen AccountState.frozen = true
is_frozen _ = false

-- `decimals == 0 && supply == 1`
unfoldable pub is_non_fungible : Token → Bool
is_non_fungible t = eqb_ℤ t.decimals (pos 0) && (t.supply == 1)

-- `token.map(|t| t.is_non_fungible()).unwrap_or(false)`
unfoldable pub non_fungible_or_false : Option Token → Bool
non_fungible_or_false none = false
non_fungible_or_false (some t) = is_non_fungible t

abbrev pub token_account_model : AccountInfo → SplAccount → TokenAccount
token_account_model info ta = record {
  pubkey = info.pubkey;
  mint = ta.mint;
  amount = as_i64 ta.amount;
  owner = ta.owner;
  frozen = is_frozen ta.state;
  close_authority = none;
  delegate = ta.delegate;
  delegated_amount = as_i64 ta.delegated_amount;
  slot_updated = as_i64 info.slot;
  token_program = info.owner;
  extensions = none;
}

-- The SET clause leaves `extensions` as they are; `WHERE excluded.slot_updated > …`.
unfoldable pub token_account_model_row : TokenAccount → Option TokenAccount → Option TokenAccount
token_account_model_row m =
    upsert m (λ r. record m { extensions = r.extensions; pubkey = r.pubkey })
      λ r. ltb_ℤ r.slot_updated m.slot_updated

abbrev pub token_model : AccountInfo → SplMint → Token
token_model info m = record {
  mint = info.pubkey;
  supply = m.supply;
  decimals = pos m.decimals;
  token_program = info.owner;
  mint_authority = m.mint_authority;
  freeze_authority = m.freeze_authority;
  close_authority = none;
  extension_data = none;
  slot_updated = as_i64 info.slot;
  extensions = none;
}

-- The SET clause leaves `extensions` as they are; `WHERE excluded.slot_updated >= …`.
unfoldable pub token_model_row : Token → Option Token → Option Token
token_model_row m =
    upsert m (λ r. record m { extensions = r.extensions; mint = r.mint })
      λ r. leb_ℤ r.slot_updated m.slot_updated

abbrev pub asset_columns : AccountInfo → SplAccount → AssetTokenAccountColumns
asset_columns info ta = record {
  mint = ta.mint;
  owner = some ta.owner;
  frozen = is_frozen ta.state;
  delegate = ta.delegate;
  slot_updated_token_account = some (as_i64 info.slot);
}

abbrev pub mint_columns : AccountInfo → SplMint → AssetMintAccountColumns
mint_columns info m = record {
  mint = info.pubkey;
  supply = m.supply;
  slot_updated_mint_account = as_i64 info.slot;
  extensions = none;
}

unfoldable pub upsert_assets_token_account_columns : AssetTokenAccountColumns → Action (Unit {0})
upsert_assets_token_account_columns c =
    execute_assets storage_write_error
      λ t. record t { asset = alter c.mint (token_account_row c) t.asset }

unfoldable pub upsert_assets_mint_account_columns : AssetMintAccountColumns → Action (Unit {0})
upsert_assets_mint_account_columns c =
    execute_assets storage_write_error
      λ t. record t { asset = alter c.mint (mint_account_row c) t.asset }

abbrev pub put_token_account : TokenAccount → Database → Database
put_token_account m d = record d {
  token_accounts = alter m.pubkey (token_account_model_row m) d.token_accounts;
}

abbrev pub put_token : Token → Database → Database
put_token m d = record d { tokens = alter m.mint (token_model_row m) d.tokens }

-- The transaction is begun only for the account of a token that is not fungible.
abbrev pub if_non_fungible : Bool → AssetTokenAccountColumns → Action (Unit {0})
if_non_fungible true c = transaction (upsert_assets_token_account_columns c)
if_non_fungible false c = pure tt

unfoldable pub handle_token_program_account : AccountInfo → TokenProgramEntity → Action (Unit {0})
handle_token_program_account info (TokenProgramEntity.token_account ta) = do
  execute storage_write_error (put_token_account (token_account_model info ta))
  token ← request storage_write_error (λ d. (d.tokens ta.mint, d))
  if_non_fungible (non_fungible_or_false token) (asset_columns info ta)
handle_token_program_account info (TokenProgramEntity.mint m) = do
  execute storage_write_error (put_token (token_model info m))
  transaction (upsert_assets_mint_account_columns (mint_columns info m))
handle_token_program_account info (TokenProgramEntity.close_ix k) = raise not_implemented
