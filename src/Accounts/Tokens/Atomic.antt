-- ===== src/Accounts/Tokens/Atomic.antt =====
-- token/mod.rs when requests fail.
use das.Prelude.{◌≡◌, refl, Bool, true, false}
use das.Database.{World, ProgramTransformerError, err, storage_write_error, not_implemented}
use das.Database.Rollback.{
  RollsBack, request-Keeps, pure-Keeps, raise-Keeps, bind-RollsBack, RollsBack-run,
  KeepsAssets-RollsBack, transaction-RollsBack,
}
use das.Database.Silent.{
  Silent, pure-Silent, raise-Silent, request-Silent, bind-Silent, transaction-Silent,
}
use das.Accounts.Columns.{AssetTokenAccountColumns}
use das.Accounts.Tokens.{
  AccountInfo, TokenProgramEntity, non_fungible_or_false, if_non_fungible,
  handle_token_program_account, upsert_assets_token_account_columns,
  upsert_assets_mint_account_columns,
}

if_non_fungible-RollsBack :
    (b : Bool) (c : AssetTokenAccountColumns) → RollsBack (if_non_fungible b c)
if_non_fungible-RollsBack true c = transaction-RollsBack _
if_non_fungible-RollsBack false c = KeepsAssets-RollsBack (pure-Keeps tt)

handle-RollsBack :
    (info : AccountInfo) (e : TokenProgramEntity) → RollsBack (handle_token_program_account info e)
unfolding handle_token_program_account
handle-RollsBack info (TokenProgramEntity.token_account ta) =
    bind-RollsBack (request-Keeps storage_write_error _ (λ d. refl)) λ _.
      bind-RollsBack (request-Keeps storage_write_error _ (λ d. refl))
        λ token. if_non_fungible-RollsBack (non_fungible_or_false token) _
handle-RollsBack info (TokenProgramEntity.mint m) =
    bind-RollsBack (request-Keeps storage_write_error _ (λ d. refl)) λ _. transaction-RollsBack _
handle-RollsBack info (TokenProgramEntity.close_ix k) =
    KeepsAssets-RollsBack (raise-Keeps not_implemented)

if_non_fungible-Silent : (b : Bool) (c : AssetTokenAccountColumns) → Silent (if_non_fungible b c)
unfolding upsert_assets_token_account_columns
if_non_fungible-Silent true c = transaction-Silent (request-Silent storage_write_error _ λ s. refl)
if_non_fungible-Silent false c = pure-Silent tt

handle-Silent :
    (info : AccountInfo) (e : TokenProgramEntity) → Silent (handle_token_program_account info e)
unfolding handle_token_program_account upsert_assets_mint_account_columns
handle-Silent info (TokenProgramEntity.token_account ta) =
    bind-Silent (request-Silent storage_write_error _ λ s. refl) λ _.
      bind-Silent (request-Silent storage_write_error _ λ s. refl)
        λ token. if_non_fungible-Silent (non_fungible_or_false token) _
handle-Silent info (TokenProgramEntity.mint m) =
    bind-Silent (request-Silent storage_write_error _ λ s. refl)
      λ _. transaction-Silent (request-Silent storage_write_error _ λ s. refl)
handle-Silent info (TokenProgramEntity.close_ix k) = raise-Silent not_implemented refl

-- If the handling of a token account, a mint or a close ends in an error, then every asset table is
-- as it was before, whichever request failed.
pub handle_token_program_account_rolls_back :
    (info : AccountInfo) (e : TokenProgramEntity) (w : World) (error : ProgramTransformerError)
    → (handle_token_program_account info e w).0 ≡ err error
    → (handle_token_program_account info e w).1.db.assets ≡ w.db.assets
handle_token_program_account_rolls_back info e w error h =
    RollsBack-run (handle_token_program_account info e) w error (handle-RollsBack info e) h
      ((handle-Silent info e).spoken w error h)
