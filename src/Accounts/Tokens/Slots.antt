-- ===== src/Accounts/Tokens/Slots.antt =====
-- token/mod.rs: updates of one slot, and of a mint and its account, one after the other.
use das.Prelude.{
  ℕ, ℤ, pos, negsuc, ◌≡◌, refl, ap, ◌∙◌, Bool, true, false, Option, none, some, ◌==◌, if◌then◌else◌,
  arith, ltb_ℤ, leb_ℤ, as_i64,
}
use das.Database.{Pubkey, Asset, Database, quiet, alter, ◌>>=◌, pure, request, transaction}
use das.Database.Quiet.{after}
use das.Accounts.Columns.{AssetTokenAccountColumns, token_account_row, mint_account_row}
use das.Accounts.Tokens.{
  AccountInfo, SplAccount, if_non_fungible, SplMint, TokenProgramEntity, is_non_fungible,
  non_fungible_or_false, token_account_model, token_account_model_row, token_model, token_model_row,
  asset_columns, mint_columns, handle_token_program_account, upsert_assets_token_account_columns,
  upsert_assets_mint_account_columns, put_token_account, put_token,
}

-- A database with the row of one asset changed.
abbrev with_asset : Pubkey → (Option Asset → Option Asset) → Database → Database
with_asset k f d = record d { assets = record d.assets { asset = alter k f d.assets.asset } }

abbrev with_token_account : Bool → AssetTokenAccountColumns → Database → Database
with_token_account b c d = if b then with_asset c.mint (token_account_row c) d else d

if_non_fungible_run :
    (b : Bool) (c : AssetTokenAccountColumns) (d : Database)
    → (if_non_fungible b c (quiet d)).1.db ≡ with_token_account b c d
unfolding ◌>>=◌ request transaction pure upsert_assets_token_account_columns
if_non_fungible_run true c d = refl
if_non_fungible_run false c d = refl

-- The database after the update of an account, and after that of a mint.
pub handled_account :
    (info : AccountInfo) (ta : SplAccount) (d : Database)
    → after (handle_token_program_account info (TokenProgramEntity.token_account ta)) d
      ≡ with_token_account
          (non_fungible_or_false (d.tokens ta.mint))
          (asset_columns info ta)
          (put_token_account (token_account_model info ta) d)
unfolding handle_token_program_account ◌>>=◌ request pure
handled_account info ta d =
    if_non_fungible_run (non_fungible_or_false (d.tokens ta.mint)) (asset_columns info ta)
      (put_token_account (token_account_model info ta) d)

-- The account of a token that is not fungible.
handled_nft :
    (info : AccountInfo) (ta : SplAccount) (d : Database)
    → non_fungible_or_false (d.tokens ta.mint) ≡ true
    → after (handle_token_program_account info (TokenProgramEntity.token_account ta)) d
      ≡ with_asset ta.mint
          (token_account_row (asset_columns info ta))
          (put_token_account (token_account_model info ta) d)
handled_nft info ta d h =
    handled_account info ta d
    ∙ ap
        (λ b.
          with_token_account b (asset_columns info ta)
            (put_token_account (token_account_model info ta) d))
        h

handled_unknown :
    (info : AccountInfo) (ta : SplAccount) (d : Database)
    → d.tokens ta.mint ≡ none
    → after (handle_token_program_account info (TokenProgramEntity.token_account ta)) d
      ≡ put_token_account (token_account_model info ta) d
unfolding non_fungible_or_false
handled_unknown info ta d h =
    handled_account info ta d
    ∙ ap
        (λ t.
          with_token_account (non_fungible_or_false t) (asset_columns info ta)
            (put_token_account (token_account_model info ta) d))
        h

pub handled_mint :
    (info : AccountInfo) (m : SplMint) (d : Database)
    → after (handle_token_program_account info (TokenProgramEntity.mint m)) d
      ≡ with_asset info.pubkey
          (mint_account_row (mint_columns info m))
          (put_token (token_model info m) d)
unfolding handle_token_program_account ◌>>=◌ request transaction pure
    upsert_assets_mint_account_columns
handled_mint info m d = refl

abbrev pub owner_of : Option Asset → Option Pubkey
owner_of none = none
owner_of (some r) = r.owner

leb_refl : (a : ℤ) → leb_ℤ a a ≡ true
leb_refl (pos n) = ground arith
leb_refl (negsuc n) = ground arith

ltb_irrefl : (a : ℤ) → ltb_ℤ a a ≡ false
ltb_irrefl (pos n) = ground arith
ltb_irrefl (negsuc n) = ground arith

eq_refl : (k : ℕ) → (k == k) ≡ true
eq_refl k = ground arith

-- Two updates of a token account in one slot: the row of the account keeps the first, but the row
-- of its asset takes the owner of the second. (The account and the asset have no row before, the
-- mint is known and not fungible, and no request fails.)
pub same_slot_updates :
    (info : AccountInfo) (ta ta' : SplAccount) (d : Database)
    → ta'.mint ≡ ta.mint
    → non_fungible_or_false (d.tokens ta.mint) ≡ true
    → d.token_accounts info.pubkey ≡ none
    → d.assets.asset ta.mint ≡ none
    → let update = λ (x : SplAccount).
      after (handle_token_program_account info (TokenProgramEntity.token_account x)) in
      let d' = update ta' (update ta d) in
      (d'.token_accounts info.pubkey ≡ some (token_account_model info ta))
      × (owner_of (d'.assets.asset ta.mint) ≡ some ta'.owner)
unfolding token_account_model_row token_account_row
same_slot_updates info ta ta' d e n p q =
    let k = info.pubkey in
    let update = λ (x : SplAccount).
      after (handle_token_program_account info (TokenProgramEntity.token_account x)) in
    let both = ap (update ta') (handled_nft info ta d n) ∙ handled_nft info ta' _ (rw (e) n) in
    (
      ap (λ x. x.token_accounts k) both ∙ rw (eq_refl k, p, ltb_irrefl (as_i64 info.slot)) refl,
      ap (λ x. owner_of (x.assets.asset ta.mint)) both
          ∙ rw (e, eq_refl ta.mint, q, leb_refl (as_i64 info.slot)) refl,
    )

-- A mint that is not fungible, with supply 1, and its account, both new: if the mint is handled
-- first, its asset has the owner of the account, and if the account is, the asset has none. (The
-- asset has no row before, and no request fails.)
pub mint_and_account :
    (info_m info : AccountInfo) (m : SplMint) (ta : SplAccount) (d : Database)
    → info_m.pubkey ≡ ta.mint
    → m.decimals ≡ 0
    → m.supply ≡ 1
    → d.tokens ta.mint ≡ none
    → d.assets.asset ta.mint ≡ none
    → let account =
        after (handle_token_program_account info (TokenProgramEntity.token_account ta)) in
      let mint = after (handle_token_program_account info_m (TokenProgramEntity.mint m)) in
      (owner_of ((account (mint d)).assets.asset ta.mint) ≡ some ta.owner)
      × (owner_of ((mint (account d)).assets.asset ta.mint) ≡ none)
unfolding token_model_row token_account_row mint_account_row non_fungible_or_false is_non_fungible
mint_and_account info_m info m ta d e z o p q =
    let account = after (handle_token_program_account info (TokenProgramEntity.token_account ta)) in
    let mint = after (handle_token_program_account info_m (TokenProgramEntity.mint m)) in
    let mint_first =
      ap account (handled_mint info_m m d)
      ∙ handled_nft info ta _ (rw (e, eq_refl ta.mint, p, z, o) refl) in
    let account_first = ap mint (handled_unknown info ta d p) ∙ handled_mint info_m m _ in
    (
      ap (λ x. owner_of (x.assets.asset ta.mint)) mint_first ∙ rw (e, eq_refl ta.mint, q) refl,
      ap (λ x. owner_of (x.assets.asset ta.mint)) account_first ∙ rw (e, eq_refl ta.mint, q) refl,
    )
