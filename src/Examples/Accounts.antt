-- ===== src/Examples/Accounts.antt =====
-- Account updates: an NFT of mint 50, its account 60, and a Core asset 70.
use mathlib.Core.List.{Memᴰ, Permᴰ}
use das.Prelude.{
  inl, inr, sym, subst, ◌∙◌, ℕ, ℤ, pos, ◌≡◌, ◌≢◌, refl, true, false, Option, none, some, List, [],
  ◌∷◌, ◌==◌, if◌then◌else◌, arith,
}
use das.Database.{
  Database, World, Asset, default_asset, Token, SpecificationAssetClass, OwnerType,
  storage_write_error, ◌>>=◌, request, transaction, pure, raise,
}
use das.Database.Quiet.{after}
use das.Accounts.Columns.{
  AssetTokenAccountColumns, AssetMintAccountColumns, AssetMetadataAccountColumns, AccountStatement,
  token_account, mint_account, metadata_account, run_statements, token_account_row,
}
use das.Accounts.Columns.Views.{see_row, write_registers, see_row-run_statements}
use das.Accounts.Columns.Order.{
  run_statements_permute, Apart, AllApart, token_account_row_slot, slot_of,
}
use das.Accounts.Burns.{burn_row, save_core_rows}
use das.Accounts.Burns.Replay.{is_burnt, save_core_rows-burn_row}
use das.Accounts.Tokens.{
  AccountInfo, AccountState, SplAccount, SplMint, TokenProgramEntity, handle_token_program_account,
  token_account_model, non_fungible_or_false, is_non_fungible, upsert_assets_token_account_columns,
}
use das.Accounts.Tokens.Slots.{owner_of, same_slot_updates}
use das.Accounts.Tokens.Atomic.{handle_token_program_account_rolls_back}
use das.Accounts.Agents.{find_asset, handle_agent_registry_account}
use das.Accounts.Agents.Decorates.{Decorated, handle_agent_registry_account_decorates}
use das.Bubblegum.Types.{Creator}
use das.Accounts.Metadata.{authority_account_row, put_account_creators, filter_out_stale_creators}
use das.Accounts.Metadata.Authority.{authority_of, authority_account_row_stale}
use das.Accounts.Metadata.Creators.{filter_out_stale_creators-put_account_creators}
use das.Examples.{empty}

abbrev held_by : ℕ → ℤ → AssetTokenAccountColumns
held_by owner slot = record {
  mint = 50;
  owner = some owner;
  frozen = false;
  delegate = none;
  slot_updated_token_account = some slot;
}

abbrev core : ℕ → AssetMetadataAccountColumns
core slot = record {
  mint = 70;
  owner_type = OwnerType.single;
  specification_asset_class = some SpecificationAssetClass.mpl_core_asset;
  royalty_amount = pos 500;
  asset_data = some 70;
  slot_updated_metadata_account = slot;
  mpl_core_plugins = some 1;
  mpl_core_unknown_plugins = none;
  mpl_core_collection_num_minted = none;
  mpl_core_collection_current_size = none;
  mpl_core_plugins_json_version = some (pos 1);
  mpl_core_external_plugins = some 2;
  mpl_core_unknown_external_plugins = none;
  is_agent = false;
  asset_signer = none;
}

abbrev minted : AssetMintAccountColumns
minted = record { mint = 50; supply = 1; slot_updated_mint_account = pos 9; extensions = none }

abbrev statements : List AccountStatement
statements =
    token_account (held_by 1 (pos 12))
    ∷ (mint_account minted
        ∷ (token_account (held_by 2 (pos 11)) ∷ (metadata_account (core 8) ∷ [])))

see_row-run_statements_example :
    see_row (run_statements statements none) ≡ write_registers statements (see_row none)
see_row-run_statements_example = see_row-run_statements statements none

apart : (some (pos 12)) ≢ some (pos 11)
apart h = ground arith

subst-Apart : {a b x y : AccountStatement} → a ≡ x → b ≡ y → Apart x y → Apart a b
subst-Apart {b} {x} p q h = subst (λ z. Apart z b) (sym p) (subst (λ z. Apart x z) (sym q) h)

abbrev earlier : AccountStatement
earlier = token_account (held_by 2 (pos 11))

abbrev later : AccountStatement
later = token_account (held_by 1 (pos 12))

updates-AllApart : AllApart (later ∷ (earlier ∷ []))
updates-AllApart a b (Memᴰ.head p) (Memᴰ.head q) = inl (p ∙ sym q)
updates-AllApart a b (Memᴰ.head p) (Memᴰ.tail (Memᴰ.head q)) = inr (subst-Apart p q apart)
updates-AllApart a b (Memᴰ.head p) (Memᴰ.tail (Memᴰ.tail m)) = elim m [ ]
updates-AllApart a b (Memᴰ.tail (Memᴰ.tail m)) _ = elim m [ ]
updates-AllApart a b (Memᴰ.tail (Memᴰ.head p)) (Memᴰ.tail (Memᴰ.tail m)) = elim m [ ]
updates-AllApart a b (Memᴰ.tail (Memᴰ.head p)) (Memᴰ.head q) =
    inr (subst-Apart p q (λ e. apart (sym e)))
updates-AllApart a b (Memᴰ.tail (Memᴰ.head p)) (Memᴰ.tail (Memᴰ.head q)) = inl (p ∙ sym q)

run_statements_permute_example :
    see_row (run_statements (later ∷ (earlier ∷ [])) none)
    ≡ see_row (run_statements (earlier ∷ (later ∷ [])) none)
run_statements_permute_example =
    run_statements_permute (later ∷ (earlier ∷ [])) (earlier ∷ (later ∷ [])) none
      (Permᴰ.swap refl refl) updates-AllApart

token_account_row_slot_example :
    (slot_of (token_account_row (held_by 1 (pos 12)) (token_account_row (held_by 2 (pos 11)) none))
      ≡ some (pos 12))
    × (slot_of
          (token_account_row (held_by 2 (pos 11)) (token_account_row (held_by 1 (pos 12)) none))
        ≡ none)
token_account_row_slot_example =
    token_account_row_slot (held_by 2 (pos 11)) (held_by 1 (pos 12)) (pos 11) (pos 12) refl refl
      (omega arith)

save_core_rows-burn_row_example :
    let run =
      λ (row : Option Asset). burn_row 70 30 (save_core_rows (core 20) (some 3) false none row) in
    (is_burnt (run none) ≡ true) × (is_burnt (run (run none)) ≡ false)
save_core_rows-burn_row_example =
    save_core_rows-burn_row 70 (core 20) (some 3) false none 30 (omega arith) (omega arith)

abbrev info : AccountInfo
info = record { slot = 40; pubkey = 60; owner = 2 }

abbrev info_m : AccountInfo
info_m = record { slot = 39; pubkey = 50; owner = 2 }

abbrev held : ℕ → SplAccount
held owner = record {
  mint = 50;
  owner = owner;
  amount = 1;
  delegate = none;
  state = AccountState.initialized;
  delegated_amount = 0;
}

abbrev nft : SplMint
nft = record { mint_authority = none; supply = 1; decimals = 0; freeze_authority = none }

abbrev nft_token : Token
nft_token = record {
  mint = 50;
  supply = 1;
  decimals = pos 0;
  token_program = 2;
  mint_authority = none;
  freeze_authority = none;
  close_authority = none;
  extension_data = none;
  slot_updated = pos 39;
  extensions = none;
}

abbrev with_nft : Database
with_nft = record empty { tokens = λ k. if k == 50 then some nft_token else none }

same_slot_updates_example :
    let update = λ (x : SplAccount).
      after (handle_token_program_account info (TokenProgramEntity.token_account x)) in
    let d = update (held 4) (update (held 3) with_nft) in
    (d.token_accounts 60 ≡ some (token_account_model info (held 3)))
    × (owner_of (d.assets.asset 50) ≡ some 4)
unfolding non_fungible_or_false is_non_fungible
same_slot_updates_example = same_slot_updates info (held 3) (held 4) with_nft refl refl refl refl

-- The upsert of the asset fails.
abbrev failing : World
failing = record {
  db = with_nft;
  outcomes = none ∷ (none ∷ (none ∷ (some "restart transaction" ∷ [])));
  notified = [];
}

handle_token_program_account_rolls_back_example :
    (handle_token_program_account info
      (TokenProgramEntity.token_account (held 3))
      failing).1.db.assets
    ≡ with_nft.assets
unfolding handle_token_program_account ◌>>=◌ request transaction pure raise non_fungible_or_false
    is_non_fungible upsert_assets_token_account_columns
handle_token_program_account_rolls_back_example =
    handle_token_program_account_rolls_back info (TokenProgramEntity.token_account (held 3)) failing
      (storage_write_error "restart transaction") refl

abbrev core_row : Asset
core_row = record (default_asset 70) {
  specification_asset_class = some SpecificationAssetClass.mpl_core_asset;
}

-- While the search sleeps for 5ms, the asset appears.
abbrev sleep : ℕ → World → World
sleep n w =
    if n == 5
    then record w {
      db = record w.db {
        assets = record w.db.assets { asset = λ k. if k == 70 then some core_row else none };
      };
    }
    else w

abbrev calm : World
calm = record { db = empty; outcomes = []; notified = [] }

handle_agent_registry_account_decorates_example :
    Decorated ((find_asset sleep 70 calm).1.db.assets.asset 70) (
      (handle_agent_registry_account sleep
          (some (record { asset = 70; agent_token_mint = some 6 }))
          44
          calm).1.db.assets.asset
        70)
handle_agent_registry_account_decorates_example =
    handle_agent_registry_account_decorates sleep (record { asset = 70; agent_token_mint = some 6 })
      44 calm 70

other : ◌≢◌ {A = ℕ} 5 6
other h = ground arith

authority_account_row_stale_example :
    let write = authority_account_row 50 in
    (authority_of (write 5 (pos 9) (write 6 (pos 8) (write 5 (pos 7) none))) ≡ some 5)
    × (authority_of (write 6 (pos 8) (write 5 (pos 9) (write 5 (pos 7) none))) ≡ some 6)
authority_account_row_stale_example =
    authority_account_row_stale 50 5 6 (pos 7) (pos 8) (pos 9) other (omega arith) (omega arith)

abbrev creator : ℕ → Creator
creator address = record { address = address; verified = true; share = 50 }

filter_out_stale_creators-put_account_creators_example :
    let new = put_account_creators 50 (pos 8) 0 (creator 1 ∷ []) in
    let old = put_account_creators 50 (pos 7) 0 (creator 2 ∷ (creator 3 ∷ [])) in
    (filter_out_stale_creators (new (old [])) ≡ new [])
    × (filter_out_stale_creators (old (new [])) ≡ new [])
    × (filter_out_stale_creators (
          put_account_creators 50
            (pos 8)
            0
            []
            (put_account_creators 50 (pos 7) 0 (creator 1 ∷ []) []))
        ≡ put_account_creators 50 (pos 7) 0 (creator 1 ∷ []) [])
filter_out_stale_creators-put_account_creators_example =
    filter_out_stale_creators-put_account_creators 50 (pos 7) (pos 8) (creator 1) []
      (creator 2 ∷ (creator 3 ∷ [])) (omega arith)
