-- ===== src/Examples.antt =====
-- Concrete inputs: functions for the third-party crates, two transfers of one leaf, a mint, a
-- database, a cursor and a host.
mod Runs
mod Streams
mod Merkle
mod Accounts
mod Downloads
mod Pages
mod Backfiller
mod Reads
use das.Prelude.{
  ℕ, ℤ, pos, ◌==◌, ◌≢◌, ◌+◌, ◌≡◌, refl, arith, Bool, true, false, Option, none, some, List, [], ◌∷◌,
  inr, Text, as_i64,
}
use das.Database.{Database, AssetTables, World, Asset, default_asset}
use das.Bubblegum.Types.{
  Crates, PathNode, ChangeLogEventV1, LeafSchema, LeafV1, Version, LeafSchemaEvent, Creator,
  Collection, MetadataArgs, Payload, InstructionName, BubblegumInstruction, Bundle,
}

abbrev pub crates : Crates
crates = record {
  bs58_encode = λ n. n ∷ [];
  bs58_decode = λ t. some t;
  non_transferable = λ f. f == 2;
  asset_lvl_frozen = λ f. f == 1;
  permanent_lvl_frozen = λ f. f == 3;
  bubblegum_id = 99;
  find_program_address = λ s tree index program. tree + program;
  chain_data_to_value = λ c. inr 5;
  json_string = λ s. 6;
  notify = λ info. some "closed";
}

-- A tree of two leaves: the nodes 3, its parent 1.
abbrev pub log : ℕ → ChangeLogEventV1
log seq = record {
  id = 7;
  path = (record { node = 30 + seq; index = 3 }) ∷ (record { node = 10 + seq; index = 1 }) ∷ [];
  seq = seq;
  index = 1;
}

abbrev pub leaf : ℕ → LeafSchemaEvent
leaf owner = record {
  version = Version.v1;
  schema =
      LeafSchema.v1 (record {
        id = 20;
        owner = owner;
        delegate = 0;
        nonce = 1;
        data_hash = 8;
        creator_hash = 9;
      });
  leaf_hash = 30 + owner;
}

abbrev pub transfer_to : ℕ → ℕ → BubblegumInstruction
transfer_to owner seq = record {
  instruction = InstructionName.transfer;
  tree_update = some (log seq);
  leaf_update = some (leaf owner);
  payload = none;
}

abbrev pub metadata : MetadataArgs
metadata = record {
  name = 65 ∷ [];
  symbol = 66 ∷ 0 ∷ [];
  uri = 67 ∷ [];
  seller_fee_basis_points = 500;
  primary_sale_happened = false;
  is_mutable = true;
  edition_nonce = none;
  collection = some (record { verified = true; key = 44 });
  uses = none;
  creators = (record { address = 45; verified = true; share = 100 }) ∷ [];
}

abbrev pub minting : BubblegumInstruction
minting = record {
  instruction = InstructionName.mint_v1;
  tree_update = some (log 2);
  leaf_update = some (leaf 50);
  payload = some (Payload.mint metadata 60 7);
}

abbrev pub bundle : Bundle
bundle = record { txn_id = 1 ∷ 2 ∷ []; slot = 1_000 }

abbrev pub empty : Database
empty = record {
  assets = record {
    asset = λ k. none;
    asset_data = λ k. none;
    asset_creators = λ k i. none;
    asset_grouping = λ k. none;
    asset_authority = λ k. none;
  };
  cl_items = λ t n. none;
  cl_audits_v2 = [];
  backfill_items = [];
  tokens = λ m. none;
  token_accounts = λ k. none;
}

-- The asset 20 has been decompressed.
abbrev pub decompressed : Database
decompressed = record empty {
  assets = record empty.assets {
    asset = λ k. some (record (default_asset 20) { seq = some (pos 0) });
  };
}

-- The database refuses the eighth request: after the five of a change log with two nodes and the
-- start of the transaction, the second statement in it.
abbrev pub refusing : World
refusing = record {
  db = decompressed;
  outcomes = none ∷ none ∷ none ∷ none ∷ none ∷ none ∷ none ∷ some "40001" ∷ [];
  notified = [];
}
