-- ===== src/Lib.antt =====
-- A model of the indexer: the parts of program_transformers that turn Bubblegum instructions
-- (compressed NFTs) and account updates into rows of a SQL database, the bookkeeping and the
-- metadata downloads of grpc_ingester, and proofs and pages of the read API.
--
-- Prelude passes on the library's names, with integers, casts and texts over the native numbers.
-- Database holds the tables (digital_asset_types/src/dao/generated), upserts and effects:
--   an Action is a handler's async function. It takes the World (the tables, whether each further
--   request succeeds, the downloads asked for) and leaves its Result and the World after it. A
--   transaction that fails puts the tables back. The requests' outcomes are arbitrary, so that a
--   theorem on every World is one on every failure. A table is a function from its unique key to a
--   row; an upsert is the inserted row, the SET clause and the WHERE clause, with SQL's tests on
--   null. Keys and hashes are numbers, the all-zero one is 0. Columns that only the database fills
--   (serial ids, created_at) are left out, as are the logging calls.
--   Rollback, Decompressed and Quiet say what actions keep, Laws when two upserts commute.
-- Bubblegum is program_transformers/src/bubblegum: ChangeLog and Upserts (with its child
--   Related) are db.rs, Leaf (with its child Verification) and Metadata are the handlers, Dispatch is mod.rs, and Names is
--   digital_asset_types/src/dao/extensions/instruction.rs. In each, X_event is the body of the
--   handler X and X_parts its match on the parsed parts. The record Crates has what the handlers
--   call of other crates (base 58, program addresses, flag bits, JSON) and the caller's notifier;
--   the theorems hold for all such functions. The proofs stand in the children: Order, Commute and
--   Quiet on the order of events, Rows and Replay on what a change log leaves, Atomic on rollback, Spare on decompressed assets.
-- Accounts is the rest of program_transformers/src, as far as it is modelled: Columns is
--   asset_upserts.rs, Tokens is token/mod.rs, Agents is agent_registry.rs with
--   find_model_with_retry of lib.rs, Burns has burn_v1_asset and the statements on asset at the end
--   of the Core save_v1_asset (mpl_core_program/v1_asset.rs), Metadata the statements of
--   token_metadata/v1_asset.rs on authorities and creators, and the filter of
--   digital_asset_types/src/dao/scopes/asset.rs that reads the latter. A sleep of a handler is any
--   change of the World, since other tasks may write meanwhile. The children: Views and Order of
--   Columns say what sequences of statements leave (with Database.Registers), Replay what a replay
--   does to a burn, Slots and Atomic are about the token handler, Decorates and Order about agents.
-- Ingester is grpc_ingester/src: Cursor (cursor.rs), Hosts (metadata/hosts.rs), Guard
--   with its child
--   Redirects (metadata/guard.rs), Retry with its child
--   Markers (retry.rs), Downloads (metadata/mod.rs).
--   The methods of Cursor run under one mutex, so each is one step. In Downloads, a request, a
--   worker's taking of a job, its end and the end of a delay are one step each; the steps come in
--   any order, and the channel's answers, the URL crate, the gateway, the address filter, the pauses
--   of the hosts and the HTTP client are arbitrary.
-- Dapi is digital_asset_types/src/dapi: Proofs (change_logs.rs) builds Merkle proofs from the rows.
--   The required indices are found on fuel, the index itself, which the theorems show is enough.
--   Pages has create_pagination (common/asset.rs) and paginate (dao/scopes/asset.rs), on the rows
--   that a query selects, in its order; Sorting is rpc/filter.rs. Assets has get_by_id of
--   dao/scopes/asset.rs, with its children Batch (get_related_for_assets), Loops and Steps (what its
--   loops do to one asset), Present and Alone. Groups has the filter of groupings of the same file and the
--   statements of mpl_core_program/v1_asset.rs that write them. A table with one row for a key is a
--   function, the others are lists of rows in the order of the database; the requests succeed.
--   Terms and Search are SearchAssetsQuery of dao/mod.rs: the condition of searchAssets on a row of
--   the joined tables, in SQL's three-valued logic, and the tables that are joined; Loose is about
--   what is selected. The name of a search stands in the statement as SQL text, unescaped: such a
--   condition has no meaning in the model. UTF-8 decoding is an arbitrary function.
-- Backfiller is nft_ingester/src/backfiller.rs: Rows has the rows of backfill_items and the tasks on
--   them (each of which may fail), Gaps the gaps in a tree's sequence numbers, Blocks the ranges of
--   slots that are asked for, Plug the blocks and the transactions that are sent, Signatures the
--   slots of a tree's transactions, Filler the tries of run_filler, and Finder a round of run_finder.
--   Node has the RPC node, the block cache, the serialization and the messenger as a record of
--   arbitrary functions, and the state of a Backfiller. Signatures takes fuel, since the node may give
--   full pages forever; more fuel than there are signatures is enough. The filler tries five times.
-- Api is das_api/src: Pagination has validate_pagination of api/api_impl.rs.
-- Examples has concrete inputs, and the theorems at them.
--
-- Bounds: i64, i32 and i16 casts, and the i64 sums of a change log and of plug_gap, wrap around as
-- written in Prelude/Int. The differences of sequence numbers in get_missing_data are exact, as they
-- are in i64 if the numbers are not negative. The other loops are over
-- lists and need no fuel. A run of handlers one after the other stands for the events of one tree: the
-- interleaving of two transactions is not modelled. Not modelled either: SQL
-- queries that select assets and JSON responses of the read API, the rest of both save_v1_asset
-- (asset_data, the JSON of Core plugins), editions and inscriptions, the older nft_ingester except
-- for its backfiller, the parsing of instructions and accounts, files and the network.
mod Prelude
pub mod Database
pub mod Bubblegum
pub mod Accounts
pub mod Backfiller
pub mod Ingester
pub mod Dapi
pub mod Api
pub mod Examples
