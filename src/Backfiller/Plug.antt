-- ===== src/Backfiller/Plug.antt =====
-- nft_ingester/src/backfiller.rs: plug_gap, which sends the transactions of the blocks in a gap. Blocks
-- are taken in the order of the ranges.
pub mod Untouched
use das.Prelude.{ℕ, Bool, Option, none, some, List, [], ◌∷◌, ◌++◌, ◌||◌, any, ◌==◌, if◌then◌else◌}
use das.Database.{Pubkey}
use das.Backfiller.Gaps.{GapInfo}
use das.Backfiller.Blocks.{requested_ranges}
use das.Backfiller.Node.{
  TransactionStatusMeta, DecodedTransaction, EncodedTransaction, Block, Insert, stored, refused,
  failed, Node, cache_storage_write_error, rpc_get_data_error, deserialization_error,
  serialization_error, messenger_error, ok, err, Run, done, fail, ◌>>=◌, ◌>>◌,
}

module _ (node : Node) where
  -- What is cached after an insertion that was stored.
  abbrev pub cached_after : ℕ → Block → (ℕ → Option Block) → ℕ → Option Block
  cached_after slot block cache k =
      if (k == slot) then (if (node.keeps slot) then some block else none) else cache k

  abbrev pub cached_or_err : Option Block → Run Block
  cached_or_err none = fail cache_storage_write_error
  cached_or_err (some block) = done block

  abbrev pub insert_block : ℕ → Block → Insert → Run Block
  insert_block slot block stored s =
      let cache = cached_after slot block s.cache in
      cached_or_err (cache slot) (record s { cache = cache })
  insert_block slot block refused s = (err cache_storage_write_error, s)
  insert_block slot block failed s = (err cache_storage_write_error, s)

  abbrev pub fetch_block : ℕ → Option Block → Run Block
  fetch_block slot none = fail rpc_get_data_error
  fetch_block slot (some block) = insert_block slot block (node.try_insert slot)

  abbrev pub cached_or_fetch : ℕ → Option Block → Run Block
  cached_or_fetch slot (some block) = done block
  cached_or_fetch slot none = fetch_block slot (node.get_block slot)

  unfoldable pub load_block : ℕ → Run Block
  load_block slot s = cached_or_fetch slot (s.cache slot) s

  -- `bs58::decode(i).into(&mut output)?` on each address.
  abbrev pub decode_all : List (Option Pubkey) → Option (List Pubkey)
  decode_all [] = some []
  decode_all (none ∷ keys) = none
  decode_all (some key ∷ keys) = elim (decode_all keys) [ none ↦ none | some ks ↦ some (key ∷ ks) ]

  abbrev pub loaded_keys : TransactionStatusMeta → Option (List Pubkey)
  loaded_keys meta = elim meta.loaded_addresses [ none ↦ some [] | some keys ↦ decode_all keys ]

  abbrev pub account_keys : TransactionStatusMeta → DecodedTransaction → Option (List Pubkey)
  account_keys meta tx =
      if tx.has_address_table_lookups
      then elim (loaded_keys meta) [ none ↦ none | some ks ↦ some (tx.static_account_keys ++ ks) ]
      else some tx.static_account_keys

  -- `!account_keys.iter().all(|pk| *pk != tb && *pk != bubblegum)`
  abbrev pub concerns : Pubkey → List Pubkey → Bool
  concerns tree = any (λ k. k == tree || k == node.bubblegum)

  abbrev pub serialize_and_send : ℕ → EncodedTransaction → Run (Unit {0})
  serialize_and_send slot tx s =
      if node.serializes tx
      then (if node.sends tx
          then (ok tt, record s { sent = s.sent ++ (slot, tx) ∷ [] })
          else (err messenger_error, s))
      else (err serialization_error, s)

  abbrev pub send_if_concerned :
      Pubkey → ℕ → EncodedTransaction → Option (List Pubkey) → Run (Unit {0})
  send_if_concerned tree slot tx none = fail deserialization_error
  send_if_concerned tree slot tx (some keys) =
      if concerns tree keys then serialize_and_send slot tx else done tt

  -- The body of the loop over a block's transactions.
  abbrev pub send_transaction :
      Pubkey
      → ℕ
      → EncodedTransaction
      → Option TransactionStatusMeta
      → Option DecodedTransaction
      → Run (Unit {0})
  send_transaction tree slot tx (some meta) (some decoded) =
      if meta.has_err then done tt else send_if_concerned tree slot tx (account_keys meta decoded)
  send_transaction tree slot tx _ _ = done tt

  unfoldable pub send_transactions : Pubkey → ℕ → Block → Run (Unit {0})
  send_transactions tree slot [] = done tt
  send_transactions tree slot (tx ∷ txs) = do
    send_transaction tree slot tx tx.meta tx.decoded
    send_transactions tree slot txs

  unfoldable pub plug_slots : Pubkey → List ℕ → Run (Unit {0})
  plug_slots tree [] = done tt
  plug_slots tree (slot ∷ slots) = do
    block ← load_block slot
    send_transactions tree slot block
    plug_slots tree slots

  -- `.filter_map(|x| x.ok()).flatten()`
  unfoldable pub listed_slots : List (ℕ × ℕ) → List ℕ
  listed_slots [] = []
  listed_slots ((a, b) ∷ ranges) = elim (node.get_blocks a b) [
    | none ↦ listed_slots ranges
    | some slots ↦ slots ++ listed_slots ranges
  ]

  unfoldable pub plug_gap : GapInfo → Pubkey → Run (Unit {0})
  plug_gap gap tree = plug_slots tree (listed_slots (requested_ranges gap))

  unfoldable pub plug_gaps : List GapInfo → Pubkey → Run (Unit {0})
  plug_gaps [] tree = done tt
  plug_gaps (gap ∷ gaps) tree = do plug_gap gap tree; plug_gaps gaps tree
