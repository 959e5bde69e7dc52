-- ===== src/Backfiller/Node.antt =====
-- nft_ingester/src/backfiller.rs: the state of a Backfiller, its errors, and what it uses of other
-- crates: the RPC node, the block cache (stretto), the serialization and the messenger.
use das.Prelude.{ℕ, Bool, Option, none, some, List}
use das.Database.{Pubkey}
use das.Backfiller.Rows.{Table}

-- The parts of a block's transaction that are read. An address of a lookup table is decoded from
-- base 58 (`none` if it cannot be).
pub record TransactionStatusMeta : Type 0 where
  pub has_err : Bool
  pub loaded_addresses : Option (List (Option Pubkey))

pub record DecodedTransaction : Type 0 where
  pub static_account_keys : List Pubkey
  pub has_address_table_lookups : Bool

pub record EncodedTransaction : Type 0 where
  pub id : ℕ
  pub meta : Option TransactionStatusMeta
  pub decoded : Option DecodedTransaction

abbrev pub Block : Type 0
Block = List EncodedTransaction

-- A signature is `none` if it cannot be parsed.
pub record SignatureInfo : Type 0 where
  pub signature : Option ℕ
  pub slot : ℕ

pub data Insert : Type 0 where
  stored refused failed : Insert

pub record Node : Type 0 where
  -- get_blocks_with_commitment; `none` is an error.
  pub get_blocks : ℕ → ℕ → Option (List ℕ)
  pub get_block : ℕ → Option Block
  -- The cache's answer to `try_insert_with_ttl`, and whether it then holds the block.
  pub try_insert : ℕ → Insert
  pub keeps : ℕ → Bool
  pub serializes : EncodedTransaction → Bool
  pub sends : EncodedTransaction → Bool
  -- The page of an address's signatures before one; `none` is an error.
  pub signatures : Pubkey → Option ℕ → Option (List SignatureInfo)
  pub bubblegum : Pubkey

pub data IngesterError : Type 0 where
  rpc_get_data_error cache_storage_write_error deserialization_error : IngesterError
  serialization_error messenger_error database_error rpc_data_unsupported_format : IngesterError

-- `running`: the fuel of the loop over the pages of signatures is used up.
pub data Result (A : Type 0) : Type 0 where
  ok : A → Result A
  err : IngesterError → Result A
  running : Result A

-- The table, the cached blocks, what was sent, and the delay after a failure.
pub record Backfiller : Type 0 where
  pub table : Table
  pub cache : ℕ → Option Block
  pub sent : List (ℕ × EncodedTransaction)
  pub failure_delay : ℕ

abbrev pub Run : Type 0 → Type 0
Run A = Backfiller → Result A × Backfiller

unfoldable pub done : {A : Type 0} → A → Run A
done a s = (ok a, s)

unfoldable pub fail : {A : Type 0} → IngesterError → Run A
fail e s = (err e, s)

abbrev pub bind_result :
    {A B : Type 0} → (A → Run B) → Result A × Backfiller → Result B × Backfiller
bind_result f (ok a, s) = f a s
bind_result f (err e, s) = (err e, s)
bind_result f (running, s) = (running, s)

infixl 5 ◌>>=◌ ◌>>◌
unfoldable pub ◌>>=◌ : {A B : Type 0} → Run A → (A → Run B) → Run B
◌>>=◌ m f s = bind_result f (m s)

abbrev pub ◌>>◌ : {A B : Type 0} → Run A → Run B → Run B
m >> k = m >>= λ _. k

abbrev pub put_table : {A : Type 0} → Backfiller → Option A × Table → Result A × Backfiller
put_table s (some a, t) = (ok a, record s { table = t })
put_table s (none, t) = (err database_error, record s { table = t })
