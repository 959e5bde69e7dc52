-- ===== src/Database/Effect.antt =====
-- The database as the handlers see it, and their effects. `outcomes` says of each request
-- to the database in turn whether it succeeds (`none`) or fails with an error; after the last one
-- every request succeeds. `notified` holds the downloads that the handlers asked for.
use das.Prelude.{◌≡◌, ap, ℕ, ℤ, Bool, Option, none, some, List, [], ◌∷◌, String, Text}
use das.Database.Schema.{
  Pubkey, Asset, AssetData, AssetCreator, CollectionGroup, AssetAuthority, ClItem, Token,
  TokenAccount,
}

-- `Instruction` of sea_orm_active_enums.rs.
pub data Instruction : Type 0 where
  burn cancel_redeem compress decompress_v1 delegate : Instruction
  mint_to_collection_v1 mint_v1 redeem set_and_verify_collection transfer unknown : Instruction
  unverify_collection unverify_creator verify_collection verify_creator : Instruction
  update_metadata burn_v2 delegate_v2 delegate_and_freeze_v2 freeze_v2 mint_v2 : Instruction
  set_collection_v2 set_non_transferable_v2 thaw_v2 thaw_and_revoke_v2 : Instruction
  transfer_v2 unverify_creator_v2 verify_creator_v2 update_metadata_v2 : Instruction
  update_asset_data_v2 : Instruction

-- `tx` is the signature's bytes.
pub record ClAudit : Type 0 where
  pub tree : Pubkey
  pub leaf_idx : ℤ
  pub seq : ℤ
  pub tx : List ℕ
  pub instruction : Instruction

pub record BackfillItem : Type 0 where
  pub tree : Pubkey
  pub seq : ℤ
  pub slot : ℤ
  pub force_chk : Bool
  pub backfilled : Bool
  pub failed : Bool

-- The tables about assets, each by its unique key. The creators' key has a position too.
pub record AssetTables : Type 0 where
  pub asset : ℕ → Option Asset
  pub asset_data : ℕ → Option AssetData
  pub asset_creators : ℕ → ℕ → Option AssetCreator
  pub asset_grouping : ℕ → Option CollectionGroup
  pub asset_authority : ℕ → Option AssetAuthority

-- `cl_items` by tree and node index, the two lists in the order of insertion, the tokens by mint and
-- their accounts by pubkey.
pub record Database : Type 0 where
  pub assets : AssetTables
  pub cl_items : ℕ → ℕ → Option ClItem
  pub cl_audits_v2 : List ClAudit
  pub backfill_items : List BackfillItem
  pub tokens : ℕ → Option Token
  pub token_accounts : ℕ → Option TokenAccount

pub record World : Type 0 where
  pub db : Database
  pub outcomes : List (Option String)
  pub notified : List (Pubkey × Text)

pub data ProgramTransformerError : Type 0 where
  change_log_event_malformed not_implemented : ProgramTransformerError
  storage_write_error deserialization_error serializaton_error : String → ProgramTransformerError
  parsing_error database_error asset_index_error : String → ProgramTransformerError
  download_metadata_notify : String → ProgramTransformerError

pub data Result (A : Type 0) : Type 0 where
  ok : A → Result A
  err : ProgramTransformerError → Result A

-- A handler takes the world as it is, and leaves its result and the world after it.
abbrev pub Action : Type 0 → Type 0
Action A = World → Result A × World

unfoldable pub pure : {A : Type 0} → A → Action A
pure a w = (ok a, w)

unfoldable pub raise : {A : Type 0} → ProgramTransformerError → Action A
raise e w = (err e, w)

-- `?` after a call: `bind_result` goes on with a value, and passes an error on.
abbrev pub bind_result : {A B : Type 0} → (A → Action B) → Result A × World → Result B × World
bind_result f (ok a, w) = f a w
bind_result f (err e, w) = (err e, w)

infixl 5 ◌>>=◌ ◌>>◌
unfoldable pub ◌>>=◌ : {A B : Type 0} → Action A → (A → Action B) → Action B
◌>>=◌ m f w = bind_result f (m w)

abbrev pub ◌>>◌ : {A B : Type 0} → Action A → Action B → Action B
m >> k = m >>= λ _. k

-- One request that reads or writes, whose failure becomes the handler's error.
abbrev pub request_with :
    {A : Type 0}
    → (String → ProgramTransformerError)
    → (Database → A × Database)
    → List (Option String)
    → Action A
request_with wrap f [] w = (ok (f w.db).0, record w { db = (f w.db).1 })
request_with wrap f (none ∷ os) w = (ok (f w.db).0, record w { db = (f w.db).1; outcomes = os })
request_with wrap f (some e ∷ os) w = (err (wrap e), record w { outcomes = os })

unfoldable pub request :
    {A : Type 0} → (String → ProgramTransformerError) → (Database → A × Database) → Action A
request wrap f w = request_with wrap f w.outcomes w

-- `txn.execute(query).await.map_err(wrap)?`
abbrev pub execute : (String → ProgramTransformerError) → (Database → Database) → Action (Unit {0})
execute wrap f = request wrap λ d. (tt, f d)

-- A statement on the asset tables.
abbrev pub execute_assets :
    (String → ProgramTransformerError) → (AssetTables → AssetTables) → Action (Unit {0})
execute_assets wrap f = execute wrap λ d. record d { assets = f d.assets }

-- `let multi_txn = txn.begin().await?; …; multi_txn.commit().await?;`: what the body wrote is kept
-- only if the body and the commit succeed.
abbrev pub finish : {A : Type 0} → Database → Result A × World → Result A × World
finish before (ok a, w) = (ok a, w)
finish before (err e, w) = (err e, record w { db = before })

-- `begin` and `commit` are requests, too.
abbrev pub exchange : Action (Unit {0})
exchange = request storage_write_error λ d. (tt, d)

unfoldable pub transaction : {A : Type 0} → Action A → Action A
transaction body w = finish w.db ((do exchange; a ← body; exchange; pure a) w)

-- An optional value, or an error.
abbrev pub or_raise : {A : Type 0} → Option A → ProgramTransformerError → Action A
or_raise none e = raise e
or_raise (some a) e = pure a

-- A database whose requests all succeed.
abbrev pub quiet : Database → World
quiet d = record { db = d; outcomes = []; notified = [] }

-- An action that succeeds, and goes on.
pub bind-run :
    {A B : Type 0} (m : Action A) (k : A → Action B) (w : World) (a : A) (w' : World)
    → m w ≡ (ok a, w')
    → (m >>= k) w ≡ k a w'
unfolding ◌>>=◌
bind-run m k w a w' h = ap (bind_result k) h
