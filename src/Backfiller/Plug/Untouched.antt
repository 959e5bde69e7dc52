-- ===== src/Backfiller/Plug/Untouched.antt =====
-- plug_gap ends, and does not touch `backfill_items`.
use das.Prelude.{
  ℕ, ◌≡◌, refl, ◌∙◌, Bool, true, false, Option, none, some, List, [], ◌∷◌, if◌then◌else◌, arith,
}
use das.Database.{Pubkey}
use das.Backfiller.Gaps.{GapInfo}
use das.Backfiller.Node.{
  EncodedTransaction, Block, Insert, stored, refused, failed, TransactionStatusMeta,
  DecodedTransaction, Node, IngesterError, Result, ok, err, running, Backfiller, Run, done, fail,
  bind_result, ◌>>=◌,
}
use das.Backfiller.Plug.{
  insert_block, fetch_block, cached_or_fetch, load_block, send_if_concerned, send_transaction,
  send_transactions, plug_slots, plug_gap, plug_gaps,
}

-- The step has not used up its fuel.
abbrev pub ended : {A : Type 0} → Result A → Bool
ended (ok a) = true
ended (err e) = true
ended running = false

-- A step that ends, and leaves the table alone.
pub record Keeps {A : Type 0} (m : Run A) : Type 0 where
  pub same : (s : Backfiller) → (m s).1.table ≡ s.table
  pub ends : (s : Backfiller) → ended (m s).0 ≡ true

pub done-Keeps : {A : Type 0} (a : A) → Keeps (done a)
unfolding done
done-Keeps a = record { same = λ s. refl; ends = λ s. refl }

pub fail-Keeps : {A : Type 0} (e : IngesterError) → Keeps (fail {A = A} e)
unfolding fail
fail-Keeps e = record { same = λ s. refl; ends = λ s. refl }

bind_result-table :
    {A B : Type 0} (f : A → Run B) (r : Result A × Backfiller)
    → ((a : A) → Keeps (f a))
    → (bind_result f r).1.table ≡ r.1.table
bind_result-table f (ok a, s) h = (h a).same s
bind_result-table f (err e, s) h = refl
bind_result-table f (running, s) h = refl

bind_result-ended :
    {A B : Type 0} (f : A → Run B) (r : Result A × Backfiller)
    → ended r.0 ≡ true
    → ((a : A) → Keeps (f a))
    → ended (bind_result f r).0 ≡ true
bind_result-ended f (ok a, s) e h = (h a).ends s
bind_result-ended f (err x, s) e h = refl
bind_result-ended f (running, s) e h = cc

bind-Keeps :
    {A B : Type 0} {m : Run A} {f : A → Run B} → Keeps m → ((a : A) → Keeps (f a)) → Keeps (m >>= f)
unfolding ◌>>=◌
bind-Keeps {m} {f} h k = record {
  same = λ s. bind_result-table f (m s) k ∙ h.same s;
  ends = λ s. bind_result-ended f (m s) (h.ends s) k;
}

if-Keeps : {A : Type 0} {m k : Run A} (b : Bool) → Keeps m → Keeps k → Keeps (if b then m else k)
if-Keeps true h h' = h
if-Keeps false h h' = h'

module _ (node : Node) where
  insert_block-Keeps :
      (slot : ℕ) (block : Block) (i : Insert) → Keeps (insert_block node slot block i)
  unfolding fail done
  insert_block-Keeps slot block stored = record {
    same = λ s. ground arith;
    ends = λ s. ground arith;
  }
  insert_block-Keeps slot block refused = record { same = λ s. refl; ends = λ s. refl }
  insert_block-Keeps slot block failed = record { same = λ s. refl; ends = λ s. refl }

  load_block-Keeps : (slot : ℕ) → Keeps (load_block node slot)
  unfolding load_block
  load_block-Keeps slot = record {
    same = λ s. (cached slot (s.cache slot)).same s;
    ends = λ s. (cached slot (s.cache slot)).ends s;
  }
    where
      fetched : (slot : ℕ) (b : Option Block) → Keeps (fetch_block node slot b)
      fetched slot none = fail-Keeps _
      fetched slot (some block) = insert_block-Keeps slot block _

      cached : (slot : ℕ) (b : Option Block) → Keeps (cached_or_fetch node slot b)
      cached slot none = fetched slot _
      cached slot (some block) = done-Keeps block

  send_if_concerned-Keeps :
      (tree : Pubkey) (slot : ℕ) (tx : EncodedTransaction) (keys : Option (List Pubkey))
      → Keeps (send_if_concerned node tree slot tx keys)
  unfolding done
  send_if_concerned-Keeps tree slot tx none = fail-Keeps _
  send_if_concerned-Keeps tree slot tx (some keys) = record {
    same = λ s. ground arith;
    ends = λ s. ground arith;
  }

  send_transaction-Keeps :
      (tree : Pubkey) (slot : ℕ) (tx : EncodedTransaction) (meta : Option TransactionStatusMeta)
      (decoded : Option DecodedTransaction)
      → Keeps (send_transaction node tree slot tx meta decoded)
  send_transaction-Keeps tree slot tx none decoded = done-Keeps tt
  send_transaction-Keeps tree slot tx (some meta) none = done-Keeps tt
  send_transaction-Keeps tree slot tx (some meta) (some decoded) =
      if-Keeps meta.has_err (done-Keeps tt) (send_if_concerned-Keeps tree slot tx _)

  send_transactions-Keeps :
      (tree : Pubkey) (slot : ℕ) (block : Block) → Keeps (send_transactions node tree slot block)
  unfolding send_transactions
  send_transactions-Keeps tree slot [] = done-Keeps tt
  send_transactions-Keeps tree slot (tx ∷ txs) =
      bind-Keeps (send_transaction-Keeps tree slot tx tx.meta tx.decoded)
        (λ _. send_transactions-Keeps tree slot txs)

  plug_slots-Keeps : (tree : Pubkey) (slots : List ℕ) → Keeps (plug_slots node tree slots)
  unfolding plug_slots
  plug_slots-Keeps tree [] = done-Keeps tt
  plug_slots-Keeps tree (slot ∷ slots) = bind-Keeps (load_block-Keeps slot) λ block.
      bind-Keeps (send_transactions-Keeps tree slot block) (λ _. plug_slots-Keeps tree slots)

  pub plug_gaps-Keeps : (gaps : List GapInfo) (tree : Pubkey) → Keeps (plug_gaps node gaps tree)
  unfolding plug_gaps plug_gap
  plug_gaps-Keeps [] tree = done-Keeps tt
  plug_gaps-Keeps (gap ∷ gaps) tree =
      bind-Keeps (plug_slots-Keeps tree _) (λ _. plug_gaps-Keeps gaps tree)
