-- ===== src/Database/Decompressed.antt =====
-- Rows of `asset` whose `seq` is 0, which says that the asset is decompressed. An action spares them
-- if it changes at most their `burnt` column.
use das.Prelude.{
  ℕ, ℤ, ◌≡◌, refl, ◌∙◌, sym, ap, Bool, true, false, not, ◌&&◌, Option, none, some, List, [], ◌∷◌,
  String, arith,
}
use das.Database.Schema.{Asset}
use das.Database.Upsert.{upsert, alter, nonzero_or_null}
use das.Database.Effect.{
  AssetTables, Database, World, ProgramTransformerError, Result, ok, err, Action, pure, bind_result,
  ◌>>=◌, ◌>>◌, request_with, request, execute_assets, finish, transaction, exchange,
  storage_write_error,
}
use das.Database.Rollback.{KeepsAssets, request-Keeps, pure-Keeps}

-- A row with `burnt` set, whatever it was.
abbrev pub but_burnt : Option Asset → Option Asset
but_burnt none = none
but_burnt (some r) = some (record r { burnt = true })

abbrev pub is_decompressed : Option Asset → Bool
is_decompressed none = false
is_decompressed (some r) = not (nonzero_or_null r.seq)

but_burnt_decompressed : (r : Option Asset) → is_decompressed (but_burnt r) ≡ is_decompressed r
but_burnt_decompressed none = refl
but_burnt_decompressed (some r) = refl

-- Statements on one row that spare it.
pub record SparesRow (f : Option Asset → Option Asset) : Type 0 where
  pub row : (r : Option Asset) → is_decompressed r ≡ true → but_burnt (f r) ≡ but_burnt r

refused :
    {R : Type 0} (d : R) (f : R → R) (p : R → Bool) (r : R)
    → p r ≡ false
    → upsert d f p (some r) ≡ some r
refused d f p r h = ground arith

closed-refuses :
    (s : Option ℤ) (b c : Bool)
    → c ≡ (nonzero_or_null s && b)
    → not (nonzero_or_null s) ≡ true
    → c ≡ false
closed-refuses none b c h n = absurd (cc)
closed-refuses (some s) b c h n = ground arith

guarded-row :
    (d : Asset) (f : Asset → Asset) (p q : Asset → Bool) (r : Option Asset)
    → ((x : Asset) → p x ≡ (nonzero_or_null x.seq && q x))
    → is_decompressed r ≡ true
    → but_burnt (upsert d f p r) ≡ but_burnt r
guarded-row d f p q none h c = absurd (cc)
guarded-row d f p q (some r) h c =
    ap but_burnt (refused d f p r (closed-refuses r.seq (q r) (p r) (h r) c))

-- An upsert whose WHERE asks for `seq != 0 OR seq IS NULL`, and whatever else.
pub guarded-SparesRow :
    (d : Asset) (f : Asset → Asset) (p q : Asset → Bool)
    → ((r : Asset) → p r ≡ (nonzero_or_null r.seq && q r))
    → SparesRow (upsert d f p)
guarded-SparesRow d f p q h = record { row = λ r c. guarded-row d f p q r h c }

-- Statements on the asset tables that spare such rows.
pub record SparesTables (f : AssetTables → AssetTables) : Type 0 where
  pub table :
      (t : AssetTables) (j : ℕ)
      → is_decompressed (t.asset j) ≡ true
      → but_burnt ((f t).asset j) ≡ but_burnt (t.asset j)

alter-row :
    (k : ℕ) (f : Option Asset → Option Asset) (t : ℕ → Option Asset) (j : ℕ)
    → SparesRow f
    → is_decompressed (t j) ≡ true
    → but_burnt (alter k f t j) ≡ but_burnt (t j)
alter-row k f t j h c = ground (arith, h.row (t j) c)

pub alter-SparesTables :
    (k : ℕ) (f : Option Asset → Option Asset)
    → SparesRow f
    → SparesTables (λ t. record t { asset = alter k f t.asset })
alter-SparesTables k f h = record { table = λ t j. alter-row k f t.asset j h }

-- Whatever requests fail, a decompressed row is as before but for `burnt`.
pub record Spares {A : Type 0} (m : Action A) : Type 0 where
  pub spare :
      (w : World) (j : ℕ)
      → is_decompressed (w.db.assets.asset j) ≡ true
      → but_burnt ((m w).1.db.assets.asset j) ≡ but_burnt (w.db.assets.asset j)

pub KeepsAssets-Spares : {A : Type 0} {m : Action A} → KeepsAssets m → Spares m
KeepsAssets-Spares h = record { spare = λ w j c. ap (λ t. but_burnt (t.asset j)) (h.same w) }

request_with-spare :
    (wrap : String → ProgramTransformerError) (f : AssetTables → AssetTables)
    (os : List (Option String)) (w : World) (j : ℕ)
    → SparesTables f
    → is_decompressed (w.db.assets.asset j) ≡ true
    → but_burnt (
        (request_with {A = Unit {0}} wrap
            (λ d. (tt, record d { assets = f d.assets }))
            os
            w).1.db.assets.asset
          j)
      ≡ but_burnt (w.db.assets.asset j)
request_with-spare wrap f [] w j h c = h.table w.db.assets j c
request_with-spare wrap f (none ∷ os) w j h c = h.table w.db.assets j c
request_with-spare wrap f (some e ∷ os) w j h c = refl

pub execute_assets-Spares :
    (wrap : String → ProgramTransformerError) (f : AssetTables → AssetTables)
    → SparesTables f
    → Spares (execute_assets wrap f)
unfolding request
execute_assets-Spares wrap f h = record {
  spare = λ w j. request_with-spare wrap f w.outcomes w j h;
}

bind_result-spare :
    {A B : Type 0} (k : A → Action B) (r : Result A × World) (j : ℕ) (o : Option Asset)
    → ((a : A) → Spares (k a))
    → is_decompressed o ≡ true
    → but_burnt (r.1.db.assets.asset j) ≡ but_burnt o
    → but_burnt ((bind_result k r).1.db.assets.asset j) ≡ but_burnt o
bind_result-spare k (ok a, w) j o next c h =
    (next a).spare w j (
      sym (but_burnt_decompressed (w.db.assets.asset j))
      ∙ ap is_decompressed h
      ∙ but_burnt_decompressed o
      ∙ c)
    ∙ h
bind_result-spare k (err e, w) j o next c h = h

pub bind-Spares :
    {A B : Type 0} {m : Action A} {k : A → Action B}
    → Spares m
    → ((a : A) → Spares (k a))
    → Spares (m >>= k)
unfolding ◌>>=◌
bind-Spares {m} {k} h next = record {
  spare = λ w j c. bind_result-spare k (m w) j (w.db.assets.asset j) next c (h.spare w j c);
}

finish-spare :
    {A : Type 0} (d : Database) (r : Result A × World) (j : ℕ)
    → but_burnt (r.1.db.assets.asset j) ≡ but_burnt (d.assets.asset j)
    → but_burnt ((finish d r).1.db.assets.asset j) ≡ but_burnt (d.assets.asset j)
finish-spare d (ok a, w) j h = h
finish-spare d (err e, w) j h = refl

exchange-Spares : Spares exchange
exchange-Spares = KeepsAssets-Spares (request-Keeps storage_write_error _ (λ d. refl))

pub pure-Spares : {A : Type 0} (a : A) → Spares (pure a)
pure-Spares a = KeepsAssets-Spares (pure-Keeps a)

pub transaction-Spares : {A : Type 0} {body : Action A} → Spares body → Spares (transaction body)
unfolding transaction
transaction-Spares {body} h = record {
  spare = λ w j c. finish-spare w.db ((do exchange; a ← body; exchange; pure a) w) j (
      (bind-Spares exchange-Spares
          λ _. bind-Spares h λ a. bind-Spares exchange-Spares λ _. pure-Spares a).spare
        w j c);
}
