-- ===== src/Database/Rollback.antt =====
-- When an action leaves the asset tables as they were: always, or whenever it fails.
use das.Prelude.{
  Bool, true, false, ◌≡◌, refl, ◌∙◌, subst, List, [], ◌∷◌, Option, none, some, String,
}
use das.Database.Effect.{
  AssetTables, Database, World, ProgramTransformerError, Result, ok, err, Action, pure, raise,
  bind_result, ◌>>=◌, request_with, request, finish, transaction, or_raise,
  download_metadata_notify, change_log_event_malformed,
}

-- The action never changes what `view` shows of the database.
pub record Keeps {A X : Type 0} (view : Database → X) (m : Action A) : Type 0 where
  pub same : (w : World) → view (m w).1.db ≡ view w.db

abbrev pub KeepsAssets : {A : Type 0} → Action A → Type 0
KeepsAssets m = Keeps (λ d. d.assets) m

-- Errors but the one of the download's notifier, which runs after the commit.
abbrev pub from_notifier : ProgramTransformerError → Bool
from_notifier (download_metadata_notify e) = true
from_notifier _ = false

abbrev UnlessNotifier : ProgramTransformerError → Type 0 → Type 0
UnlessNotifier (download_metadata_notify e) T = Unit {0}
UnlessNotifier _ T = T

to_unless : (e : ProgramTransformerError) {T : Type 0} → T → UnlessNotifier e T
to_unless (download_metadata_notify e) h = tt
to_unless _ h = h

from_unless :
    (e : ProgramTransformerError) {T : Type 0} → from_notifier e ≡ false → UnlessNotifier e T → T
from_unless (download_metadata_notify e) q h = absurd (cc)
from_unless _ q h = h

abbrev IsUndone : {A : Type 0} → AssetTables → Result A × World → Type 0
IsUndone t (ok a, w) = Unit {0}
IsUndone t (err e, w) = UnlessNotifier e (w.db.assets ≡ t)

-- If it ends in such an error, it has not changed them.
pub record RollsBack {A : Type 0} (m : Action A) : Type 0 where
  undone : (w : World) → IsUndone w.db.assets (m w)

err-injective :
    {A : Type 0} (e f : ProgramTransformerError) → ◌≡◌ {A = Result A} (err e) (err f) → e ≡ f
err-injective e f q = cc

apply_IsUndone :
    {A : Type 0} (t : AssetTables) (r : Result A × World) (e : ProgramTransformerError)
    → IsUndone t r
    → r.0 ≡ err e
    → from_notifier e ≡ false
    → r.1.db.assets ≡ t
apply_IsUndone t (ok a, w) e h q n = absurd (cc)
apply_IsUndone t (err f, w) e h q n = from_unless f (rw (err-injective f e q) n) h

-- What the record says of a run.
pub RollsBack-run :
    {A : Type 0} (m : Action A) (w : World) (e : ProgramTransformerError)
    → RollsBack m
    → (m w).0 ≡ err e
    → from_notifier e ≡ false
    → (m w).1.db.assets ≡ w.db.assets
RollsBack-run m w e h q n = apply_IsUndone w.db.assets (m w) e (h.undone w) q n

module _ {X : Type 0} {view : Database → X} where
  pub pure-Keeps : {A : Type 0} (a : A) → Keeps view (pure a)
  unfolding pure
  pure-Keeps a = record { same = λ w. refl }

  pub raise-Keeps : {A : Type 0} (e : ProgramTransformerError) → Keeps view (raise {A = A} e)
  unfolding raise
  raise-Keeps e = record { same = λ w. refl }

  bind_result-Keeps :
      {A B : Type 0} (x : X) (k : A → Action B) (r : Result A × World)
      → view r.1.db ≡ x
      → ((a : A) → Keeps view (k a))
      → view (bind_result k r).1.db ≡ x
  bind_result-Keeps x k (ok a, w) h next = (next a).same w ∙ h
  bind_result-Keeps x k (err e, w) h next = h

  pub bind-Keeps :
      {A B : Type 0} {m : Action A} {k : A → Action B}
      → Keeps view m
      → ((a : A) → Keeps view (k a))
      → Keeps view (m >>= k)
  unfolding ◌>>=◌
  bind-Keeps {m} {k} h next = record {
    same = λ w. bind_result-Keeps (view w.db) k (m w) (h.same w) next;
  }

  request_with-same :
      {A : Type 0} (wrap : String → ProgramTransformerError) (f : Database → A × Database)
      (os : List (Option String)) (w : World)
      → ((d : Database) → view (f d).1 ≡ view d)
      → view (request_with wrap f os w).1.db ≡ view w.db
  request_with-same wrap f [] w h = h w.db
  request_with-same wrap f (none ∷ os) w h = h w.db
  request_with-same wrap f (some e ∷ os) w h = refl

  -- A request that changes other parts keeps this one.
  pub request-Keeps :
      {A : Type 0} (wrap : String → ProgramTransformerError) (f : Database → A × Database)
      → ((d : Database) → view (f d).1 ≡ view d)
      → Keeps view (request wrap f)
  unfolding request
  request-Keeps wrap f h = record { same = λ w. request_with-same wrap f w.outcomes w h }

  pub or_raise-Keeps :
      {A : Type 0} (o : Option A) (e : ProgramTransformerError) → Keeps view (or_raise o e)
  or_raise-Keeps none e = raise-Keeps e
  or_raise-Keeps (some a) e = pure-Keeps a

KeepsAssets-IsUndone :
    {A : Type 0} (t : AssetTables) (r : Result A × World) → r.1.db.assets ≡ t → IsUndone t r
KeepsAssets-IsUndone t (ok a, w) h = tt
KeepsAssets-IsUndone t (err e, w) h = to_unless e h

pub KeepsAssets-RollsBack : {A : Type 0} {m : Action A} → KeepsAssets m → RollsBack m
KeepsAssets-RollsBack {m} h = record {
  undone = λ w. KeepsAssets-IsUndone w.db.assets (m w) (h.same w);
}

bind_result-IsUndone :
    {A B : Type 0} (t : AssetTables) (k : A → Action B) (r : Result A × World)
    → r.1.db.assets ≡ t
    → ((a : A) → RollsBack (k a))
    → IsUndone t (bind_result k r)
bind_result-IsUndone t k (ok a, w) h next = subst (λ u. IsUndone u (k a w)) h ((next a).undone w)
bind_result-IsUndone t k (err e, w) h next = to_unless e h

pub bind-RollsBack :
    {A B : Type 0} {m : Action A} {k : A → Action B}
    → KeepsAssets m
    → ((a : A) → RollsBack (k a))
    → RollsBack (m >>= k)
unfolding ◌>>=◌
bind-RollsBack {m} {k} h next = record {
  undone = λ w. bind_result-IsUndone w.db.assets k (m w) (h.same w) next;
}

bind_result-pure-IsUndone :
    {A B : Type 0} (t : AssetTables) (b : B) (r : Result A × World)
    → IsUndone t r
    → IsUndone t (bind_result (λ _. pure b) r)
unfolding pure
bind_result-pure-IsUndone t b (ok a, w) h = tt
bind_result-pure-IsUndone t b (err e, w) h = h

-- What cannot fail may follow.
pub bind_pure-RollsBack :
    {A B : Type 0} {m : Action A} (b : B) → RollsBack m → RollsBack (m >>= λ _. pure b)
unfolding ◌>>=◌
bind_pure-RollsBack {m} b h = record {
  undone = λ w. bind_result-pure-IsUndone w.db.assets b (m w) (h.undone w);
}

finish-IsUndone :
    {A : Type 0} (d : Database) (r : Result A × World) → IsUndone d.assets (finish d r)
finish-IsUndone d (ok a, w) = tt
finish-IsUndone d (err e, w) = to_unless e refl

-- A transaction that fails at any statement, or at its commit, changes nothing.
pub transaction-RollsBack : {A : Type 0} (body : Action A) → RollsBack (transaction body)
unfolding transaction
transaction-RollsBack body = record { undone = λ w. finish-IsUndone w.db _ }

-- An action that fails in no other way than by the notifier's error.
pub record FailsByNotifier {A : Type 0} (m : Action A) : Type 0 where
  pub only : (w : World) (e : ProgramTransformerError) → (m w).0 ≡ err e → from_notifier e ≡ true

true-unless :
    (e : ProgramTransformerError) (T : Type 0) → from_notifier e ≡ true → UnlessNotifier e T
true-unless (download_metadata_notify e) T h = tt
true-unless change_log_event_malformed T h = absurd (cc)
true-unless _ T h = absurd (cc)

only-IsUndone :
    {A : Type 0} (t : AssetTables) (r : Result A × World)
    → ((e : ProgramTransformerError) → r.0 ≡ err e → from_notifier e ≡ true)
    → IsUndone t r
only-IsUndone t (ok a, w) h = tt
only-IsUndone t (err e, w) h = true-unless e _ (h e refl)

bind_notifier-IsUndone :
    {A B : Type 0} (t : AssetTables) (k : A → Action B) (r : Result A × World)
    → IsUndone t r
    → ((a : A) → FailsByNotifier (k a))
    → IsUndone t (bind_result k r)
bind_notifier-IsUndone t k (ok a, w) h next = only-IsUndone t (k a w) ((next a).only w)
bind_notifier-IsUndone t k (err e, w) h next = h

pub bind_notifier-RollsBack :
    {A B : Type 0} {m : Action A} {k : A → Action B}
    → RollsBack m
    → ((a : A) → FailsByNotifier (k a))
    → RollsBack (m >>= k)
unfolding ◌>>=◌
bind_notifier-RollsBack {m} {k} h next = record {
  undone = λ w. bind_notifier-IsUndone w.db.assets k (m w) (h.undone w) next;
}
