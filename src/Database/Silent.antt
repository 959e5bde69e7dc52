-- ===== src/Database/Silent.antt =====
-- Actions that do not fail with the error of the download's notifier.
use das.Prelude.{◌≡◌, refl, sym, ap, ◌∙◌, false, List, [], ◌∷◌, Option, none, some, String}
use das.Database.Effect.{
  Database, World, ProgramTransformerError, Result, ok, err, Action, pure, raise, bind_result,
  ◌>>=◌, request_with, request, finish, exchange, transaction, storage_write_error,
}
use das.Database.Rollback.{from_notifier}

pub record Silent {A : Type 0} (m : Action A) : Type 0 where
  pub spoken : (w : World) (e : ProgramTransformerError) → (m w).0 ≡ err e → from_notifier e ≡ false

err-injective :
    {A : Type 0} (e f : ProgramTransformerError) → ◌≡◌ {A = Result A} (err e) (err f) → e ≡ f
err-injective e f q = cc

pub pure-Silent : {A : Type 0} (a : A) → Silent (pure a)
unfolding pure
pure-Silent a = record { spoken = λ w e h. absurd (cc) }

pub raise-Silent :
    {A : Type 0} (f : ProgramTransformerError) → from_notifier f ≡ false → Silent (raise {A = A} f)
unfolding raise
raise-Silent {A} f n = record {
  spoken = λ w e h. ap from_notifier (sym (err-injective {A = A} f e h)) ∙ n;
}

request_with_silent :
    {A : Type 0} (wrap : String → ProgramTransformerError) (f : Database → A × Database)
    (os : List (Option String)) (w : World) (e : ProgramTransformerError)
    → ((s : String) → from_notifier (wrap s) ≡ false)
    → (request_with wrap f os w).0 ≡ err e
    → from_notifier e ≡ false
request_with_silent wrap f [] w e n h = absurd (cc)
request_with_silent wrap f (none ∷ os) w e n h = absurd (cc)
request_with_silent {A} wrap f (some s ∷ os) w e n h =
    ap from_notifier (sym (err-injective {A = A} (wrap s) e h)) ∙ n s

pub request-Silent :
    {A : Type 0} (wrap : String → ProgramTransformerError) (f : Database → A × Database)
    → ((s : String) → from_notifier (wrap s) ≡ false)
    → Silent (request wrap f)
unfolding request
request-Silent wrap f n = record { spoken = λ w e h. request_with_silent wrap f w.outcomes w e n h }

bind_result-Silent :
    {A B : Type 0} (k : A → Action B) (r : Result A × World) (e : ProgramTransformerError)
    → ((f : ProgramTransformerError) → r.0 ≡ err f → from_notifier f ≡ false)
    → ((a : A) → Silent (k a))
    → (bind_result k r).0 ≡ err e
    → from_notifier e ≡ false
bind_result-Silent k (ok a, w) e m n h = (n a).spoken w e h
bind_result-Silent {A} {B} k (err f, w) e m n h =
    ap from_notifier (sym (err-injective {A = B} f e h)) ∙ m f refl

pub bind-Silent :
    {A B : Type 0} {m : Action A} {k : A → Action B}
    → Silent m
    → ((a : A) → Silent (k a))
    → Silent (m >>= k)
unfolding ◌>>=◌
bind-Silent {m} {k} h n = record { spoken = λ w e q. bind_result-Silent k (m w) e (h.spoken w) n q }

finish_result : {A : Type 0} (d : Database) (r : Result A × World) → (finish d r).0 ≡ r.0
finish_result d (ok a, w) = refl
finish_result d (err e, w) = refl

exchange-Silent : Silent exchange
exchange-Silent = request-Silent storage_write_error _ λ s. refl

pub transaction-Silent : {A : Type 0} {body : Action A} → Silent body → Silent (transaction body)
unfolding transaction
transaction-Silent {A} {body} h = record {
  spoken = λ w e q.
      let run =
        bind-Silent exchange-Silent
          λ _. bind-Silent h λ a. bind-Silent exchange-Silent λ _. pure-Silent a in
      run.spoken w e (sym (finish_result w.db _) ∙ q);
}
