-- ===== src/Database/Quiet.antt =====
-- Actions that succeed on a database which answers every request, and leave such a database.
use das.Prelude.{◌≡◌, refl, sym, ◌∙◌, ap, Option, some}
use das.Database.Effect.{
  Database, Action, ok, quiet, ◌>>=◌, pure, or_raise, ProgramTransformerError, bind-run,
}

-- The database after an action, if no request fails.
abbrev pub after : {A : Type 0} → Action A → Database → Database
after m d = (m (quiet d)).1.db

pub record Succeeds {A : Type 0} (m : Action A) (a : A) : Type 0 where
  pub run : (d : Database) → m (quiet d) ≡ (ok a, quiet (m (quiet d)).1.db)

pub pure-Succeeds : {A : Type 0} (a : A) → Succeeds (pure a) a
unfolding pure
pure-Succeeds a = record { run = λ d. refl }

pub bind-Succeeds :
    {A B : Type 0} {m : Action A} (k : A → Action B) {a : A} {b : B}
    → Succeeds m a
    → Succeeds (k a) b
    → Succeeds (m >>= k) b
bind-Succeeds {m} k {a} {b} h g = record {
  run = λ d.
      let d' = (m (quiet d)).1.db in
      let first = bind-run m k (quiet d) a (quiet d') (h.run d) in
      first ∙ g.run d' ∙ ap (λ r. (ok b, quiet r.1.db)) (sym first);
}

pub or_raise-Succeeds :
    {A : Type 0} {o : Option A} {a : A} (e : ProgramTransformerError)
    → o ≡ some a
    → Succeeds (or_raise o e) a
unfolding pure
or_raise-Succeeds {a} e h = record { run = λ d. rw (h) refl }
