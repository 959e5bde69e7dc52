-- ===== src/Database/Laws.antt =====
-- Upserts of one row in either order, for rows of any type.
use das.Prelude.{ℤ, ◌≡◌, ◌≢◌, Bool, true, ◌&&◌, Option, none, some, arith}
use das.Database.Upsert.{upsert, ge_or_null}

module _ {R : Type 0} (f g : R → R) (d : R) where
  -- Statements that write different columns: neither changes the other's WHERE, except on rows that
  -- the other would not update.
  pub upsert_apart :
      (p q : R → Bool)
      → ((r : R) → f (g r) ≡ g (f r))
      → ((r : R) → q r ≡ true → p (g r) ≡ p r)
      → ((r : R) → p r ≡ true → q (f r) ≡ q r)
      → p (g d) ≡ true
      → q (f d) ≡ true
      → (r : Option R)
      → upsert (f d) f p (upsert (g d) g q r) ≡ upsert (g d) g q (upsert (f d) f p r)
  upsert_apart p q fg pg qf pd qd none = ground (arith, fg d)
  upsert_apart p q fg pg qf pd qd (some r) = ground (arith, fg r, pg r, qf r)

  -- Statements that write the same columns, each with its version: the later one wins.
  pub upsert_versions :
      (open? : R → Bool) (version : R → Option ℤ) (s u : ℤ)
      → s ≢ u
      → ((r : R) → f (g r) ≡ f r)
      → ((r : R) → g (f r) ≡ g r)
      → ((r : R) → version (f r) ≡ some s)
      → ((r : R) → version (g r) ≡ some u)
      → ((r : R) → open? (f r) ≡ open? r)
      → ((r : R) → open? (g r) ≡ open? r)
      → open? d ≡ true
      → (r : Option R)
      → upsert
          (f d)
          f
          (λ x. open? x && ge_or_null s (version x))
          (upsert (g d) g (λ x. open? x && ge_or_null u (version x)) r)
        ≡ upsert
            (g d)
            g
            (λ x. open? x && ge_or_null u (version x))
            (upsert (f d) f (λ x. open? x && ge_or_null s (version x)) r)
  upsert_versions open? version s u h fg gf vf vg of og od none =
      ground (arith, fg d, gf d, vf d, vg d, of d, og d)
  upsert_versions open? version s u h fg gf vf vg of og od (some r) =
      ground (arith, fg r, gf r, vf r, vg r, of r, og r)

  -- A statement that is sent twice.
  pub upsert_twice :
      (p : R → Bool)
      → ((r : R) → f (f r) ≡ f r)
      → (r : Option R) → upsert (f d) f p (upsert (f d) f p r) ≡ upsert (f d) f p r
  upsert_twice p ff none = ground (arith, ff d)
  upsert_twice p ff (some r) = ground (arith, ff r)
