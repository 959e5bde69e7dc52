-- ===== src/Accounts/Agents/Order.antt =====
-- The UPDATE of agent_registry.rs in either order.
use das.Prelude.{ℤ, ◌≡◌, ◌≢◌, refl, ap, Bool, true, Option, none, some, ◌&&◌, not, arith}
use das.Database.{Pubkey, Asset, at_least, greatest}
use das.Database.Registers.{at_least_total, at_least_antisym, at_least_trans}
use das.Accounts.Agents.{agent_row, set_agent_token, is_core_asset, update_where}

-- Two updates of rows of any type, each with its version, where the later one wins.
update_versions :
    {R : Type 0} (f g : R → R) (open? : R → Bool) (version : R → Option ℤ) (s u : ℤ) (r : R)
    → s ≢ u
    → (at_least (some s) (some u) ≡ true → f (g r) ≡ f r)
    → (at_least (some u) (some s) ≡ true → g (f r) ≡ g r)
    → version (f r) ≡ some s
    → version (g r) ≡ some u
    → open? (f r) ≡ open? r
    → open? (g r) ≡ open? r
    → let p = λ (v : ℤ) (x : R). open? x && at_least (some v) (version x) in
      update_where f (p s) (update_where g (p u) (some r))
      ≡ update_where g (p u) (update_where f (p s) (some r))
update_versions f g open? version s u r n fg gf vf vg of og = ground (
  arith,
  fg,
  gf,
  vf,
  vg,
  of,
  og,
  n,
  at_least_total (some s) (some u),
  at_least_antisym (some s) (some u),
  at_least_trans (some s) (some u) (version r),
  at_least_trans (some u) (some s) (version r),
  at_least_trans (some s) (version r) (some u),
  at_least_trans (some u) (version r) (some s),
  at_least_total (some s) (version r),
  at_least_total (some u) (version r),
)

greatest-greatest :
    (o : Option ℤ) (s u : ℤ)
    → at_least (some s) (some u) ≡ true
    → greatest (greatest o u) s ≡ greatest o s
greatest-greatest none s u h = ap some (ground arith)
greatest-greatest (some o) s u h = ap some (ground arith)

-- Two updates of an asset's agent in different slots leave the same row, whichever comes first.
agent_row_comm :
    (token token' : Option Pubkey) (s u : ℤ) (row : Option Asset)
    → s ≢ u
    → agent_row token s (agent_row token' u row) ≡ agent_row token' u (agent_row token s row)
unfolding agent_row
agent_row_comm token token' s u none n = refl
agent_row_comm token token' s u (some r) n =
    update_versions (set_agent_token token s) (set_agent_token token' u)
      (λ x. not x.burnt && is_core_asset x.specification_asset_class)
      (λ x. x.slot_updated_agent_registry) s u r n
      (λ h.
        ap (λ v. record (set_agent_token token s r) { slot_updated = v })
          (greatest-greatest r.slot_updated s u h))
      (λ h.
        ap (λ v. record (set_agent_token token' u r) { slot_updated = v })
          (greatest-greatest r.slot_updated u s h))
      refl refl refl refl
