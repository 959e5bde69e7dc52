-- ===== src/Accounts/Agents.antt =====
-- program_transformers/src/agent_registry.rs, and `find_model_with_retry` of lib.rs. `sleep` is
-- what happens to the world while the handler sleeps: other tasks may write to it.
pub mod Order
pub mod Decorates
use das.Prelude.{
  ℕ, ℤ, Bool, true, false, not, ◌&&◌, Option, none, some, List, [], ◌∷◌, String, as_i64,
  if◌then◌else◌,
}
use das.Database.{
  Pubkey, SpecificationAssetClass, Asset, Database, World, ProgramTransformerError, Action, ok,
  request, execute_assets, ◌>>=◌, ◌>>◌, pure, alter, at_least, greatest, storage_write_error,
  asset_index_error,
}

-- `UPDATE … SET … WHERE …` on the row at one key.
abbrev pub update_where : {R : Type 0} → (R → R) → (R → Bool) → Option R → Option R
update_where updated passes none = none
update_where updated passes (some r) = some (if passes r then updated r else r)

abbrev pub is_core_asset : Option SpecificationAssetClass → Bool
is_core_asset (some SpecificationAssetClass.mpl_core_asset) = true
is_core_asset _ = false

abbrev pub set_agent_token : Option Pubkey → ℤ → Asset → Asset
set_agent_token token slot r = record r {
  agent_token = token;
  slot_updated_agent_registry = some slot;
  slot_updated = greatest r.slot_updated slot;
}

-- An asset that is not burnt, of Core, with no later update of its agent.
abbrev pub takes_agent : ℤ → Asset → Bool
takes_agent slot r =
    (not r.burnt && is_core_asset r.specification_asset_class)
    && at_least (some slot) r.slot_updated_agent_registry

unfoldable pub agent_row : Option Pubkey → ℤ → Option Asset → Option Asset
agent_row token slot = update_where (set_agent_token token slot) (takes_agent slot)

pub record ParsedAgentIdentity : Type 0 where
  pub asset : Pubkey
  pub agent_token_mint : Option Pubkey

abbrev pub retry_intervals : List ℕ
retry_intervals = 0 ∷ 5 ∷ 10 ∷ []

module _ (sleep : ℕ → World → World) where
  abbrev pub sleep_for : ℕ → Action (Unit {0})
  sleep_for n w = (ok tt, sleep n w)

  -- A model that was found ends the loop.
  abbrev pub found_or : {M : Type 0} → Option M → Action (Option M) → Action (Option M)
  found_or none rest = rest
  found_or (some m) rest = pure (some m)

  unfoldable pub find_model_with_retry :
      {M : Type 0} → (Database → Option M) → List ℕ → Action (Option M)
  find_model_with_retry select [] = pure none
  find_model_with_retry select (interval ∷ rest) = do
    sleep_for interval
    model ← request storage_write_error (λ d. (select d, d))
    found_or model (find_model_with_retry select rest)

  abbrev pub find_asset : Pubkey → Action (Option Asset)
  find_asset id = find_model_with_retry (λ d. d.assets.asset id) retry_intervals

  abbrev pub write_agent : ParsedAgentIdentity → ℕ → Option Asset → Action (Unit {0})
  write_agent inner slot none = pure tt
  write_agent inner slot (some m) =
      if m.burnt
      then pure tt
      else execute_assets asset_index_error λ t. record t {
        asset = alter inner.asset (agent_row inner.agent_token_mint (as_i64 slot)) t.asset;
      }

  unfoldable pub handle_agent_registry_account : Option ParsedAgentIdentity → ℕ → Action (Unit {0})
  handle_agent_registry_account none slot = pure tt
  handle_agent_registry_account (some inner) slot = do
    model ← find_asset inner.asset
    write_agent inner slot model
