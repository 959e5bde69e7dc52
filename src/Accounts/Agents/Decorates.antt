-- ===== src/Accounts/Agents/Decorates.antt =====
-- agent_registry.rs: what the handler may change.
use das.Prelude.{
  ℕ, ℤ, ◌≡◌, refl, ◌∙◌, Bool, true, false, Option, none, some, List, [], ◌∷◌, ◌⊎◌, inl, inr, as_i64,
  not, ◌&&◌, String, if◌then◌else◌, ◌==◌,
}
use das.Database.{
  Pubkey, Asset, Database, World, Action, Result, bind_result, request_with, storage_write_error,
  asset_index_error, execute_assets, ok, err, ◌>>=◌, pure, request, at_least, alter,
}
use das.Accounts.Agents.{
  agent_row, set_agent_token, takes_agent, is_core_asset, find_model_with_retry, found_or,
  find_asset, write_agent, ParsedAgentIdentity, handle_agent_registry_account,
}

-- A row that is as before, or that of a Core asset that is not burnt, with another agent.
pub Decorated : Option Asset → Option Asset → Type 0
Decorated before after =
    (after ≡ before)
    ⊎ ((r : Asset) × (token : Option Pubkey) × (slot : ℤ) × (before ≡ some r)
        × (r.burnt ≡ false)
        × (is_core_asset r.specification_asset_class ≡ true)
        × (after ≡ some (set_agent_token token slot r)))

taken :
    (burnt core newer : Bool)
    → ((not burnt && core) && newer) ≡ true
    → (burnt ≡ false) × (core ≡ true)
taken true core newer h = absurd (cc)
taken false false newer h = absurd (cc)
taken false true newer h = (refl, refl)

taken-Decorated :
    (token : Option Pubkey) (slot : ℤ) (r : Asset) (b : Bool)
    → takes_agent slot r ≡ b
    → Decorated (some r) (some (if b then set_agent_token token slot r else r))
unfolding Decorated
taken-Decorated token slot r true h =
    let core = is_core_asset r.specification_asset_class in
    let (p, q) = taken r.burnt core (at_least (some slot) r.slot_updated_agent_registry) h in
    inr (r, token, slot, refl, p, q, refl)
taken-Decorated token slot r false h = inl refl

agent_row-Decorated :
    (token : Option Pubkey) (slot : ℤ) (o : Option Asset) → Decorated o (agent_row token slot o)
unfolding agent_row Decorated
agent_row-Decorated token slot none = inl refl
agent_row-Decorated token slot (some r) = taken-Decorated token slot r (takes_agent slot r) refl

alter-Decorated :
    (k j : ℕ) (token : Option Pubkey) (slot : ℤ) (t : ℕ → Option Asset)
    → Decorated (t j) (alter k (agent_row token slot) t j)
unfolding Decorated
alter-Decorated k j token slot t =
    elim (k == j) as (λ b. Decorated (t j) (if b then agent_row token slot (t j) else t j)) [
      | true ↦ agent_row-Decorated token slot (t j)
      | false ↦ inl refl
    ]

module _ (sleep : ℕ → World → World) where
  found_current :
      {M : Type 0} (select : Database → Option M) (o : Option M) (rest : Action (Option M))
      (v : World) (m : M)
      → select v.db ≡ o
      → ((rest v).0 ≡ ok (some m) → select (rest v).1.db ≡ some m)
      → (found_or sleep o rest v).0 ≡ ok (some m)
      → select (found_or sleep o rest v).1.db ≡ some m
  unfolding pure
  found_current select none rest v m e ih h = ih h
  found_current select (some m') rest v m e ih h = e ∙ cc

  read_current :
      {M : Type 0} (select : Database → Option M) (rest : Action (Option M))
      (os : List (Option String)) (v : World) (m : M)
      → ((u : World) → (rest u).0 ≡ ok (some m) → select (rest u).1.db ≡ some m)
      → let run =
          bind_result
            (λ o. found_or sleep o rest)
            (request_with storage_write_error (λ d. (select d, d)) os v) in
        run.0 ≡ ok (some m) → select run.1.db ≡ some m
  read_current select rest [] v m ih h = found_current select (select v.db) rest v m refl (ih v) h
  read_current select rest (none ∷ os) v m ih h =
      let u = record v { outcomes = os } in
      found_current select (select v.db) rest u m refl (ih u) h
  read_current select rest (some e ∷ os) v m ih h = absurd (cc)

  -- Whatever other tasks write while the search sleeps, and whichever requests fail: a model that
  -- it returns is the one that the database has when it returns.
  find_model_with_retry_current :
      {M : Type 0} (select : Database → Option M) (intervals : List ℕ) (w : World) (m : M)
      → (find_model_with_retry sleep select intervals w).0 ≡ ok (some m)
      → select (find_model_with_retry sleep select intervals w).1.db ≡ some m
  unfolding find_model_with_retry ◌>>=◌ request pure
  find_model_with_retry_current select [] w m h = absurd (cc)
  find_model_with_retry_current select (i ∷ is) w m h =
      read_current select (find_model_with_retry sleep select is) (sleep i w).outcomes (sleep i w) m
        (λ u. find_model_with_retry_current select is u m) h

  execute-Decorated :
      (k j : ℕ) (token : Option Pubkey) (slot : ℤ) (os : List (Option String)) (w : World)
      → Decorated (w.db.assets.asset j) (
          (request_with asset_index_error
              (λ d. (
                tt,
                record d {
                  assets = record d.assets {
                    asset = alter k (agent_row token slot) d.assets.asset;
                  };
                },
              ))
              os
              w).1.db.assets.asset
            j)
  unfolding Decorated
  execute-Decorated k j token slot [] w = alter-Decorated k j token slot w.db.assets.asset
  execute-Decorated k j token slot (none ∷ os) w = alter-Decorated k j token slot w.db.assets.asset
  execute-Decorated k j token slot (some e ∷ os) w = inl refl

  write-Decorated :
      (inner : ParsedAgentIdentity) (slot : ℕ) (j : ℕ) (o : Option Asset) (w : World)
      → Decorated (w.db.assets.asset j) ((write_agent sleep inner slot o w).1.db.assets.asset j)
  unfolding Decorated pure request
  write-Decorated inner slot j none w = inl refl
  write-Decorated inner slot j (some m) w =
      let k = inner.asset in
      let row = agent_row inner.agent_token_mint (as_i64 slot) in
      let write =
        execute_assets asset_index_error (λ t. record t { asset = alter k row t.asset }) in
      elim m.burnt
        as (λ b.
          Decorated (w.db.assets.asset j)
            (((if b then pure tt else write) w).1.db.assets.asset j)) [
              | true ↦ inl refl
              | false ↦ execute-Decorated k j inner.agent_token_mint (as_i64 slot) w.outcomes w
            ]

  found-Decorated :
      (inner : ParsedAgentIdentity) (slot : ℕ) (j : ℕ) (r : Result (Option Asset) × World)
      → Decorated
          (r.1.db.assets.asset j)
          ((bind_result (write_agent sleep inner slot) r).1.db.assets.asset j)
  unfolding Decorated
  found-Decorated inner slot j (ok o, w) = write-Decorated inner slot j o w
  found-Decorated inner slot j (err e, w) = inl refl

  -- The write of the agent registry's handler, after its search for the asset: whichever requests
  -- fail, no row appears or goes, and a row that changes is that of a Core asset that is not burnt,
  -- and changes in its agent's token and the two slots only.
  pub handle_agent_registry_account_decorates :
      (inner : ParsedAgentIdentity) (slot : ℕ) (w : World) (j : ℕ)
      → Decorated
          ((find_asset sleep inner.asset w).1.db.assets.asset j)
          ((handle_agent_registry_account sleep (some inner) slot w).1.db.assets.asset j)
  unfolding handle_agent_registry_account ◌>>=◌
  handle_agent_registry_account_decorates inner slot w j =
      found-Decorated inner slot j (find_asset sleep inner.asset w)
