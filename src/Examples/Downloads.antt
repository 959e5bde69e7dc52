-- ===== src/Examples/Downloads.antt =====
-- A download that fails for now, in a run of the downloader's steps.
use das.Prelude.{◌≡◌, refl, true, false, none, some, [], ◌∷◌, Text, pos, if◌then◌else◌}
use das.Database.{AssetData, ChainMutability, Mutability}
use das.Ingester.Downloads.Fetch.{
  failure, transient, Chunk, Response, Sent, fetch, read_body, classify,
}
use das.Ingester.Downloads.{Job, Shared, Calls, enqueue, process, settle}
use das.Ingester.Downloads.Pending.{Step, Reachable, empty, live, Reachable-live}
use das.Ingester.Downloads.Limits.{Whole, fetch_body}

-- URLs are texts, and every download fails for now.
abbrev calls : Calls Text
calls = record {
  parse = λ t. some t;
  rewrite = λ u. none;
  is_gateway = λ u. false;
  scheme = λ u. 104 ∷ (116 ∷ (116 ∷ (112 ∷ [])));
  host_allowed = λ u. true;
  acquire = λ u. none;
  fetch = λ u g. failure transient;
  back_off = λ u after. 5;
  invalid_uri = 0;
}

abbrev job : Job
job = record { asset_data_id = 8; uri = 104 ∷ []; attempt = 0 }

abbrev queued : Shared
queued = (enqueue 8 (104 ∷ []) true empty).1

abbrev taken : Shared
taken = record queued { queue = []; in_flight = job ∷ [] }

abbrev retried : Shared
retried = settle 8 (process calls 5 job).next (record taken { in_flight = [] })

retried-Reachable : Reachable Text 5 retried
unfolding enqueue
retried-Reachable =
    Reachable.step taken retried
      (Reachable.step queued taken
        (Reachable.step empty queued Reachable.start (Step.request 8 (104 ∷ []) true empty))
        (Step.take job [] queued refl))
      (Step.processed calls job [] [] taken refl)

Reachable-live_example : live 8 retried ≡ (if retried.pending 8 then 1 else 0)
Reachable-live_example = Reachable-live 5 retried 8 retried-Reachable

abbrev row : AssetData
row = record {
  id = 8;
  chain_data_mutability = ChainMutability.mutable;
  chain_data = 1;
  metadata_url = 104 ∷ [];
  metadata_mutability = Mutability.mutable;
  metadata = 2;
  slot_updated = pos 3;
  reindex = some true;
  raw_name = none;
  raw_symbol = none;
  base_info_seq = none;
}

-- "40001"
abbrev busy : Text
busy = 52 ∷ (48 ∷ (48 ∷ (48 ∷ (49 ∷ []))))

abbrev answer : Sent
answer = Sent.response (record {
  status = 200;
  retry_after = none;
  content_length = none;
  chunks = Chunk.bytes (1 ∷ (2 ∷ [])) ∷ (Chunk.bytes (3 ∷ []) ∷ []);
})

fetch_body_example :
    (r : Response) × (answer ≡ Sent.response r)
    × (r.status ≡ 200)
    × Whole (λ l. some 7) 3 r.chunks 7
unfolding fetch read_body classify
fetch_body_example = fetch_body (λ l. some 7) 3 answer false 7 refl
