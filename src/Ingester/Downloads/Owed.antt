-- ===== src/Ingester/Downloads/Owed.antt =====
-- Which downloads are still owed after `process`.
use das.Prelude.{◌<◌, ℕ, suc, ◌≡◌, ◌≤◌, Bool, Option, none, some, ◌⊎◌}
use das.Database.{AssetData, Json}
use das.Ingester.Downloads.{Job, Next, finished, later, Outcome}

-- The same job is tried again: after a pause of its host, or as the next attempt, if that is allowed.
abbrev pub TriedAgain : ℕ → Job → Next → Type 0
TriedAgain max_attempts job next =
    (delay : ℕ) × ((next ≡ later job delay)
      ⊎ ((next ≡ later (record job { attempt = suc job.attempt }) delay)
          × (suc job.attempt < max_attempts)))

-- The job is given up: it is over after its last attempt.
abbrev pub GivenUp : ℕ → Job → Next → Type 0
GivenUp max_attempts job next = (next ≡ finished) × (max_attempts ≤ suc job.attempt)

-- A job that is over with a result, or that is tried later, or that has used its attempts.
abbrev pub Ending : ℕ → Job → Outcome → Type 0
Ending max_attempts job o =
    ((result : Option Json) × (o.stored ≡ some result) × (o.next ≡ finished))
    ⊎ ((o.stored ≡ none) × (TriedAgain max_attempts job o.next ⊎ GivenUp max_attempts job o.next))

abbrev pub reindex_of : Option AssetData → Option Bool
reindex_of none = none
reindex_of (some r) = r.reindex
