-- ===== src/Ingester/Downloads.antt =====
-- grpc_ingester/src/metadata/mod.rs: the downloads of off-chain metadata. The reasons of a failure,
-- which are only logged, and the counters are left out.
pub mod Fetch
pub mod Handover
pub mod Pending
pub mod Attempts
pub mod Owed
pub mod Limits
use das.Prelude.{
  ℕ, suc, ◌+◌, ◌*◌, ◌^◌, min, Bool, true, false, not, ◌&&◌, ◌||◌, Option, none, some, List, [], ◌∷◌,
  ◌++◌, Text, trim, drop_nul, ltb, leb, ◌==◌, if◌then◌else◌,
}
use das.Database.{Json, AssetData}
use das.Ingester.Retry.Markers.{is_retryable}
use das.Ingester.Downloads.Fetch.{
  Failure, rate_limited, transient, permanent, Fetched, body, failure,
}

pub record Job : Type 0 where
  pub asset_data_id : ℕ
  pub uri : Text
  pub attempt : ℕ

-- How `process` leaves its job: it finishes it, or hands it on to `later` with a delay in
-- nanoseconds.
pub data Next : Type 0 where
  finished : Next
  later : Job → ℕ → Next

-- What `process` passes to `store`, if it calls it: a body, or none.
pub record Outcome : Type 0 where
  pub stored : Option (Option Json)
  pub next : Next

-- The state under the locks: `pending`, the jobs in the channel, those that `process` runs on and
-- those that `later` keeps until their delay is over or the channel has room.
pub record Shared : Type 0 where
  pub pending : ℕ → Bool
  pub queue : List Job
  pub in_flight : List Job
  pub waiting : List Job

abbrev pub insert : ℕ → (ℕ → Bool) → ℕ → Bool
insert id set k = if id == k then true else set k

abbrev pub remove : ℕ → (ℕ → Bool) → ℕ → Bool
remove id set k = if id == k then false else set k

-- `room` is the channel's answer to `try_send`.
abbrev pub try_send : Bool → Job → Shared → Bool × Shared
try_send true job s = (true, record s { queue = s.queue ++ job ∷ [] })
try_send false job s = (false, record s { pending = remove job.asset_data_id s.pending })

unfoldable pub enqueue : ℕ → Text → Bool → Shared → Bool × Shared
enqueue id uri room s =
    let job : Job = record { asset_data_id = id; uri = uri; attempt = 0 } in
    if s.pending id
    then (false, s)
    else try_send room job (record s { pending = insert id s.pending })

unfoldable pub finish : ℕ → Shared → Shared
finish id s = record s { pending = remove id s.pending }

-- What `later` does at the end of the delay; `open` says if the channel takes the job.
unfoldable pub send_later : Bool → Job → Shared → Shared
send_later true job s = record s { queue = s.queue ++ job ∷ [] }
send_later false job s = finish job.asset_data_id s

-- What `process` calls: the crate url, the gateway of ipfs.rs, the filter of guard.rs, the pauses of
-- hosts.rs (`go`, or the delay of `wait`), the download, and the pause that `back_off` returns.
pub record Calls (Url : Type 0) : Type 0 where
  pub parse : Text → Option Url
  pub rewrite : Url → Option Url
  pub is_gateway : Url → Bool
  pub scheme : Url → Text
  pub host_allowed : Url → Bool
  pub acquire : Url → Option ℕ
  pub fetch : Url → Bool → Fetched
  pub back_off : Url → Option ℕ → ℕ
  pub invalid_uri : Json

abbrev pub eq_text : Text → Text → Bool
eq_text [] [] = true
eq_text (a ∷ t) (b ∷ u) = let rest = eq_text t u in if a == b then rest else false
eq_text _ _ = false

abbrev pub http : Text
http = 104 ∷ (116 ∷ (116 ∷ (112 ∷ [])))

-- `matches!(url.scheme(), "http" | "https")`
abbrev pub is_http : Text → Bool
is_http scheme = eq_text scheme http || eq_text scheme (http ++ 115 ∷ [])

abbrev pub or_same : {A : Type 0} → A → Option A → A
or_same a none = a
or_same a (some b) = b

-- `Duration::from_secs(15 << job.attempt.min(6))`
unfoldable pub transient_delay : ℕ → ℕ
transient_delay attempt = 15 * 2 ^ min attempt 6 * 1_000_000_000

-- After a failure that may clear up.
unfoldable pub retry : ℕ → Job → ℕ → Outcome
retry max_attempts job delay =
    let job' : Job = record job { attempt = suc job.attempt } in
    if leb max_attempts job'.attempt
    then record { stored = none; next = finished }
    else record { stored = none; next = later job' delay }

module _ {Url : Type 0} (calls : Calls Url) (max_attempts : ℕ) (job : Job) where
  abbrev pub after_fetch : Url → Fetched → Outcome
  after_fetch url (body json) = record { stored = some (some json); next = finished }
  after_fetch url (failure permanent) = record { stored = some none; next = finished }
  after_fetch url (failure (rate_limited after)) = retry max_attempts job (calls.back_off url after)
  after_fetch url (failure transient) = retry max_attempts job (transient_delay job.attempt)

  -- A pause does not count as an attempt.
  abbrev pub after_acquire : Url → Bool → Option ℕ → Outcome
  after_acquire url via_gateway none = after_fetch url (calls.fetch url via_gateway)
  after_acquire url via_gateway (some delay) = record { stored = none; next = later job delay }

  abbrev pub process_url : Url → Outcome
  process_url parsed =
      let url = or_same parsed (calls.rewrite parsed) in
      let via_gateway = calls.is_gateway url in
      if not (is_http (calls.scheme url))
      then record { stored = some none; next = finished }
      else if not via_gateway && not (calls.host_allowed url)
      then record { stored = some none; next = finished }
      else after_acquire url via_gateway (calls.acquire url)

  abbrev pub process_parsed : Option Url → Outcome
  process_parsed none = record { stored = some (some calls.invalid_uri); next = finished }
  process_parsed (some url) = process_url url

  unfoldable pub process : Outcome
  process = process_parsed (calls.parse (drop_nul (trim job.uri)))

-- `store` on the row at the job's id: only if its `metadata_url` is still the job's.
abbrev pub set_stored : Option Json → AssetData → AssetData
set_stored none r = record r { reindex = some false }
set_stored (some json) r = record r { reindex = some false; metadata = json }

unfoldable pub store_row : Job → Option Json → Option AssetData → Option AssetData
store_row job result none = none
store_row job result (some r) =
    some (if eq_text r.metadata_url job.uri then set_stored result r else r)

-- `with_db_retry`, on what the database answers to each call of the statement in turn (`none` for
-- success, after the last one it succeeds): whether it was written. The waits are left out.
unfoldable pub with_db_retry : ℕ → ℕ → List (Option Text) → Bool
with_db_retry max_write_attempts attempt [] = true
with_db_retry max_write_attempts attempt (none ∷ answers) = true
with_db_retry max_write_attempts attempt (some e ∷ answers) =
    let rest = with_db_retry max_write_attempts (suc attempt) answers in
    if is_retryable e && ltb (attempt + 1) max_write_attempts then rest else false

-- The row after the write that `process` asks for; `written` says if the database took it.
abbrev pub row_if : Bool → Job → Option (Option Json) → Option AssetData → Option AssetData
row_if false job stored row = row
row_if true job none row = row
row_if true job (some result) row = store_row job result row

unfoldable pub row_after :
    ℕ → List (Option Text) → Job → Option (Option Json) → Option AssetData → Option AssetData
row_after max_write_attempts answers job stored row =
    row_if (with_db_retry max_write_attempts 0 answers) job stored row

-- The step of the worker that has processed a job.
unfoldable pub settle : ℕ → Next → Shared → Shared
settle id finished s = finish id s
settle id (later job delay) s = record s { waiting = job ∷ s.waiting }
