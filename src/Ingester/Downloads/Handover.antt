-- ===== src/Ingester/Downloads/Handover.antt =====
-- What `process` passes on to `later`.
use das.Prelude.{
  trim, drop_nul, ℕ, suc, ◌≡◌, ◌<◌, refl, Bool, true, false, not, ◌&&◌, Option, none, some, leb,
  if◌then◌else◌, arith,
}
use das.Database.{Json}
use das.Ingester.Downloads.Fetch.{rate_limited, transient, permanent, Fetched, body, failure}
use das.Ingester.Downloads.{
  Job, Next, finished, later, Outcome, Calls, retry, or_same, is_http, after_fetch, after_acquire,
  process_parsed, process,
}

-- What `process` hands on is the same job, perhaps with one attempt more.
abbrev pub SameJob : ℕ → Job → Next → Type 0
SameJob max_attempts job finished = Unit {0}
SameJob max_attempts job (later job' delay) =
    (job'.asset_data_id ≡ job.asset_data_id)
    × (job'.uri ≡ job.uri)
    × (job.attempt < max_attempts → job'.attempt < max_attempts)

if_retried :
    (max_attempts : ℕ) (job : Job) (delay : ℕ) (b : Bool)
    → leb max_attempts (suc job.attempt) ≡ b
    → let next : Outcome = record {
      stored = none;
      next = later (record job { attempt = suc job.attempt }) delay;
    } in
      SameJob max_attempts job (if b then record { stored = none; next = finished } else next).next
if_retried max_attempts job delay true e = tt
if_retried max_attempts job delay false e = (refl, refl, λ h. ground arith)

retry-SameJob :
    (max_attempts : ℕ) (job : Job) (delay : ℕ)
    → SameJob max_attempts job (retry max_attempts job delay).next
unfolding retry
retry-SameJob max_attempts job delay =
    if_retried max_attempts job delay (leb max_attempts (suc job.attempt)) refl

if_holds : (P : Outcome → Type 0) (b : Bool) (x y : Outcome) → P x → P y → P (if b then x else y)
if_holds P true x y h k = h
if_holds P false x y h k = k

-- The ways in which `process` ends: it calls `store` and finishes, it waits for a pause of the host,
-- or it fails and may try again.
module _ {Url : Type 0} (calls : Calls Url) (max_attempts : ℕ) (job : Job) (P : Outcome → Type 0)
    (ends : (result : Option Json) → P (record { stored = some result; next = finished }))
    (waits : (delay : ℕ) → P (record { stored = none; next = later job delay }))
    (retries : (delay : ℕ) → P (retry max_attempts job delay)) where
  after_fetch_holds : (url : Url) (r : Fetched) → P (after_fetch calls max_attempts job url r)
  after_fetch_holds url (body json) = ends (some json)
  after_fetch_holds url (failure permanent) = ends none
  after_fetch_holds url (failure (rate_limited after)) = retries _
  after_fetch_holds url (failure transient) = retries _

  after_acquire_holds :
      (url : Url) (via_gateway : Bool) (o : Option ℕ)
      → P (after_acquire calls max_attempts job url via_gateway o)
  after_acquire_holds url via_gateway none = after_fetch_holds url _
  after_acquire_holds url via_gateway (some delay) = waits delay

  process_parsed_holds : (o : Option Url) → P (process_parsed calls max_attempts job o)
  process_parsed_holds none = ends (some calls.invalid_uri)
  process_parsed_holds (some parsed) =
      let url = or_same parsed (calls.rewrite parsed) in
      let via_gateway = calls.is_gateway url in
      if_holds P (not (is_http (calls.scheme url))) _ _ (ends none) (
        if_holds P (not via_gateway && not (calls.host_allowed url)) _ _ (ends none)
          (after_acquire_holds url via_gateway (calls.acquire url)))

  pub process_holds : P (process calls max_attempts job)
  unfolding process
  process_holds = process_parsed_holds (calls.parse (drop_nul (trim job.uri)))

pub process-SameJob :
    {Url : Type 0} (calls : Calls Url) (max_attempts : ℕ) (job : Job)
    → SameJob max_attempts job (process calls max_attempts job).next
process-SameJob calls max_attempts job =
    process_holds calls max_attempts job (λ o. SameJob max_attempts job o.next) (λ r. tt)
      (λ delay. (refl, refl, λ h. h)) (retry-SameJob max_attempts job)
