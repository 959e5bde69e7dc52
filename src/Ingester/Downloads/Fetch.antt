-- ===== src/Ingester/Downloads/Fetch.antt =====
-- grpc_ingester/src/metadata/mod.rs: `fetch`, on the answers of the HTTP client.
use das.Prelude.{
  ℕ, ◌+◌, Bool, false, ◌&&◌, ◌||◌, Option, none, some, List, [], ◌∷◌, ◌++◌, length, ltb, leb, ◌==◌,
  if◌then◌else◌, is_some,
}
use das.Database.{Json}

pub data Failure : Type 0 where
  rate_limited : Option ℕ → Failure
  transient permanent : Failure

pub data Fetched : Type 0 where
  body : Json → Fetched
  failure : Failure → Fetched

-- An answer of `chunk`, before the end of the body.
pub data Chunk : Type 0 where
  bytes : List ℕ → Chunk
  broken : Chunk

-- `retry_after` is the header, if it is a number of seconds.
pub record Response : Type 0 where
  pub status : ℕ
  pub retry_after : Option ℕ
  pub content_length : Option ℕ
  pub chunks : List Chunk

-- The answer of `send`; an error says if its causes have the marker of a blocked address or of too
-- many redirects.
pub data Sent : Type 0 where
  response : Response → Sent
  send_error : Bool → Sent

abbrev pub between : ℕ → ℕ → ℕ → Bool
between low high n = leb low n && leb n high

-- `None` for status 200.
unfoldable pub classify : ℕ → Option ℕ → Bool → Option Failure
classify status retry_after via_gateway =
    if status == 200
    then none
    else if status == 429
    then some (rate_limited retry_after)
    else if (status == 503) && is_some retry_after
    then some (rate_limited retry_after)
    else if ((status == 404) || (status == 410)) && via_gateway
    then some transient
    else if between 300 399 status && via_gateway
    then some transient
    else if (status == 408) || ((status == 425) || between 500 599 status)
    then some transient
    else some permanent

abbrev pub exceeds : Option ℕ → ℕ → Bool
exceeds none max_bytes = false
exceeds (some len) max_bytes = ltb max_bytes len

module _ (parse_json : List ℕ → Option Json) (max_bytes : ℕ) where
  abbrev pub parsed : Option Json → Fetched
  parsed none = failure permanent
  parsed (some json) = body json

  -- The loop over the chunks, with the body read so far.
  unfoldable pub read_body : List Chunk → List ℕ → Fetched
  read_body [] read = parsed (parse_json read)
  read_body (broken ∷ chunks) read = failure transient
  read_body (bytes chunk ∷ chunks) read =
      let rest = read_body chunks (read ++ chunk) in
      if ltb max_bytes (length read + length chunk) then failure permanent else rest

  abbrev pub after_status : Option Failure → Response → Fetched
  after_status (some f) r = failure f
  after_status none r =
      if exceeds r.content_length max_bytes then failure permanent else read_body r.chunks []

  unfoldable pub fetch : Sent → Bool → Fetched
  fetch (send_error marked) via_gateway = if marked then failure permanent else failure transient
  fetch (response r) via_gateway = after_status (classify r.status r.retry_after via_gateway) r
