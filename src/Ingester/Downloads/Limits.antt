-- ===== src/Ingester/Downloads/Limits.antt =====
-- What `fetch` accepts.
use das.Prelude.{
  ℕ, ◌+◌, ◌≤◌, ◌≡◌, refl, ap, ◌∙◌, Bool, true, false, Option, none, some, List, [], ◌∷◌, ◌++◌,
  length, length-append, ltb, if◌then◌else◌, arith,
}
use das.Database.{Json}
use das.Ingester.Downloads.Fetch.{
  Failure, permanent, body, failure, Chunk, bytes, broken, Response, parsed, after_status, Sent,
  response, send_error, classify, exceeds, read_body, fetch,
}

-- The whole body, if no chunk is broken.
abbrev pub prepend : List ℕ → Option (List ℕ) → Option (List ℕ)
prepend chunk none = none
prepend chunk (some rest) = some (chunk ++ rest)

abbrev pub joined : List Chunk → Option (List ℕ)
joined [] = some []
joined (broken ∷ chunks) = none
joined (bytes chunk ∷ chunks) = prepend chunk (joined chunks)

classify_none :
    (status : ℕ) (retry_after : Option ℕ) (via_gateway : Bool)
    → classify status retry_after via_gateway ≡ none
    → status ≡ 200
unfolding classify
classify_none status retry_after via_gateway h = ground arith

module _ (parse_json : List ℕ → Option Json) (max_bytes : ℕ) where
  -- A body that was read whole, within the limit, and is JSON.
  abbrev pub Whole : List Chunk → Json → Type 0
  Whole chunks json =
      (all : List ℕ) × (joined chunks ≡ some all)
      × (length all ≤ max_bytes)
      × (parse_json all ≡ some json)

  parsed_body :
      (o : Option Json) (json : Json) → parsed parse_json max_bytes o ≡ body json → o ≡ some json
  parsed_body none json h = absurd (cc)
  parsed_body (some j) json h = cc

  append_nil : (xs : List ℕ) → xs ++ [] ≡ xs
  append_nil [] = refl
  append_nil (x ∷ xs) = ap (λ l. x ∷ l) (append_nil xs)

  append_assoc : (xs ys zs : List ℕ) → (xs ++ ys) ++ zs ≡ xs ++ (ys ++ zs)
  append_assoc [] ys zs = refl
  append_assoc (x ∷ xs) ys zs = ap (λ l. x ∷ l) (append_assoc xs ys zs)

  -- The rest of a body, after what has been read.
  abbrev Rest : List ℕ → Option (List ℕ) → Json → Type 0
  Rest read o json =
      (rest : List ℕ) × (o ≡ some rest)
      × (length (read ++ rest) ≤ max_bytes)
      × (parse_json (read ++ rest) ≡ some json)

  read_chunk :
      (chunk : List ℕ) (chunks : List Chunk) (read : List ℕ) (json : Json) (b : Bool)
      → ltb max_bytes (length read + length chunk) ≡ b
      → (length (read ++ chunk) ≤ max_bytes
          → read_body parse_json max_bytes chunks (read ++ chunk) ≡ body json
          → Rest (read ++ chunk) (joined chunks) json)
      → (if b then failure permanent else read_body parse_json max_bytes chunks (read ++ chunk))
        ≡ body json
      → Rest read (prepend chunk (joined chunks)) json
  read_chunk chunk chunks read json true e ih h = absurd (cc)
  read_chunk chunk chunks read json false e ih h =
      let small : length (read ++ chunk) ≤ max_bytes = ground (arith, length-append read chunk) in
      let (rest, j, l, p) = ih small h in
      let a = append_assoc read chunk rest in (chunk ++ rest, rw (j) refl, rw⁻¹ (a) l, rw⁻¹ (a) p)

  read_whole :
      (chunks : List Chunk) (read : List ℕ) (json : Json)
      → length read ≤ max_bytes
      → read_body parse_json max_bytes chunks read ≡ body json
      → Rest read (joined chunks) json
  unfolding read_body
  read_whole [] read json b h =
      let e = append_nil read in
      ([], refl, rw (e) b, ap parse_json e ∙ parsed_body (parse_json read) json h)
  read_whole (broken ∷ chunks) read json b h = absurd (cc)
  read_whole (bytes chunk ∷ chunks) read json b h =
      read_chunk chunk chunks read json (ltb max_bytes (length read + length chunk)) refl
        (read_whole chunks (read ++ chunk) json) h

  within_length :
      (r : Response) (b : Bool) (json : Json)
      → (if b then failure permanent else read_body parse_json max_bytes r.chunks []) ≡ body json
      → Whole r.chunks json
  within_length r true json h = absurd (cc)
  within_length r false json h = read_whole r.chunks [] json (omega arith) h

  status_200 :
      (r : Response) (o : Option Failure) (json : Json)
      → after_status parse_json max_bytes o r ≡ body json
      → (o ≡ none) × Whole r.chunks json
  status_200 r (some f) json h = absurd (cc)
  status_200 r none json h = (refl, within_length r (exceeds r.content_length max_bytes) json h)

  -- A download that gives a body has the status 200, whichever answer the client gave: the body is
  -- the JSON of all its chunks, none of them broken, and they are within the limit.
  pub fetch_body :
      (sent : Sent) (via_gateway : Bool) (json : Json)
      → fetch parse_json max_bytes sent via_gateway ≡ body json
      → (r : Response) × (sent ≡ response r) × (r.status ≡ 200) × Whole r.chunks json
  unfolding fetch
  fetch_body (send_error true) via_gateway json h = absurd (cc)
  fetch_body (send_error false) via_gateway json h = absurd (cc)
  fetch_body (response r) via_gateway json h =
      let (none_failed, whole) =
        status_200 r (classify r.status r.retry_after via_gateway) json h in
      (r, refl, classify_none r.status r.retry_after via_gateway none_failed, whole)
