-- ===== src/Ingester/Downloads/Pending.antt =====
-- The downloads as a state machine: requests, workers and delays take turns in any order.
use das.Prelude.{
  ℕ, suc, ◌+◌, ◌≡◌, refl, sym, ap, ◌∙◌, Bool, true, false, List, [], ◌∷◌, ◌++◌, Text, ◌==◌,
  if◌then◌else◌, arith,
}
use das.Ingester.Downloads.Handover.{SameJob, process-SameJob}
use das.Ingester.Downloads.{
  Job, Next, finished, later, Shared, Calls, insert, try_send, enqueue, finish, send_later, settle,
  process,
}

abbrev pub empty : Shared
empty = record { pending = λ k. false; queue = []; in_flight = []; waiting = [] }

-- A request for a download, a worker that takes a job from the channel, one that has processed its
-- job, and a job whose delay is over.
pub data Step (Url : Type 0) (max_attempts : ℕ) : Shared → Shared → Type 0 where
  request :
      (id : ℕ) (uri : Text) (room : Bool) (s : Shared)
      → Step Url max_attempts s (enqueue id uri room s).1
  take :
      (job : Job) (rest : List Job) (s : Shared)
      → s.queue ≡ job ∷ rest
      → Step Url max_attempts s (record s { queue = rest; in_flight = job ∷ s.in_flight })
  processed :
      (calls : Calls Url) (job : Job) (xs ys : List Job) (s : Shared)
      → s.in_flight ≡ xs ++ job ∷ ys
      → Step Url max_attempts s (
          settle job.asset_data_id
            (process calls max_attempts job).next
            (record s { in_flight = xs ++ ys }))
  woken :
      (is_open : Bool) (job : Job) (xs ys : List Job) (s : Shared)
      → s.waiting ≡ xs ++ job ∷ ys
      → Step Url max_attempts s (send_later is_open job (record s { waiting = xs ++ ys }))

pub data Reachable (Url : Type 0) (max_attempts : ℕ) : Shared → Type 0 where
  start : Reachable Url max_attempts empty
  step :
      (s t : Shared)
      → Reachable Url max_attempts s
      → Step Url max_attempts s t
      → Reachable Url max_attempts t

-- How many of the jobs are for an id.
abbrev pub count : ℕ → List Job → ℕ
count id [] = 0
count id (job ∷ jobs) =
    let rest = count id jobs in if job.asset_data_id == id then suc rest else rest

abbrev pub live : ℕ → Shared → ℕ
live id s = count id s.queue + (count id s.in_flight + count id s.waiting)

abbrev one_if : Bool → ℕ
one_if true = 1
one_if false = 0

count-append : (id : ℕ) (xs ys : List Job) → count id (xs ++ ys) ≡ count id xs + count id ys
count-append id [] ys = omega arith
count-append id (x ∷ xs) ys = ground (arith, count-append id xs ys)

-- Every id that is pending has one job, and the others have none.
record Tracked (s : Shared) : Type 0 where
  exact : (id : ℕ) → live id s ≡ one_if (s.pending id)

finish-Tracked :
    (id : ℕ) (s : Shared)
    → ((k : ℕ) → live k s + one_if (id == k) ≡ one_if (s.pending k))
    → Tracked (finish id s)
unfolding finish
finish-Tracked id s h = record { exact = λ k. ground (arith, h k) }

same_pending :
    (id k : ℕ) (s : Shared) → s.pending id ≡ false → (id == k) ≡ true → s.pending k ≡ false
same_pending id k s e h = let same : id ≡ k = ground arith in ap s.pending (sym same) ∙ e

enqueued :
    (id : ℕ) (uri : Text) (room b : Bool) (s : Shared)
    → s.pending id ≡ b
    → Tracked s
    → let job : Job = record { asset_data_id = id; uri = uri; attempt = 0 } in
      let sent = try_send room job (record s { pending = insert id s.pending }) in
      Tracked (if b then (false, s) else sent).1
enqueued id uri room true s e h = h
enqueued id uri true false s e h = record {
  exact = λ k.
      let job : Job = record { asset_data_id = id; uri = uri; attempt = 0 } in
      ground (arith, count-append k s.queue (job ∷ []), h.exact k, same_pending id k s e);
}
enqueued id uri false false s e h = record {
  exact = λ k. ground (arith, h.exact k, same_pending id k s e);
}

enqueue-Tracked :
    (id : ℕ) (uri : Text) (room : Bool) (s : Shared) → Tracked s → Tracked (enqueue id uri room s).1
unfolding enqueue
enqueue-Tracked id uri room s h = enqueued id uri room (s.pending id) s refl h

settle-Tracked :
    (max_attempts id : ℕ) (job : Job) (n : Next) (s : Shared)
    → SameJob max_attempts job n
    → ((k : ℕ) → live k s + one_if (job.asset_data_id == k) ≡ one_if (s.pending k))
    → Tracked (settle job.asset_data_id n s)
unfolding settle
settle-Tracked max_attempts id job finished s m h = finish-Tracked job.asset_data_id s h
settle-Tracked max_attempts id job (later job' delay) s (e, u, m) h = record {
  exact = λ k. ground (arith, e, h k);
}

send_later-Tracked :
    (is_open : Bool) (job : Job) (s : Shared)
    → ((k : ℕ) → live k s + one_if (job.asset_data_id == k) ≡ one_if (s.pending k))
    → Tracked (send_later is_open job s)
unfolding send_later
send_later-Tracked true job s h = record {
  exact = λ k. ground (arith, count-append k s.queue (job ∷ []), h k);
}
send_later-Tracked false job s h = finish-Tracked job.asset_data_id s h

-- A job that is taken out of a list.
count-removed :
    (k : ℕ) (job : Job) (l xs ys : List Job)
    → l ≡ xs ++ job ∷ ys
    → count k l ≡ count k (xs ++ ys) + one_if (job.asset_data_id == k)
count-removed k job l xs ys e =
    ap (count k) e ∙ ground (arith, count-append k xs (job ∷ ys), count-append k xs ys)

step-Tracked :
    {Url : Type 0} (max_attempts : ℕ) (s t : Shared)
    → Step Url max_attempts s t
    → Tracked s
    → Tracked t
step-Tracked max_attempts _ _ (request id uri room s) h = enqueue-Tracked id uri room s h
step-Tracked max_attempts _ _ (take job rest s e) h = record {
  exact = λ k. ground (arith, h.exact k, count-removed k job s.queue [] rest e);
}
step-Tracked max_attempts _ _ (processed calls job xs ys s e) h =
    settle-Tracked max_attempts job.asset_data_id job (process calls max_attempts job).next
      (record s { in_flight = xs ++ ys }) (process-SameJob calls max_attempts job)
      λ k. ground (arith, h.exact k, count-removed k job s.in_flight xs ys e)
step-Tracked max_attempts _ _ (woken is_open job xs ys s e) h =
    send_later-Tracked is_open job (record s { waiting = xs ++ ys })
      λ k. ground (arith, h.exact k, count-removed k job s.waiting xs ys e)

Reachable-Tracked :
    {Url : Type 0} (max_attempts : ℕ) (s : Shared) → Reachable Url max_attempts s → Tracked s
Reachable-Tracked max_attempts _ start = record { exact = λ k. refl }
Reachable-Tracked max_attempts _ (step s t r x) =
    step-Tracked max_attempts s t x (Reachable-Tracked max_attempts s r)

-- However requests, workers and delays take turns: the ids in `pending` are exactly those with a
-- job in the channel, in flight or waiting, and none has two jobs.
pub Reachable-live :
    {Url : Type 0} (max_attempts : ℕ) (s : Shared) (id : ℕ)
    → Reachable Url max_attempts s
    → live id s ≡ (if s.pending id then 1 else 0)
Reachable-live max_attempts s id r = ground (arith, (Reachable-Tracked max_attempts s r).exact id)
