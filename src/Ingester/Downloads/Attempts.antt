-- ===== src/Ingester/Downloads/Attempts.antt =====
-- How often a download is tried.
use das.Prelude.{ℕ, ◌<◌, subst, Bool, true, false, List, [], ◌∷◌, ◌++◌, Text, All, if◌then◌else◌}
use das.Ingester.Downloads.Handover.{SameJob, process-SameJob}
use das.Ingester.Downloads.Pending.{Step, request, take, processed, woken, Reachable, start, step}
use das.Ingester.Downloads.{
  Job, Next, finished, later, Shared, insert, try_send, enqueue, finish, send_later, settle,
  process,
}

abbrev pub Below : ℕ → List Job → Type 0
Below max_attempts jobs = All (λ j. j.attempt < max_attempts) jobs

-- The jobs of the three lists.
abbrev pub AllBelow : ℕ → Shared → Type 0
AllBelow m s = Below m s.queue × Below m s.in_flight × Below m s.waiting

Below-append : (m : ℕ) (xs ys : List Job) → Below m xs → Below m ys → Below m (xs ++ ys)
Below-append m [] ys h k = k
Below-append m (x ∷ xs) ys (h, hs) k = (h, Below-append m xs ys hs k)

Below-split :
    (m : ℕ) (xs ys : List Job) (job : Job)
    → Below m (xs ++ job ∷ ys)
    → (job.attempt < m) × Below m (xs ++ ys)
Below-split m [] ys job h = h
Below-split m (x ∷ xs) ys job (h, hs) = let (j, r) = Below-split m xs ys job hs in (j, (h, r))

enqueue-AllBelow :
    (m id : ℕ) (uri : Text) (room b : Bool) (s : Shared)
    → 0 < m
    → AllBelow m s
    → let job : Job = record { asset_data_id = id; uri = uri; attempt = 0 } in
      let sent = try_send room job (record s { pending = insert id s.pending }) in
      AllBelow m (if b then (false, s) else sent).1
enqueue-AllBelow m id uri room true s p h = h
enqueue-AllBelow m id uri true false s p (q, f, w) = (Below-append m s.queue _ q (p, tt), f, w)
enqueue-AllBelow m id uri false false s p h = h

settle-AllBelow :
    (m : ℕ) (job : Job) (n : Next) (s : Shared)
    → SameJob m job n
    → job.attempt < m
    → AllBelow m s
    → AllBelow m (settle job.asset_data_id n s)
unfolding settle finish
settle-AllBelow m job finished s e j h = h
settle-AllBelow m job (later job' delay) s (e, u, k) j (q, f, w) = (q, f, (k j, w))

step-AllBelow :
    {Url : Type 0} (m : ℕ) (s t : Shared) → 0 < m → Step Url m s t → AllBelow m s → AllBelow m t
unfolding enqueue send_later finish
step-AllBelow m _ _ p (request id uri room s) h =
    enqueue-AllBelow m id uri room (s.pending id) s p h
step-AllBelow m _ _ p (take job rest s e) (q, f, w) =
    let (j, r) = subst (Below m) e q in (r, (j, f), w)
step-AllBelow m _ _ p (processed calls job xs ys s e) (q, f, w) =
    let (j, r) = Below-split m xs ys job (subst (Below m) e f) in
    settle-AllBelow m job (process calls m job).next (record s { in_flight = xs ++ ys })
      (process-SameJob calls m job) j (q, r, w)
step-AllBelow m _ _ p (woken true job xs ys s e) (q, f, w) =
    let (j, r) = Below-split m xs ys job (subst (Below m) e w) in
    (Below-append m s.queue _ q (j, tt), f, r)
step-AllBelow m _ _ p (woken false job xs ys s e) (q, f, w) =
    let (j, r) = Below-split m xs ys job (subst (Below m) e w) in (q, f, r)

-- No job is in the channel, in flight or waiting that has been tried as often as the options allow
-- (which is at least once), however requests, workers and delays take turns.
pub Reachable-AllBelow :
    {Url : Type 0} (max_attempts : ℕ) (s : Shared)
    → 0 < max_attempts
    → Reachable Url max_attempts s
    → AllBelow max_attempts s
Reachable-AllBelow m _ p start = (tt, tt, tt)
Reachable-AllBelow m _ p (step s t r x) = step-AllBelow m s t p x (Reachable-AllBelow m s p r)
