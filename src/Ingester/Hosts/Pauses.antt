-- ===== src/Ingester/Hosts/Pauses.antt =====
-- How long a host is paused.
use native.Mathlib.Nat.{one-le-pow, two-pow-succ}
use das.Prelude.{
  ℕ, zero, suc, if◌then◌else◌, ◌+◌, ◌-◌, ◌*◌, ◌^◌, ◌≤◌, ◌<◌, ◌≡◌, refl, ◌∙◌, ap, Bool, true, Option,
  none, some, ltb, leb, min, arith,
}
use das.Ingester.Hosts.{
  Host, Slot, new_host, min_pause, max_pause, remaining, acquire, acquire_host, or_new, next_pause,
  back_off, back_off_host,
}

abbrev host : Option ℕ → ℕ → Host
host u l = record { paused_until = u; last_pause = l }

abbrev ends_by : ℕ → Option ℕ → Bool
ends_by latest none = true
ends_by latest (some until) = leb until latest

-- No pause lasts longer than ten minutes from `now`.
abbrev pub is_bounded : ℕ → Option Host → Bool
is_bounded now none = true
is_bounded now (some h) = ends_by (now + max_pause) h.paused_until

-- A new pause is between five seconds and ten minutes, whatever the host asks for.
next_pause_bounds :
    (r : Option ℕ) (last : ℕ) → (min_pause ≤ next_pause r last) × (next_pause r last ≤ max_pause)
unfolding next_pause
next_pause_bounds none last = ground arith
next_pause_bounds (some r) last = ground arith

host-bounded :
    (now : ℕ) (r : Option ℕ) (u : Option ℕ) (l : ℕ)
    → ends_by (now + max_pause) u ≡ true
    → ((back_off now r (some (host u l))).0 ≤ max_pause)
      × (is_bounded now (back_off now r (some (host u l))).1 ≡ true)
unfolding back_off back_off_host remaining
host-bounded now r none l h = ground (arith, next_pause_bounds r l)
host-bounded now r (some u) l h = ground (arith, next_pause_bounds r l)

-- If no pause lasts longer than ten minutes from now, then `back_off` returns at most ten minutes,
-- and afterwards still no pause lasts longer.
pub back_off_bounded :
    (now : ℕ) (r : Option ℕ) (o : Option Host)
    → is_bounded now o ≡ true
    → ((back_off now r o).0 ≤ max_pause) × (is_bounded now (back_off now r o).1 ≡ true)
unfolding back_off
back_off_bounded now r none h = (omega arith, refl)
back_off_bounded now r (some g) h = host-bounded now r g.paused_until g.last_pause h

host-acquire :
    (now later : ℕ) (r : Option ℕ) (u : Option ℕ) (l : ℕ)
    → now ≤ later
    → let paused = back_off now r (some (host u l)) in
      let until = now + paused.0 in
      (acquire later paused.1).0 ≡ (if ltb later until then Slot.wait (until - later) else Slot.go)
unfolding back_off back_off_host acquire acquire_host or_new remaining
host-acquire now later r none l h = ground arith
host-acquire now later r (some u) l h = ground arith

-- After `back_off` on a known host, `acquire` makes a caller wait for exactly the rest of the pause
-- that `back_off` returned, and lets it go once that pause is over.
pub back_off-acquire :
    (now later : ℕ) (r : Option ℕ) (h : Host)
    → now ≤ later
    → let paused = back_off now r (some h) in
      let until = now + paused.0 in
      (acquire later paused.1).0 ≡ (if ltb later until then Slot.wait (until - later) else Slot.go)
back_off-acquire now later r h = host-acquire now later r h.paused_until h.last_pause

host-back_off :
    (now later : ℕ) (r r' : Option ℕ) (u : Option ℕ) (l : ℕ)
    → now ≤ later
    → later < now + (back_off now r (some (host u l))).0
    → let paused = back_off now r (some (host u l)) in
      back_off later r' paused.1 ≡ (now + paused.0 - later, paused.1)
unfolding back_off back_off_host remaining
host-back_off now later r r' none l h g = ground arith
host-back_off now later r r' (some u) l h g = ground arith

-- While a host is paused, a further `back_off` returns the rest of the pause, and changes nothing:
-- it neither extends the pause nor doubles the next one.
pub back_off-back_off :
    (now later : ℕ) (r r' : Option ℕ) (h : Host)
    → now ≤ later
    → later < now + (back_off now r (some h)).0
    → let paused = back_off now r (some h) in
      back_off later r' paused.1 ≡ (now + paused.0 - later, paused.1)
back_off-back_off now later r r' h = host-back_off now later r r' h.paused_until h.last_pause

-- The time and the host after so many refusals in a row, each at the end of the pause before.
abbrev pub refusals : ℕ → ℕ → Option Host → ℕ × Option Host
refusals zero now o = (now, o)
refusals (suc n) now o = let r = back_off now none o in refusals n (now + r.0) r.1

-- The pause after so many of them.
pause_after : ℕ → ℕ → Option Host → ℕ
pause_after n now o = let r = refusals n now o in (back_off r.0 none r.1).0

-- The pauses alone, from the one that follows `last`.
nth_pause : ℕ → ℕ → ℕ
nth_pause zero last = next_pause none last
nth_pause (suc n) last = nth_pause n (next_pause none last)

expired : (now : ℕ) → remaining now (some now) ≡ none
unfolding remaining
expired now = ground arith

pause_after_lem :
    (n now : ℕ) (u : Option ℕ) (l : ℕ)
    → remaining now u ≡ none
    → pause_after n now (some (host u l)) ≡ nth_pause n l
unfolding pause_after nth_pause back_off back_off_host
pause_after_lem zero now u l h = ap (λ o. (back_off_host now none o (host u l)).0) h
pause_after_lem (suc n) now u l h =
    ap (λ o. let r = back_off_host now none o (host u l) in pause_after n (now + r.0) (some r.1)) h
    ∙ (pause_after_lem n (now + next_pause none l) (some (now + next_pause none l))
        (next_pause none l) (expired (now + next_pause none l)))

pow_step : (k : ℕ) → 2 ^ (k + 1) ≡ 2 ^ k + 2 ^ k
pow_step k = ap (λ e. 2 ^ e) (omega arith) ∙ two-pow-succ k

doubled :
    (k : ℕ)
    → next_pause none (min (min_pause * 2 ^ k) max_pause) ≡ min (min_pause * 2 ^ (k + 1)) max_pause
unfolding next_pause
doubled k = ground (arith, one-le-pow k 2 (omega arith), pow_step k)

nth_pause_lem :
    (n k : ℕ)
    → nth_pause n (min (min_pause * 2 ^ k) max_pause) ≡ min (min_pause * 2 ^ (k + n + 1)) max_pause
unfolding nth_pause
nth_pause_lem zero k = doubled k ∙ ap (λ e. min (min_pause * 2 ^ e) max_pause) (omega arith)
nth_pause_lem (suc n) k =
    ap (nth_pause n) (doubled k)
    ∙ nth_pause_lem n (k + 1)
    ∙ ap (λ e. min (min_pause * 2 ^ e) max_pause) (omega arith)

-- A new host that refuses every download, each time as soon as its pause is over, and never says
-- for how long, is paused for five seconds, then twice as long each time, up to ten minutes.
pub back_off_doubles :
    (n now : ℕ)
    → let r = refusals n now (some new_host) in
      (back_off r.0 none r.1).0 ≡ min (min_pause * 2 ^ n) max_pause
unfolding pause_after remaining nth_pause next_pause
back_off_doubles zero now = pause_after_lem zero now none 0 refl ∙ ground arith
back_off_doubles (suc n) now =
    pause_after_lem (suc n) now none 0 refl
    ∙ ap (nth_pause n) (ground arith)
    ∙ nth_pause_lem n 0
    ∙ ap (λ e. min (min_pause * 2 ^ e) max_pause) (omega arith)
