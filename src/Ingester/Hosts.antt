-- ===== src/Ingester/Hosts.antt =====
-- grpc_ingester/src/metadata/hosts.rs: the pauses of one metadata host. A method looks up the entry
-- of its host in the map and changes at most this entry, so the entry (none if the host is unknown)
-- is the state. Times are in nanoseconds, `now` is read from the clock. The permits of the host's
-- semaphore, of which `acquire` awaits one when it returns Go, are not counted.
pub mod Pauses
use das.Prelude.{
  ℕ, ◌+◌, ◌-◌, ◌*◌, Bool, true, false, Option, none, some, ltb, min, max, if◌then◌else◌,
}

-- 5s and 600s.
abbrev pub min_pause : ℕ
min_pause = 5_000_000_000

abbrev pub max_pause : ℕ
max_pause = 600_000_000_000

pub record Host : Type 0 where
  pub paused_until : Option ℕ
  pub last_pause : ℕ

pub data Slot : Type 0 where
  go : Slot
  wait : ℕ → Slot

abbrev pub new_host : Host
new_host = record { paused_until = none; last_pause = 0 }

unfoldable pub or_new : Option Host → Host
or_new none = new_host
or_new (some h) = h

-- The pause that is not over at `now`: how long it still lasts.
unfoldable pub remaining : ℕ → Option ℕ → Option ℕ
remaining now none = none
remaining now (some until) = if ltb now until then some (until - now) else none

unfoldable pub acquire_host : Option ℕ → Host → Slot × Host
acquire_host none h = (Slot.go, record h { paused_until = none })
acquire_host (some left) h = (Slot.wait left, h)

unfoldable pub acquire : ℕ → Option Host → Slot × Option Host
unfolding acquire_host remaining or_new
acquire now o =
    let r = acquire_host (remaining now (or_new o).paused_until) (or_new o) in (r.0, some r.1)

-- The length of a new pause: what the host asked for, or twice the last one.
unfoldable pub next_pause : Option ℕ → ℕ → ℕ
next_pause none last_pause = min (max (max (last_pause * 2) min_pause) min_pause) max_pause
next_pause (some retry_after) last_pause = min (max retry_after min_pause) max_pause

unfoldable pub back_off_host : ℕ → Option ℕ → Option ℕ → Host → ℕ × Host
unfolding next_pause
back_off_host now retry_after (some left) h = (left, h)
back_off_host now retry_after none h =
    let pause = next_pause retry_after h.last_pause in
    (pause, record { paused_until = some (now + pause); last_pause = pause })

unfoldable pub back_off : ℕ → Option ℕ → Option Host → ℕ × Option Host
unfolding back_off_host remaining
back_off now retry_after none = (min_pause, none)
back_off now retry_after (some h) =
    let r = back_off_host now retry_after (remaining now h.paused_until) h in (r.0, some r.1)

unfoldable pub succeeded : Option Host → Option Host
succeeded none = none
succeeded (some h) = some (record h { last_pause = 0 })
