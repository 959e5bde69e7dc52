-- ===== src/Ingester/Retry.antt =====
-- grpc_ingester/src/retry.rs: how long to wait before a write is tried again, in milliseconds. The
-- nanoseconds of the clock are an argument.
pub mod Markers
use native.Mathlib.Nat.{pow-le-pow_right, one-le-pow}
use das.Prelude.{
  ℕ, ◌≡◌, inl, inr, leb, Bool-cases, ◌+◌, ◌*◌, ◌/◌, ◌%◌, ◌^◌, ◌≤◌, ◌<◌, min, max, arith,
}

unfoldable pub base_ms : ℕ → ℕ
base_ms attempt = min (min (10 * 2 ^ min attempt 7) 0xffff_ffff_ffff_ffff) 1_000

unfoldable pub backoff : ℕ → ℕ → ℕ
unfolding base_ms
backoff nanos attempt =
    let base = base_ms attempt in let jitter_ms = nanos % max base 1 in base / 2 + jitter_ms / 2

capped : (a : ℕ) → a ≤ 7 → min a 7 ≡ a
capped a h = omega arith

capped_at_seven : (a : ℕ) → 7 ≤ a → min a 7 ≡ 7
capped_at_seven a h = omega arith

capped_small :
    (attempt : ℕ)
    → attempt ≤ 7
    → min (min (10 * 2 ^ min attempt 7) 0xffff_ffff_ffff_ffff) 1_000 ≡ min (10 * 2 ^ attempt) 1_000
capped_small attempt h =
    rw (capped attempt h) (no_overflow attempt (pow-le-pow_right (omega arith) h))
  where
    no_overflow :
        (a : ℕ)
        → 2 ^ a ≤ 2 ^ 7
        → min (min (10 * 2 ^ a) 0xffff_ffff_ffff_ffff) 1_000 ≡ min (10 * 2 ^ a) 1_000
    no_overflow a g = ground arith

capped_large :
    (attempt : ℕ)
    → 7 ≤ attempt
    → min (min (10 * 2 ^ min attempt 7) 0xffff_ffff_ffff_ffff) 1_000 ≡ min (10 * 2 ^ attempt) 1_000
capped_large attempt h = rw (capped_at_seven attempt h) (big (pow-le-pow_right (omega arith) h))
  where
    big : 2 ^ 7 ≤ 2 ^ attempt → 1_000 ≡ min (10 * 2 ^ attempt) 1_000
    big g = ground arith

-- The cap on the shift does not show: the base is 10ms doubled for each attempt, up to a second.
base_ms_lem : (attempt : ℕ) → base_ms attempt ≡ min (10 * 2 ^ attempt) 1_000
unfolding base_ms
base_ms_lem attempt = elim (Bool-cases (leb attempt 7)) [
  | inl h ↦ capped_small attempt (ground arith)
  | inr h ↦ capped_large attempt (ground arith)
]

halves : (base jitter : ℕ) → 2 ≤ base → jitter < base → base / 2 + jitter / 2 < base
halves base jitter h g = omega arith

-- The wait before a retry is at least half of the base, which is 10ms doubled for each attempt and
-- at most a second, and less than the whole of it.
pub backoff_bounds :
    (nanos attempt : ℕ)
    → let base = min (10 * 2 ^ attempt) 1_000 in
      (base / 2 ≤ backoff nanos attempt) × (backoff nanos attempt < base)
unfolding backoff
backoff_bounds nanos attempt =
    rw (base_ms_lem)
      (within (min (10 * 2 ^ attempt) 1_000) (ground (arith, one-le-pow attempt 2 (omega arith))))
  where
    within :
        (base : ℕ)
        → 2 ≤ base
        → (base / 2 ≤ base / 2 + nanos % max base 1 / 2)
          × (base / 2 + nanos % max base 1 / 2 < base)
    within base h = (omega arith, halves base (nanos % max base 1) h (ground arith))
