-- ===== src/Backfiller/Blocks.antt =====
-- nft_ingester/src/backfiller.rs: the ranges of slots that `plug_gap` asks the RPC node for.
pub mod Covered
use das.Prelude.{
  ℕ, zero, suc, ◌+◌, ◌-◌, ◌/◌, ℤ, pos, negsuc, List, [], ◌∷◌, ◌+ℤ◌, wrap_i64, ◌-ℤ◌, min_ℤ, eqb_ℤ,
  as_u64, if◌then◌else◌,
}
use das.Backfiller.Gaps.{SimpleBackfillItem, GapInfo}

-- `/ 500_000` on i64, which rounds to 0.
abbrev pub div_batch : ℤ → ℤ
div_batch (pos n) = pos (n / 500_000)
div_batch (negsuc n) = pos 0 -ℤ pos ((n + 1) / 500_000)

-- `for _ in 0..num_iter`: no round, if it is negative.
abbrev pub rounds : ℤ → ℕ
rounds (pos n) = n
rounds (negsuc n) = 0

-- The sums and differences of i64 wrap around, as in a release build. `num_iter`, once 0 has become 1.
abbrev pub num_iter : ℤ → ℕ
num_iter diff =
    let n = div_batch (wrap_i64 (diff +ℤ pos 250_000)) in if eqb_ℤ n (pos 0) then 1 else rounds n

unfoldable pub block_ranges : ℕ → ℤ → ℤ → ℤ → List (ℕ × ℕ)
block_ranges zero start_slot end_slot last = []
block_ranges (suc n) start_slot end_slot last =
    (as_u64 start_slot, as_u64 end_slot)
    ∷ block_ranges n end_slot (min_ℤ (wrap_i64 (end_slot +ℤ pos 500_000)) last) last

-- The arguments of the calls of `get_blocks_with_commitment`.
unfoldable pub requested_ranges : GapInfo → List (ℕ × ℕ)
requested_ranges gap =
    let diff = wrap_i64 (gap.curr.slot -ℤ gap.prev.slot) in
    block_ranges (num_iter diff) gap.prev.slot
      (wrap_i64 (gap.prev.slot +ℤ min_ℤ (pos 500_000) diff)) gap.curr.slot
