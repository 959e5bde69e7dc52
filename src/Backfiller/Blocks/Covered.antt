-- ===== src/Backfiller/Blocks/Covered.antt =====
-- plug_gap: which slots of a gap are asked for.
use das.Prelude.{
  wrap_i64, wrap_i64_id, i64_max, eqb_ℤ, if◌then◌else◌, ℕ, zero, suc, ◌+◌, ◌-◌, ◌*◌, ◌/◌, ◌≤◌, pos,
  ◌≡◌, ap, ◌∙◌, Bool, ◌&&◌, ◌||◌, any, leb, min, max, arith, ◌+ℤ◌, ◌-ℤ◌, min_ℤ,
}
use das.Backfiller.Gaps.{GapInfo}
use das.Backfiller.Blocks.{div_batch, rounds, block_ranges, requested_ranges, num_iter}

abbrev pub contains : ℕ → ℕ × ℕ → Bool
contains slot (a, b) = leb a slot && leb slot b

add_wrap : (a b : ℕ) → a + b ≤ i64_max → wrap_i64 (pos a +ℤ pos b) ≡ pos (a + b)
add_wrap a b h = ap wrap_i64 (add_pos a b) ∙ wrap_i64_id (a + b) h
  where
    add_pos : (a b : ℕ) → pos a +ℤ pos b ≡ pos (a + b)
    add_pos a b = ground arith

sub_wrap : (a d : ℕ) → d ≤ i64_max → wrap_i64 (pos (a + d) -ℤ pos a) ≡ pos d
sub_wrap a d h = ap wrap_i64 (sub_pos a d) ∙ wrap_i64_id d h
  where
    sub_pos : (a d : ℕ) → pos (a + d) -ℤ pos a ≡ pos d
    sub_pos a d = ground arith

min_pos : (a b : ℕ) → min_ℤ (pos a) (pos b) ≡ pos (min a b)
min_pos a b = ground arith

next_end :
    (e last : ℕ)
    → e + 500_000 ≤ i64_max
    → min_ℤ (wrap_i64 (pos e +ℤ pos 500_000)) (pos last) ≡ pos (min (e + 500_000) last)
next_end e last h = ap (λ z. min_ℤ z (pos last)) (add_wrap e 500_000 h) ∙ min_pos (e + 500_000) last

-- The ranges go on from one another.
block_ranges_covered :
    (n s e last slot : ℕ)
    → s ≤ e
    → e ≤ last
    → last + 500_000 ≤ i64_max
    → any (contains slot) (block_ranges (suc n) (pos s) (pos e) (pos last))
      ≡ (leb s slot && leb slot (min last (e + 500_000 * n)))
unfolding block_ranges
block_ranges_covered zero s e last slot h k b = ground arith
block_ranges_covered (suc n) s e last slot h k b =
    ap
      (λ z. contains slot (s, e) || any (contains slot) (block_ranges (suc n) (pos e) z (pos last)))
      (next_end e last (omega arith))
    ∙ ground (arith, block_ranges_covered n e (min (e + 500_000) last) last slot)

-- The rounds of the loop: at least one.
abbrev pub batches : ℕ → ℕ
batches diff = max 1 ((diff + 250_000) / 500_000)

num_iter_lem : (diff : ℕ) → diff + 250_000 ≤ i64_max → num_iter (pos diff) ≡ batches diff
num_iter_lem diff h =
    ap (λ z. let n = div_batch z in if eqb_ℤ n (pos 0) then 1 else rounds n)
      (add_wrap diff 250_000 h)
    ∙ ground arith

first_end :
    (first diff : ℕ)
    → first + diff ≤ i64_max
    → wrap_i64 (pos first +ℤ min_ℤ (pos 500_000) (pos diff)) ≡ pos (first + min 500_000 diff)
first_end first diff h =
    ap (λ z. wrap_i64 (pos first +ℤ z)) (min_pos 500_000 diff)
    ∙ add_wrap first (min 500_000 diff) (omega arith)

-- Of a gap whose slots run from `first` to `first + diff`, a slot is in a requested range exactly if
-- it lies in the gap, and at most 500,000 times the rounds of the loop above its first slot: the
-- rounds are `diff / 500,000`, rounded to the nearest number and at least one, so that of a gap of
-- 700,000 slots the last 200,000 are never asked for. (The gap's last slot is at most 2^63 - 1 - 500,000,
-- so that no sum overflows.)
pub requested_ranges_covered :
    (gap : GapInfo) (first diff slot : ℕ)
    → gap.prev.slot ≡ pos first
    → gap.curr.slot ≡ pos (first + diff)
    → first + diff + 500_000 ≤ i64_max
    → any (contains slot) (requested_ranges gap)
      ≡ (leb first slot && leb slot (first + min diff (500_000 * batches diff)))
unfolding requested_ranges
requested_ranges_covered gap first diff slot p q b =
    let n : ℕ = batches diff - 1 in
    let e : batches diff ≡ suc n = omega arith in
    let rounds : num_iter (pos diff) ≡ suc n = num_iter_lem diff (omega arith) ∙ e in
    rw (p, q, sub_wrap first diff (omega arith), rounds, first_end first diff (omega arith))
      (block_ranges_covered n first (first + min 500_000 diff) (first + diff) slot (omega arith)
          (omega arith) b
        ∙ ap (λ m. leb first slot && leb slot m) (ground arith))
