-- ===== src/Ingester/Cursor.antt =====
-- grpc_ingester/src/cursor.rs: the slot to resume from. `Inner` is what the mutex guards, so every
-- method is one atomic step. The saved file is given by its number, if there is one.
pub mod InFlight
pub mod Progress
use das.Prelude.{
  ℕ, ◌+◌, ◌-◌, ◌%◌, ◌^◌, ◌<◌, ◌≡◌, Bool, true, false, Option, none, some, List, [], ◌∷◌, ◌==◌, ltb,
  if◌then◌else◌, min, max, length,
}

-- `pending` is a map from slots to the number of writes in flight, in the order of the slots.
pub record Inner : Type 0 where
  pub pending : List (ℕ × ℕ)
  pub highest_finalized : Option ℕ
  pub watermark : Option ℕ

-- `watermark.is_none_or(|w| candidate > w)`, and then the candidate is the new watermark.
unfoldable pub raised : Option ℕ → ℕ → Option ℕ
raised none candidate = some candidate
raised (some w) candidate = if ltb w candidate then some candidate else some w

-- At most one less than the lowest slot in flight.
unfoldable pub below_lowest : List (ℕ × ℕ) → ℕ → ℕ
below_lowest [] candidate = candidate
below_lowest ((lowest_pending, n) ∷ _) candidate = min candidate (lowest_pending - 1)

unfoldable pub advanced : Option ℕ → List (ℕ × ℕ) → Option ℕ → Option ℕ
unfolding raised below_lowest
advanced none pending w = w
advanced (some finalized) pending w = raised w (below_lowest pending (finalized - 1))

unfoldable pub advance : Inner → Inner
unfolding advanced
advance i = record i { watermark = advanced i.highest_finalized i.pending i.watermark }

-- The watermark that `load` starts with, for `--start-slot` and the saved cursor.
unfoldable pub load : Option ℕ → Option ℕ → Inner
load (some slot) saved = record {
  pending = [];
  highest_finalized = none;
  watermark = some (slot - 1);
}
load none saved = record { pending = []; highest_finalized = none; watermark = saved }

-- `w + 1` on a u64.
unfoldable pub resume_slot : Inner → Option ℕ
resume_slot i = elim i.watermark [ none ↦ none | some w ↦ some ((w + 1) % 2 ^ 64) ]

-- `*pending.entry(slot).or_default() += 1`
unfoldable pub count_up : ℕ → List (ℕ × ℕ) → List (ℕ × ℕ)
count_up slot [] = (slot, 1) ∷ []
count_up slot ((k, n) ∷ rest) =
    let later = count_up slot rest in
    if ltb slot k
    then (slot, 1) ∷ (k, n) ∷ rest
    else (if k == slot then (k, (n + 1) % 2 ^ 64) ∷ rest else (k, n) ∷ later)

-- One write less for the slot, and no entry once none is left.
unfoldable pub count_down : ℕ → List (ℕ × ℕ) → List (ℕ × ℕ)
count_down slot [] = []
count_down slot ((k, n) ∷ rest) =
    let n' = (n + 0xffff_ffff_ffff_ffff) % 2 ^ 64 in
    let others = count_down slot rest in
    if k == slot then (if n' == 0 then rest else (k, n') ∷ rest) else (k, n) ∷ others

unfoldable pub begin : ℕ → Inner → Inner
unfolding count_up
begin slot i = record i { pending = count_up slot i.pending }

unfoldable pub end : ℕ → Inner → Inner
unfolding count_down advance
end slot i = advance (record i { pending = count_down slot i.pending })

unfoldable pub highest : Option ℕ → ℕ → ℕ
highest none slot = slot
highest (some h) slot = max h slot

unfoldable pub finalized : ℕ → Inner → Inner
unfolding advance highest
finalized slot i =
    advance (record i { highest_finalized = some (highest i.highest_finalized slot) })

-- What `record_gap` does to the cursor once the gap has been written to the log.
unfoldable pub record_gap : ℕ → ℕ → Inner → Inner
unfolding raised
record_gap from to_exclusive i = record i { watermark = raised i.watermark (to_exclusive - 1) }
