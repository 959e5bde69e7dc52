-- ===== src/Ingester/Cursor/Progress.antt =====
-- cursor.rs: how the cursor moves.
use das.Prelude.{
  ℕ, ◌-◌, ◌≡◌, refl, Bool, true, false, Option, none, some, List, [], ◌∷◌, leb, arith,
}
use das.Ingester.Cursor.{
  Inner, raised, below_lowest, advanced, advance, begin, end, highest, finalized, record_gap,
}

-- The second watermark is not below the first.
abbrev pub is_at_least : Option ℕ → Option ℕ → Bool
is_at_least none w' = true
is_at_least (some w) none = false
is_at_least (some w) (some w') = leb w w'

refl_at_least : (w : Option ℕ) → is_at_least w w ≡ true
refl_at_least none = refl
refl_at_least (some w) = ground arith

raised_at_least : (w : Option ℕ) (c : ℕ) → is_at_least w (raised w c) ≡ true
unfolding raised
raised_at_least none c = refl
raised_at_least (some w) c = ground arith

advanced_at_least :
    (f : Option ℕ) (l : List (ℕ × ℕ)) (w : Option ℕ) → is_at_least w (advanced f l w) ≡ true
unfolding advanced
advanced_at_least none l w = refl_at_least w
advanced_at_least (some f) l w = raised_at_least w _

-- No operation moves the cursor back: not a begun or ended write, a finalized slot, nor a gap.
pub watermark_monotone :
    (i : Inner) (slot to_exclusive : ℕ)
    → (is_at_least i.watermark (begin slot i).watermark ≡ true)
      × (is_at_least i.watermark (end slot i).watermark ≡ true)
      × (is_at_least i.watermark (finalized slot i).watermark ≡ true)
      × (is_at_least i.watermark (record_gap slot to_exclusive i).watermark ≡ true)
unfolding begin end finalized record_gap advance
watermark_monotone i slot to_exclusive = (
  refl_at_least i.watermark,
  advanced_at_least i.highest_finalized _ i.watermark,
  advanced_at_least (some (highest i.highest_finalized slot)) i.pending i.watermark,
  raised_at_least i.watermark (to_exclusive - 1),
)

at_least_trans :
    (a b : ℕ) (w : Option ℕ)
    → leb a b ≡ true
    → is_at_least (some b) w ≡ true
    → is_at_least (some a) w ≡ true
at_least_trans a b none h g = absurd (cc)
at_least_trans a b (some w) h g = ground arith

below_highest : (o : Option ℕ) (slot : ℕ) → leb (slot - 1) (highest o slot - 1) ≡ true
unfolding highest
below_highest none slot = ground arith
below_highest (some h) slot = ground arith

advanced_to :
    (f : ℕ) (l : List (ℕ × ℕ)) (w : Option ℕ)
    → l ≡ []
    → is_at_least (some (f - 1)) (advanced (some f) l w) ≡ true
unfolding advanced raised below_lowest
advanced_to f [] none h = ground arith
advanced_to f [] (some w) h = ground arith
advanced_to f (e ∷ l) w h = absurd (cc)

-- When the end of a write leaves none in flight, the cursor is at the slot before the newest
-- finalized one, or beyond it.
pub end_catches_up :
    (i : Inner) (slot f : ℕ)
    → i.highest_finalized ≡ some f
    → (end slot i).pending ≡ []
    → is_at_least (some (f - 1)) (end slot i).watermark ≡ true
unfolding end advance
end_catches_up i slot f h e = rw (h) (advanced_to f _ i.watermark e)

-- When a slot is finalized with no write in flight, the cursor is at the slot before it or beyond.
pub finalized_catches_up :
    (i : Inner) (slot : ℕ)
    → i.pending ≡ []
    → is_at_least (some (slot - 1)) (finalized slot i).watermark ≡ true
unfolding finalized advance highest
finalized_catches_up i slot e =
    at_least_trans (slot - 1) (highest i.highest_finalized slot - 1) _
      (below_highest i.highest_finalized slot)
      (advanced_to (highest i.highest_finalized slot) i.pending i.watermark e)
