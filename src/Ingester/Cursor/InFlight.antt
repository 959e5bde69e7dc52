-- ===== src/Ingester/Cursor/InFlight.antt =====
-- cursor.rs: the cursor and the slots that have writes in flight.
use das.Prelude.{
  ℕ, ◌-◌, ◌<◌, ◌≡◌, refl, Bool, true, ◌&&◌, Option, none, some, List, [], ◌∷◌, ltb, min, arith,
}
use das.Ingester.Cursor.{
  Inner, raised, below_lowest, advanced, advance, load, count_up, count_down, begin, end, finalized,
}

-- The slot is above the watermark.
abbrev pub is_above : Option ℕ → ℕ → Bool
is_above none slot = true
is_above (some w) slot = ltb w slot

-- So is every slot in flight.
abbrev pub all_above : Option ℕ → List (ℕ × ℕ) → Bool
all_above w [] = true
all_above w ((k, n) ∷ rest) = is_above w k && all_above w rest

-- The slots ascend from one that is above `low`.
abbrev ascends : ℕ → List (ℕ × ℕ) → Bool
ascends low [] = true
ascends low ((k, n) ∷ rest) = ltb low k && ascends k rest

-- What may happen to the cursor between two gaps: an update is taken up only if its slot is above
-- the cursor.
pub data Step : Inner → Inner → Type 0 where
  begins :
      (i : Inner) (slot : ℕ) → 0 < slot → is_above i.watermark slot ≡ true → Step i (begin slot i)
  ends : (i : Inner) (slot : ℕ) → Step i (end slot i)
  finalizes : (i : Inner) (slot : ℕ) → Step i (finalized slot i)

pub data Reachable : Inner → Type 0 where
  loads : (start_slot saved : Option ℕ) → Reachable (load start_slot saved)
  steps : {i j : Inner} → Reachable i → Step i j → Reachable j

ascends-count_up :
    (low slot : ℕ) (l : List (ℕ × ℕ))
    → low < slot
    → ascends low l ≡ true
    → ascends low (count_up slot l) ≡ true
unfolding count_up
ascends-count_up low slot [] h a = ground arith
ascends-count_up low slot ((k, n) ∷ rest) h a = ground (arith, ascends-count_up k slot rest)

all_above-count_up :
    (w : Option ℕ) (slot : ℕ) (l : List (ℕ × ℕ))
    → is_above w slot ≡ true
    → all_above w l ≡ true
    → all_above w (count_up slot l) ≡ true
unfolding count_up
all_above-count_up w slot [] h a = ground arith
all_above-count_up w slot ((k, n) ∷ rest) h a = ground (arith, all_above-count_up w slot rest)

ascends_weaken :
    (low low' : ℕ) (l : List (ℕ × ℕ)) → low < low' → ascends low' l ≡ true → ascends low l ≡ true
ascends_weaken low low' [] h a = refl
ascends_weaken low low' ((k, n) ∷ rest) h a = ground arith

ascends-count_down :
    (low slot : ℕ) (l : List (ℕ × ℕ))
    → ascends low l ≡ true
    → ascends low (count_down slot l) ≡ true
unfolding count_down
ascends-count_down low slot [] a = refl
ascends-count_down low slot ((k, n) ∷ rest) a =
    ground (arith, ascends-count_down k slot rest, ascends_weaken low k rest)

all_above-count_down :
    (w : Option ℕ) (slot : ℕ) (l : List (ℕ × ℕ))
    → all_above w l ≡ true
    → all_above w (count_down slot l) ≡ true
unfolding count_down
all_above-count_down w slot [] a = refl
all_above-count_down w slot ((k, n) ∷ rest) a = ground (arith, all_above-count_down w slot rest)

-- The slots of an ascending list are above what is below its first.
all_above_first :
    (low v : ℕ) (l : List (ℕ × ℕ)) → v < low → ascends low l ≡ true → all_above (some v) l ≡ true
all_above_first low v [] h a = refl
all_above_first low v ((k, n) ∷ rest) h a = ground (arith, all_above_first k v rest)

all_above-raised :
    (w : Option ℕ) (v : ℕ) (l : List (ℕ × ℕ))
    → all_above w l ≡ true
    → all_above (some v) l ≡ true
    → all_above (raised w v) l ≡ true
unfolding raised
all_above-raised none v l h g = g
all_above-raised (some w) v l h g = ground arith

all_above-below_lowest :
    (c : ℕ) (l : List (ℕ × ℕ)) → ascends 0 l ≡ true → all_above (some (below_lowest l c)) l ≡ true
unfolding below_lowest
all_above-below_lowest c [] a = refl
all_above-below_lowest c ((k, n) ∷ rest) a = ground (arith, all_above_first k (min c (k - 1)) rest)

record Sound (i : Inner) : Type 0 where
  order : ascends 0 i.pending ≡ true
  above : all_above i.watermark i.pending ≡ true

advanced-above :
    (f : Option ℕ) (l : List (ℕ × ℕ)) (w : Option ℕ)
    → ascends 0 l ≡ true
    → all_above w l ≡ true
    → all_above (advanced f l w) l ≡ true
unfolding advanced
advanced-above none l w a h = h
advanced-above (some f) l w a h = all_above-raised w _ l h (all_above-below_lowest (f - 1) l a)

advance-Sound : (i : Inner) → Sound i → Sound (advance i)
unfolding advance
advance-Sound i h = record {
  order = h.order;
  above = advanced-above i.highest_finalized i.pending i.watermark h.order h.above;
}

load-Sound : (start_slot saved : Option ℕ) → Sound (load start_slot saved)
unfolding load
load-Sound none saved = record { order = refl; above = refl }
load-Sound (some s) saved = record { order = refl; above = refl }

Step-Sound : {i j : Inner} → Step i j → Sound i → Sound j
unfolding begin end finalized
Step-Sound (begins i slot p q) h = record {
  order = ascends-count_up 0 slot i.pending p h.order;
  above = all_above-count_up i.watermark slot i.pending q h.above;
}
Step-Sound (ends i slot) h = advance-Sound _ (record {
  order = ascends-count_down 0 slot i.pending h.order;
  above = all_above-count_down i.watermark slot i.pending h.above;
})
Step-Sound (finalizes i slot) h = advance-Sound _ (record { order = h.order; above = h.above })

Reachable-Sound : {i : Inner} → Reachable i → Sound i
Reachable-Sound (loads start_slot saved) = load-Sound start_slot saved
Reachable-Sound (steps r s) = Step-Sound s (Reachable-Sound r)

-- From a loaded cursor, as long as updates are taken up only from slots above the cursor and not
-- from slot 0, and no gap is recorded, every slot with writes in flight is above the cursor.
pub Reachable-all_above : (i : Inner) → Reachable i → all_above i.watermark i.pending ≡ true
Reachable-all_above i r = (Reachable-Sound r).above
