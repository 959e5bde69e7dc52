-- ===== src/Backfiller/Gaps/Complete.antt =====
-- get_missing_data: the gaps and the rows account for every sequence number.
use das.Prelude.{
  ℤ, pos, sym, subst, if◌then◌else◌, ◌-ℤ◌, ◌≡◌, refl, ap, ◌∙◌, Bool, true, false, not, ◌&&◌, ◌||◌,
  Option, some, List, [], ◌∷◌, any, All, ltb_ℤ, eqb_ℤ, ◌≤ℤ◌, ◌<ℤ◌, ◌==◌, Bool-cases, inl, inr,
  arith,
}
use das.Database.{Pubkey}
use das.Backfiller.Rows.{BackfillRow}
use das.Backfiller.Gaps.{
  SimpleBackfillItem, GapInfo, Missing, found, identical_seqs, and_gap, gaps_after, find_gaps,
  start_seq, insert_distinct, item, rows_from, last_seq, with_max, get_missing_data,
}

-- A number with a row, and a number strictly inside of a gap.
abbrev has : ℤ → List SimpleBackfillItem → Bool
has n = any (λ x. eqb_ℤ x.seq n)

abbrev pub in_gap : ℤ → List GapInfo → Bool
in_gap n = any (λ g. ltb_ℤ g.prev.seq n && ltb_ℤ n g.curr.seq)

abbrev pub recorded : Pubkey → ℤ → List BackfillRow → Bool
recorded tree n = any (λ r. r.tree == tree && eqb_ℤ r.seq n)

abbrev From : ℤ → List SimpleBackfillItem → Type 0
From a = All (λ y. a ≤ℤ y.seq)

abbrev Sorted : List SimpleBackfillItem → Type 0
Sorted [] = Unit
Sorted (x ∷ xs) = From x.seq xs × Sorted xs

From-le : (a b : ℤ) (xs : List SimpleBackfillItem) → a ≤ℤ b → From b xs → From a xs
From-le a b [] h k = tt
From-le a b (x ∷ xs) h (k, ks) = (omega arith, From-le a b xs h ks)

has-From : (a n : ℤ) (xs : List SimpleBackfillItem) → From a xs → n <ℤ a → has n xs ≡ false
has-From a n [] h k = refl
has-From a n (x ∷ xs) (h, hs) k = ground (arith, has-From a n xs hs k)

insert_distinct-From :
    (a : ℤ) (x : SimpleBackfillItem) (ys : List SimpleBackfillItem)
    → a ≤ℤ x.seq
    → From a ys
    → From a (insert_distinct x ys)
unfolding insert_distinct
insert_distinct-From a x [] h k = (h, tt)
insert_distinct-From a x (y ∷ ys) h (k, ks) = ground (arith, insert_distinct-From a x ys h ks)

insert_distinct-Sorted :
    (x : SimpleBackfillItem) (ys : List SimpleBackfillItem)
    → Sorted ys
    → Sorted (insert_distinct x ys)
unfolding insert_distinct
insert_distinct-Sorted x [] h = (tt, tt)
insert_distinct-Sorted x (y ∷ ys) (k, h) = elim (Bool-cases (ltb_ℤ x.seq y.seq)) [
  | inl e ↦ rw e ((ground arith, From-le x.seq y.seq ys (ground arith) k), (k, h))
  | inr e ↦
      let from = insert_distinct-From y.seq x ys (ground arith) k in
      let sorted = insert_distinct-Sorted x ys h in ground arith
]

has-insert_distinct :
    (n : ℤ) (x : SimpleBackfillItem) (ys : List SimpleBackfillItem)
    → has n (insert_distinct x ys) ≡ (eqb_ℤ x.seq n || has n ys)
unfolding insert_distinct
has-insert_distinct n x [] = refl
has-insert_distinct n x (y ∷ ys) = ground (arith, has-insert_distinct n x ys)

rows_from-Sorted :
    (tree : Pubkey) (start : ℤ) (rows : List BackfillRow) → Sorted (rows_from tree start rows)
unfolding rows_from
rows_from-Sorted tree start [] = tt
rows_from-Sorted tree start (r ∷ rows) =
    let rest = rows_from-Sorted tree start rows in
    let more = insert_distinct-Sorted (item r) (rows_from tree start rows) rest in ground arith

has-rows_from :
    (tree : Pubkey) (start n : ℤ) (rows : List BackfillRow)
    → start ≤ℤ n
    → has n (rows_from tree start rows) ≡ recorded tree n rows
unfolding rows_from
has-rows_from tree start n [] h = refl
has-rows_from tree start n (r ∷ rows) h = ground (
  arith,
  has-insert_distinct n (item r) (rows_from tree start rows),
  has-rows_from tree start n rows h,
)

abbrev with_gap : SimpleBackfillItem → SimpleBackfillItem → List GapInfo → List GapInfo
with_gap prev curr gaps =
    if ltb_ℤ (pos 1) (curr.seq -ℤ prev.seq)
    then record { prev = prev; curr = curr } ∷ gaps
    else gaps

found_inj : {A : Type 0} {x y : A} → found x ≡ found y → x ≡ y
found_inj h = cc

identical-ne-found : {A : Type 0} {a b : ℤ} {x : A} → found x ≡ identical_seqs a b → ⊥
identical-ne-found h = cc

and_gap-found :
    (prev curr : SimpleBackfillItem) (r : Missing (List GapInfo)) (gaps : List GapInfo)
    → eqb_ℤ curr.seq prev.seq ≡ false
    → and_gap prev curr r ≡ found gaps
    → (rest : List GapInfo) × (r ≡ found rest)
      × (eqb_ℤ curr.seq prev.seq ≡ false)
      × (gaps ≡ with_gap prev curr rest)
and_gap-found prev curr (found rest) gaps e h = (rest, refl, e, sym (found_inj h))
and_gap-found prev curr (identical_seqs a b) gaps e h = absurd (identical-ne-found (sym h))

gaps_after_nil : (prev : SimpleBackfillItem) → found [] ≡ gaps_after prev []
unfolding gaps_after
gaps_after_nil prev = refl

gaps_after-found :
    (prev curr : SimpleBackfillItem) (rows : List SimpleBackfillItem) (gaps : List GapInfo)
    → gaps_after prev (curr ∷ rows) ≡ found gaps
    → (rest : List GapInfo) × (gaps_after curr rows ≡ found rest)
      × (eqb_ℤ curr.seq prev.seq ≡ false)
      × (gaps ≡ with_gap prev curr rest)
unfolding gaps_after
gaps_after-found prev curr rows gaps h = elim (Bool-cases (eqb_ℤ curr.seq prev.seq)) [
  | inl e ↦ absurd (identical-ne-found (sym (rw e at h)))
  | inr e ↦ and_gap-found prev curr (gaps_after curr rows) gaps e (rw e at h)
]

-- A number below the first row is in no gap.
in_gap_below :
    (n : ℤ) (prev : SimpleBackfillItem) (rows : List SimpleBackfillItem) (gaps : List GapInfo)
    → gaps_after prev rows ≡ found gaps
    → Sorted (prev ∷ rows)
    → n ≤ℤ prev.seq
    → in_gap n gaps ≡ false
in_gap_below n prev [] gaps h s k =
    subst (λ g. in_gap n g ≡ false) (found_inj (gaps_after_nil prev ∙ h)) refl
in_gap_below n prev (curr ∷ rows) gaps h ((f, fs), s) k =
    let (rest, e, d, g) = gaps_after-found prev curr rows gaps h in
    ap (in_gap n) g ∙ ground (arith, in_gap_below n curr rows rest e s (omega arith))

in_gap-gaps_after :
    (n m : ℤ) (prev : SimpleBackfillItem) (rows : List SimpleBackfillItem) (gaps : List GapInfo)
    → gaps_after prev rows ≡ found gaps
    → Sorted (prev ∷ rows)
    → prev.seq ≤ℤ n
    → n ≤ℤ m
    → last_seq (prev ∷ rows) ≡ some m
    → in_gap n gaps ≡ not (has n (prev ∷ rows))
in_gap-gaps_after n m prev [] gaps h s k l e =
    subst (λ g. in_gap n g ≡ not (has n (prev ∷ []))) (found_inj (gaps_after_nil prev ∙ h))
      (ground arith)
in_gap-gaps_after n m prev (curr ∷ rows) gaps h ((f, fs), s) k l e =
    let (rest, e', d, g) = gaps_after-found prev curr rows gaps h in
    ap (in_gap n) g ∙ elim (Bool-cases (ltb_ℤ n curr.seq)) [
      | inl below ↦
          let no_row = has-From curr.seq n rows s.0 (ground arith) in
          let no_gap = in_gap_below n curr rows rest e' s (ground arith) in ground arith
      | inr above ↦
          let rest_lem = in_gap-gaps_after n m curr rows rest e' s (ground arith) l e in
          ground arith
    ]

with_max-found :
    (l : List SimpleBackfillItem) (r : Missing (List GapInfo)) (m : Option ℤ) (gaps : List GapInfo)
    → with_max l r ≡ found (m, gaps)
    → (r ≡ found gaps) × (last_seq l ≡ m)
with_max-found l (found gaps') m gaps h =
    let p = found_inj h in (ap (λ q. found q.1) p, ap (λ q. q.0) p)
with_max-found l (identical_seqs a b) m gaps h = absurd (identical-ne-found (sym h))

in_gap-find_gaps :
    (l : List SimpleBackfillItem) (a n m : ℤ) (gaps : List GapInfo)
    → Sorted l
    → with_max l (find_gaps l) ≡ found (some m, gaps)
    → has a l ≡ true
    → a ≤ℤ n
    → n ≤ℤ m
    → in_gap n gaps ≡ not (has n l)
unfolding find_gaps
in_gap-find_gaps [] a n m gaps s h k p q = cc
in_gap-find_gaps (x ∷ xs) a n m gaps s h k p q =
    let (e, last) = with_max-found (x ∷ xs) (gaps_after x xs) (some m) gaps h in
    in_gap-gaps_after n m x xs gaps e s (ground (arith, has-From x.seq a xs s.0)) q last

-- If the gaps of a tree are found, then a number between two recorded ones, from the start on and
-- up to the last, is either recorded or strictly inside of a gap, and not both: no missing number
-- is overlooked, and no recorded one is sought again.
pub get_missing_data_lem :
    (tree : Pubkey) (rows : List BackfillRow) (a n m : ℤ) (gaps : List GapInfo)
    → get_missing_data tree rows ≡ found (some m, gaps)
    → recorded tree a rows ≡ true
    → start_seq tree rows ≤ℤ a
    → a ≤ℤ n
    → n ≤ℤ m
    → in_gap n gaps ≡ not (recorded tree n rows)
unfolding get_missing_data
get_missing_data_lem tree rows a n m gaps h k s p q =
    let start = start_seq tree rows in
    in_gap-find_gaps (rows_from tree start rows) a n m gaps (rows_from-Sorted tree start rows) h
      (has-rows_from tree start a rows s ∙ k) p q
    ∙ ap not (has-rows_from tree start n rows (omega arith))
