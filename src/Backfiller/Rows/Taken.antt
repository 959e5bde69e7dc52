-- ===== src/Backfiller/Rows/Taken.antt =====
-- get_trees_to_backfill: which trees are taken up.
use das.Prelude.{
  ◌≡◌, refl, ap, Bool-cases, inl, inr, ◌∙◌, Bool, true, false, not, ◌&&◌, ◌||◌, some, List, [], ◌∷◌,
  ◌++◌, map, filter, any, count, ltb, ◌==◌, if◌then◌else◌, arith,
}
use das.Database.{Pubkey}
use das.Backfiller.Rows.{
  BackfillRow, TreeWithSlot, BackfillTree, quiet, pure, ◌>>=◌, request, transaction, update_tree,
  is_free, is_forced, distinct, tree_with_slot, same_tree, same_tree_and_slot, force_chk_trees,
  free_count, multi_row_trees, locked, lock_trees, backfill_tree, get_trees_to_backfill,
}

module _ {A : Type 0} (q : A → Bool) where
  any-filter_kept :
      (p : A → Bool) (x : A) (ys : List A)
      → ((y : A) → p y ≡ false → q y ≡ q x)
      → (q x || any q (filter p ys)) ≡ (q x || any q ys)
  any-filter_kept p x [] h = refl
  any-filter_kept p x (y ∷ ys) h = ground (arith, h y, any-filter_kept p x ys h)

  any-distinct :
      (same : A → A → Bool) (xs : List A)
      → ((x y : A) → same x y ≡ true → q y ≡ q x)
      → any q (distinct same xs) ≡ any q xs
  unfolding distinct
  any-distinct same [] h = refl
  any-distinct same (x ∷ xs) h =
      any-filter_kept (λ y. not (same x y)) x (distinct same xs) (λ y e. h x y (ground arith))
      ∙ ap (λ b. q x || b) (any-distinct same xs h)

-- A tree among the trees of a query.
abbrev mentions : Pubkey → List TreeWithSlot → Bool
mentions t = any (λ k. k.tree == t)

-- The rows after the trees of a query are locked.
abbrev lock_all : List TreeWithSlot → List BackfillRow → List BackfillRow
lock_all [] rows = rows
lock_all (k ∷ ks) rows = lock_all ks (update_tree k.tree locked rows)

lock_trees-quiet :
    (ks : List TreeWithSlot) (rows : List BackfillRow)
    → lock_trees ks (quiet rows) ≡ (some tt, quiet (lock_all ks rows))
unfolding lock_trees pure request ◌>>=◌
lock_trees-quiet [] rows = refl
lock_trees-quiet (k ∷ ks) rows = lock_trees-quiet ks (update_tree k.tree locked rows)

is_free_locked : (r : BackfillRow) → is_free (locked r) ≡ false
is_free_locked r = ground arith

is_forced_locked : (r : BackfillRow) → is_forced (locked r) ≡ false
is_forced_locked r = ground arith

-- A tree has a free row with `force_chk`, or more than one free row.
abbrev pub wants : Pubkey → List BackfillRow → Bool
wants t rows = ltb 0 (count (λ r. is_forced r && r.tree == t) rows) || ltb 1 (free_count t rows)

module _ (t : Pubkey) where
  any-count :
      (p : BackfillRow → Bool) (rows : List BackfillRow)
      → mentions t (map tree_with_slot (filter p rows))
        ≡ ltb 0 (count (λ r. p r && r.tree == t) rows)
  any-count p [] = refl
  any-count p (r ∷ rows) = ground (arith, any-count p rows)

  -- A tree that is locked has no row left that asks for it.
  count-locked :
      (p : BackfillRow → Bool) (u : Pubkey) (rows : List BackfillRow)
      → ((r : BackfillRow) → p (locked r) ≡ false)
      → count (λ r. p r && r.tree == t) (update_tree u locked rows)
        ≡ (if u == t then 0 else count (λ r. p r && r.tree == t) rows)
  count-locked p u [] h = ground arith
  count-locked p u (r ∷ rows) h = ground (arith, h r, count-locked p u rows h)

  forced-mentions :
      (rows : List BackfillRow)
      → mentions t (force_chk_trees rows) ≡ ltb 0 (count (λ r. is_forced r && r.tree == t) rows)
  unfolding force_chk_trees
  forced-mentions rows =
      any-distinct (λ k. k.tree == t) same_tree_and_slot _ (λ x y e. ground arith)
      ∙ any-count is_forced rows

  mentions-map :
      (f : TreeWithSlot → TreeWithSlot) (ks : List TreeWithSlot)
      → ((k : TreeWithSlot) → (f k).tree ≡ k.tree)
      → mentions t (map f ks) ≡ mentions t ks
  mentions-map f [] h = refl
  mentions-map f (k ∷ ks) h = ground (arith, h k, mentions-map f ks h)

  mentions-having :
      (h : Pubkey → Bool) (ks : List TreeWithSlot)
      → mentions t (filter (λ k. h k.tree) ks) ≡ (mentions t ks && h t)
  mentions-having h [] = refl
  mentions-having h (k ∷ ks) = elim (Bool-cases (k.tree == t)) [
    | inl e ↦
        let same : k.tree ≡ t = ground arith in
        ground (arith, same, ap h same, mentions-having h ks)
    | inr e ↦ ground (arith, mentions-having h ks)
  ]

  multi-mentions :
      (rows : List BackfillRow) → mentions t (multi_row_trees rows) ≡ ltb 1 (free_count t rows)
  unfolding multi_row_trees
  multi-mentions rows =
      mentions-map _ _ (λ k. refl)
      ∙ mentions-having (λ u. ltb 1 (free_count u rows)) _
      ∙ ap (λ b. b && ltb 1 (free_count t rows))
          (any-distinct (λ k. k.tree == t) same_tree _ (λ x y e. ground arith)
            ∙ any-count is_free rows)
      ∙ ground arith

  -- What is left of the rows that ask for a tree, after some trees are locked.
  lock_all-count :
      (p : BackfillRow → Bool) (ks : List TreeWithSlot) (rows : List BackfillRow)
      → ((r : BackfillRow) → p (locked r) ≡ false)
      → count (λ r. p r && r.tree == t) (lock_all ks rows)
        ≡ (if mentions t ks then 0 else count (λ r. p r && r.tree == t) rows)
  lock_all-count p [] rows h = refl
  lock_all-count p (k ∷ ks) rows h =
      lock_all-count p ks (update_tree k.tree locked rows) h
      ∙ ground (arith, count-locked p k.tree rows h)

  wants-lock_all :
      (ks : List TreeWithSlot) (rows : List BackfillRow)
      → wants t (lock_all ks rows) ≡ (not (mentions t ks) && wants t rows)
  wants-lock_all ks rows = ground (
    arith,
    lock_all-count is_forced ks rows is_forced_locked,
    lock_all-count is_free ks rows is_free_locked,
  )

  wants-locked :
      (rows : List BackfillRow)
      → let rows1 = lock_all (force_chk_trees rows) rows in
        let rows2 = lock_all (multi_row_trees rows1) rows1 in
        ((mentions t (force_chk_trees rows) || mentions t (multi_row_trees rows1)) ≡ wants t rows)
        × (wants t rows2 ≡ false)
  wants-locked rows =
      let rows1 = lock_all (force_chk_trees rows) rows in
      let f = forced-mentions rows in
      let m = multi-mentions rows1 in
      let w = wants-lock_all (force_chk_trees rows) rows in
      let w' = wants-lock_all (multi_row_trees rows1) rows1 in
      let c = lock_all-count is_free (force_chk_trees rows) rows is_free_locked in
      (ground (arith, f, m, c), ground (arith, f, m, w, w', c))

-- A tree among those that were taken up.
abbrev pub takes : Pubkey → List BackfillTree → Bool
takes t = any (λ b. b.unique_tree == t)

takes-append :
    (t : Pubkey) (from_1 from_1' : Bool) (ks ks' : List TreeWithSlot)
    → takes t (map (backfill_tree from_1) ks ++ map (backfill_tree from_1') ks')
      ≡ (mentions t ks || mentions t ks')
takes-append t b b' [] [] = refl
takes-append t b b' [] (k ∷ ks') = ap (λ x. (k.tree == t) || x) (takes-append t b b' [] ks')
takes-append t b b' (k ∷ ks) ks' = ground (arith, takes-append t b b' ks ks')

mentions_none : (ks : List TreeWithSlot) → ((t : Pubkey) → mentions t ks ≡ false) → ks ≡ []
mentions_none [] h = refl
mentions_none (k ∷ ks) h = ground (arith, h k.tree)

abbrev take_up : List BackfillRow → List BackfillTree × List BackfillRow
take_up rows =
    let rows1 = lock_all (force_chk_trees rows) rows in
    (
      map (backfill_tree true) (force_chk_trees rows)
          ++ map (backfill_tree false) (multi_row_trees rows1),
      lock_all (multi_row_trees rows1) rows1,
    )

get_trees_to_backfill-quiet :
    (rows : List BackfillRow)
    → get_trees_to_backfill (quiet rows) ≡ (some (take_up rows).0, quiet (take_up rows).1)
unfolding get_trees_to_backfill transaction request pure ◌>>=◌
get_trees_to_backfill-quiet rows =
    let rows1 = lock_all (force_chk_trees rows) rows in
    rw
      (lock_trees-quiet (force_chk_trees rows) rows, lock_trees-quiet (multi_row_trees rows1) rows1)
      refl

-- Nothing is wanted: nothing is taken up.
take_up_none :
    (rows : List BackfillRow) → ((t : Pubkey) → wants t rows ≡ false) → take_up rows ≡ ([], rows)
take_up_none rows h =
    let f : force_chk_trees rows ≡ [] =
      mentions_none _ (λ t. ground (arith, h t, forced-mentions t rows)) in
    let m : multi_row_trees rows ≡ [] =
      mentions_none _ (λ t. ground (arith, h t, multi-mentions t rows)) in
    rw f (rw m refl)

-- If no request fails: the trees that are taken up are exactly those that have a free row with
-- `force_chk`, or more than one free row (neither failed nor locked), and asking again right
-- afterwards takes up none and changes nothing.
pub get_trees_to_backfill_once :
    (rows : List BackfillRow)
    → (trees : List BackfillTree) × (rows' : List BackfillRow) × (get_trees_to_backfill (quiet rows)
        ≡ (some trees, quiet rows'))
      × ((t : Pubkey) → takes t trees ≡ wants t rows)
      × (get_trees_to_backfill (quiet rows') ≡ (some [], quiet rows'))
get_trees_to_backfill_once rows =
    let rows1 = lock_all (force_chk_trees rows) rows in
    (
      (take_up rows).0,
      (take_up rows).1,
      get_trees_to_backfill-quiet rows,
      λ t.
          takes-append t true false (force_chk_trees rows) (multi_row_trees rows1)
          ∙ (wants-locked t rows).0,
      get_trees_to_backfill-quiet (take_up rows).1
          ∙ ap (λ p. (some p.0, quiet p.1)) (take_up_none _ (λ t. (wants-locked t rows).1)),
    )
