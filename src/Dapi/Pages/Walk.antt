-- ===== src/Dapi/Pages/Walk.antt =====
-- Walking through the pages of a query.
use das.Prelude.{
  ℕ, zero, suc, ◌+◌, ◌-◌, ◌*◌, ◌≡◌, refl, sym, ap, ◌∙◌, Bool, true, false, some, List, [], ◌∷◌,
  ◌++◌, length, All, ltb, arith,
}
use native.Mathlib.Numerals.{unary_clauses}
use das.Dapi.Pages.{Bytes, Pagination, Order, take, drop, filter, beyond, skip_pages, paginate}

module _ {R : Type 0} (p : R → Bool) where
  filter_same : (xs : List R) → All (λ x. p x ≡ true) xs → filter p xs ≡ xs
  filter_same [] h = refl
  filter_same (x ∷ xs) (h, hs) = rw (h) (ap (λ l. x ∷ l) (filter_same xs hs))

  -- What stands before a row that does not pass, and does not pass either, goes.
  filter-tail :
      (xs ys : List R) (c : R)
      → All (λ x. p x ≡ false) xs
      → p c ≡ false
      → All (λ y. p y ≡ true) ys
      → filter p (xs ++ c ∷ ys) ≡ ys
  filter-tail [] ys c h hc k = rw (hc) (filter_same ys k)
  filter-tail (x ∷ xs) ys c (h, hs) hc k = rw (h) (filter-tail xs ys c hs hc k)

drop-append : {R : Type 0} (xs ys : List R) (c : R) → drop (suc (length xs)) (xs ++ c ∷ ys) ≡ ys
drop-append [] ys c = refl
drop-append (x ∷ xs) ys c = drop-append xs ys c

skip_pages-suc :
    {R : Type 0} (column : R → Bytes) (below : Bytes → Bytes → Bool) (k limit : ℕ) (rows : List R)
    → skip_pages column below (suc k) limit rows ≡ drop (k * limit) rows
skip_pages-suc column below k limit rows =
    let positive : ltb 0 (suc k) ≡ true = ground arith in
    let before : (suc k - 1) ≡ k = omega arith in rw (positive, before) refl

zero_add : (b : ℕ) → 0 + b ≡ b
zero_add b = omega arith

zero_mul : (n : ℕ) → 0 * n ≡ 0
zero_mul n = omega arith

suc_add : (a b : ℕ) → suc a + b ≡ suc (a + b)
suc_add a b = omega arith

take-add : {R : Type 0} (a b : ℕ) (xs : List R) → take (a + b) xs ≡ take a xs ++ take b (drop a xs)
take-add zero b xs = ap (λ n. take n xs) (zero_add b)
take-add (suc a) zero [] = simp unary_clauses refl
take-add (suc a) (suc b) [] = simp unary_clauses refl
take-add (suc a) b (x ∷ xs) =
    ap (λ n. take n (x ∷ xs)) (suc_add a b) ∙ ap (λ l. x ∷ l) (take-add a b xs)

drop-add : {R : Type 0} (a b : ℕ) (xs : List R) → drop (a + b) xs ≡ drop b (drop a xs)
drop-add zero b xs = ap (λ n. drop n xs) (zero_add b)
drop-add (suc a) zero [] = simp unary_clauses refl
drop-add (suc a) (suc b) [] = simp unary_clauses refl
drop-add (suc a) b (x ∷ xs) = ap (λ n. drop n (x ∷ xs)) (suc_add a b) ∙ drop-add a b xs

module _ {R : Type 0} (column : R → Bytes) (below : Bytes → Bytes → Bool) where
  -- `a` stands before `b` in the order of the statement.
  abbrev pub precedes : Order → R → R → Bool
  precedes Order.asc a b = below (column a) (column b)
  precedes Order.desc a b = below (column b) (column a)

  -- A cursor on a row of the ordered rows, with the number of rows up to it.
  beyond_cursor :
      (order : Order) (xs ys : List R) (c : R)
      → All (λ x. precedes order c x ≡ false) xs
      → precedes order c c ≡ false
      → All (λ y. precedes order c y ≡ true) ys
      → beyond column below order (some (column c)) (xs ++ c ∷ ys) ≡ ys
  beyond_cursor Order.asc xs ys c h hc k = filter-tail _ xs ys c h hc k
  beyond_cursor Order.desc xs ys c h hc k = filter-tail _ xs ys c h hc k

  -- The page after a cursor is the page of the next number: if the rows are in the order of the
  -- statement, so that none up to the cursor's row comes after it and all later ones do, and that row
  -- ends page `k`, then the cursor gives the page `k + 1`.
  pub paginate_cursor :
      (order : Order) (limit k : ℕ) (xs ys : List R) (c : R)
      → All (λ x. precedes order c x ≡ false) xs
      → precedes order c c ≡ false
      → All (λ y. precedes order c y ≡ true) ys
      → suc (length xs) ≡ k * limit
      → let rows = xs ++ c ∷ ys in
        paginate column below (Pagination.cursor (record { id = some (column c) })) limit order rows
        ≡ paginate column below (Pagination.page (suc k)) limit order rows
  unfolding paginate
  paginate_cursor order limit k xs ys c h hc hs n = ap (take limit) (
      beyond_cursor order xs ys c h hc hs
      ∙ sym (
          skip_pages-suc column below k limit (xs ++ c ∷ ys)
          ∙ ap (λ m. drop m (xs ++ c ∷ ys)) (sym n)
          ∙ drop-append xs ys c))

-- One page after the other.
abbrev pages_from :
    {R : Type 0} (column : R → Bytes) (below : Bytes → Bytes → Bool)
    → ℕ
    → Order
    → List R
    → ℕ
    → ℕ
    → List R
pages_from column below limit order rows first zero = []
pages_from column below limit order rows first (suc n) =
    paginate column below (Pagination.page first) limit order rows
    ++ pages_from column below limit order rows (suc first) n

pages_from-take :
    {R : Type 0} (column : R → Bytes) (below : Bytes → Bytes → Bool) (limit : ℕ) (order : Order)
    (rows : List R) (k n : ℕ)
    → pages_from column below limit order rows (suc k) n ≡ take (n * limit) (drop (k * limit) rows)
unfolding paginate
pages_from-take column below limit order rows k zero =
    ap (λ m. take m (drop (k * limit) rows)) (sym (zero_mul limit))
pages_from-take column below limit order rows k (suc n) =
    let here = drop (k * limit) rows in
    let next : drop (suc k * limit) rows ≡ drop limit here =
      ap (λ m. drop m rows) (omega arith) ∙ drop-add (k * limit) limit rows in
    rw
      (
        skip_pages-suc column below k limit rows,
        pages_from-take column below limit order rows (suc k) n,
        next,
      )
      (sym (take-add limit (n * limit) here) ∙ ap (λ m. take m here) (omega arith))

-- The first `n` numbered pages, one after the other, are the first `n * limit` rows: no row is
-- missed or comes twice.
paginate_pages :
    {R : Type 0} (column : R → Bytes) (below : Bytes → Bytes → Bool) (limit : ℕ) (order : Order)
    (rows : List R) (n : ℕ)
    → pages_from column below limit order rows 1 n ≡ take (n * limit) rows
paginate_pages column below limit order rows n =
    pages_from-take column below limit order rows 0 n
    ∙ ap (λ m. take (n * limit) (drop m rows)) (zero_mul limit)
