-- ===== src/Database/Upsert.antt =====
-- `INSERT … ON CONFLICT … DO UPDATE SET … WHERE …` on the row at one key, and tables as functions
-- from keys to rows. SQL's three-valued tests on nullable columns.
use das.Prelude.{
  ℕ, ℤ, pos, Bool, true, false, not, ◌&&◌, Option, none, some, ◌==◌, if◌then◌else◌, leb_ℤ, ltb_ℤ,
  eqb_ℤ, max_ℤ,
}

module _ {ℓ} {R : Type ℓ} where
  -- `inserted` is the new row, `updated` what the SET clause makes of an old one, `passes` the WHERE.
  abbrev pub upsert : R → (R → R) → (R → Bool) → Option R → Option R
  upsert inserted updated passes none = some inserted
  upsert inserted updated passes (some r) = some (if passes r then updated r else r)

  -- A table with the row at one key changed.
  abbrev pub alter : ℕ → (Option R → Option R) → (ℕ → Option R) → ℕ → Option R
  alter k f t j = if k == j then f (t j) else t j

-- `column != 0 OR column IS NULL`
abbrev pub nonzero_or_null : Option ℤ → Bool
nonzero_or_null none = true
nonzero_or_null (some n) = not (eqb_ℤ n (pos 0))

-- `excluded.column >= table.column OR table.column IS NULL`, for a value that is not null.
abbrev pub ge_or_null : ℤ → Option ℤ → Bool
ge_or_null v none = true
ge_or_null v (some n) = leb_ℤ n v

-- `(table.column != 0 AND excluded.column >= table.column) OR table.column IS NULL`
abbrev pub newer_or_null : ℤ → Option ℤ → Bool
newer_or_null v none = true
newer_or_null v (some n) = not (eqb_ℤ n (pos 0)) && leb_ℤ n v

-- `excluded.column >= table.column OR table.column IS NULL`, for a value that may be null.
abbrev pub at_least : Option ℤ → Option ℤ → Bool
at_least v none = true
at_least none (some n) = false
at_least (some v) (some n) = leb_ℤ n v

-- `excluded.column > table.column`, for a value that is not null. A test on null does not pass.
abbrev pub gt_column : ℤ → Option ℤ → Bool
gt_column v none = false
gt_column v (some n) = ltb_ℤ n v

-- `COALESCE(column, 0)`
abbrev pub or_zero : Option ℤ → ℤ
or_zero none = pos 0
or_zero (some n) = n

-- `GREATEST(COALESCE(column, 0), COALESCE(excluded.column, 0))`
abbrev pub greatest : Option ℤ → ℤ → Option ℤ
greatest none v = some (max_ℤ (pos 0) v)
greatest (some n) v = some (max_ℤ n v)
