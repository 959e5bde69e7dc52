-- ===== src/Database/Registers.antt =====
-- A group of columns that a statement writes as a whole, guarded by the slot of the last write: the
-- rows of any table seen as a register.
use das.Prelude.{
  ℤ, pos, negsuc, ◌≡◌, ◌≢◌, refl, ap, Bool, true, false, Option, none, some, leb_ℤ, if◌then◌else◌,
  arith,
}
use das.Database.Upsert.{upsert, at_least}

leb_antisym : (a b : ℤ) → leb_ℤ a b ≡ true → leb_ℤ b a ≡ true → a ≡ b
leb_antisym (pos a) (pos b) h k = ap pos (ground arith)
leb_antisym (pos a) (negsuc b) h k = absurd (ground arith)
leb_antisym (negsuc a) (pos b) h k = absurd (ground arith)
leb_antisym (negsuc a) (negsuc b) h k = ap negsuc (ground arith)

-- The slots are in a total order, with null below the others.
pub at_least_total : (x y : Option ℤ) → at_least x y ≡ false → at_least y x ≡ true
at_least_total none none h = refl
at_least_total none (some b) h = refl
at_least_total (some a) none h = absurd (cc)
at_least_total (some a) (some b) h = ground (arith)

pub at_least_trans :
    (x y z : Option ℤ) → at_least x y ≡ true → at_least y z ≡ true → at_least x z ≡ true
at_least_trans none none z h k = k
at_least_trans none (some b) z h k = absurd (cc)
at_least_trans (some a) y none h k = refl
at_least_trans (some a) none (some c) h k = absurd (cc)
at_least_trans (some a) (some b) (some c) h k = ground (arith)

pub at_least_antisym : (x y : Option ℤ) → at_least x y ≡ true → at_least y x ≡ true → x ≡ y
at_least_antisym none none h k = refl
at_least_antisym none (some b) h k = absurd (cc)
at_least_antisym (some a) none h k = absurd (cc)
at_least_antisym (some a) (some b) h k = ap some (leb_antisym a b k h)

module _ {S : Type 0} (slot : S → Option ℤ) where
  -- The register: a write of an older slot than the last one is dropped.
  abbrev pub write : S → S → S
  write new old = if at_least (slot new) (slot old) then new else old

  pub write_comm : (a b old : S) → slot a ≢ slot b → write a (write b old) ≡ write b (write a old)
  write_comm a b old h = ground (
    arith,
    at_least_total (slot a) (slot b),
    at_least_antisym (slot a) (slot b),
    at_least_trans (slot a) (slot b) (slot old),
    at_least_trans (slot b) (slot a) (slot old),
    at_least_total (slot a) (slot old),
    at_least_total (slot b) (slot old),
    at_least_trans (slot a) (slot old) (slot b),
    at_least_trans (slot b) (slot old) (slot a),
  )

-- The columns of a row, or those of a new row where there is none.
abbrev pub see : {R S : Type 0} → (R → S) → S → Option R → S
see view blank none = blank
see view blank (some r) = view r

module _ {R S : Type 0} (view : R → S) (blank : S) where
  -- A statement that writes other columns.
  pub upsert-see_kept :
      (inserted : R) (updated : R → R) (passes : R → Bool)
      → view inserted ≡ blank
      → ((r : R) → view (updated r) ≡ view r)
      → (o : Option R) → see view blank (upsert inserted updated passes o) ≡ see view blank o
  upsert-see_kept inserted updated passes h k none = h
  upsert-see_kept inserted updated passes h k (some r) = ground (arith, k r)

  -- A statement that writes these.
  pub upsert-see_written :
      (slot : S → Option ℤ) (new : S) (inserted : R) (updated : R → R) (passes : R → Bool)
      → slot blank ≡ none
      → view inserted ≡ new
      → ((r : R) → view (updated r) ≡ new)
      → ((r : R) → passes r ≡ at_least (slot new) (slot (view r)))
      → (o : Option R)
      → see view blank (upsert inserted updated passes o) ≡ write slot new (see view blank o)
  upsert-see_written slot new inserted updated passes b h k g none = rw (h, b) refl
  upsert-see_written slot new inserted updated passes b h k g (some r) = ground (arith, k r, g r)
