-- ===== src/Accounts/Metadata/Authority.antt =====
-- The authority of an asset, under the WHERE of its upsert.
use das.Prelude.{ℤ, ◌≡◌, ◌≢◌, refl, true, false, Option, none, some, ◌==◌, ◌<ℤ◌, ltb_ℤ, arith}
use das.Database.{Pubkey, AssetAuthority}
use das.Accounts.Metadata.{authority_account_row}

abbrev pub authority_of : Option AssetAuthority → Option Pubkey
authority_of none = none
authority_of (some r) = some r.authority

-- An asset whose authority is `a` in a first slot, `b` in a second and `a` again in a third: if the
-- updates come in this order, `a` is left, but if the one of the second slot comes last, `b` is.
pub authority_account_row_stale :
    (id a b : Pubkey) (s t u : ℤ)
    → a ≢ b
    → s <ℤ t
    → t <ℤ u
    → let write = authority_account_row id in
      (authority_of (write a u (write b t (write a s none))) ≡ some a)
      × (authority_of (write b t (write a u (write a s none))) ≡ some b)
unfolding authority_account_row
authority_account_row_stale id a b s t u n h k =
    let later : ltb_ℤ s t ≡ true = ground arith in
    let last : ltb_ℤ t u ≡ true = ground arith in
    let differs : (a == b) ≡ false = ground arith in
    let differs' : (b == a) ≡ false = ground arith in
    let same : (a == a) ≡ true = ground arith in
    let newest : ltb_ℤ s u ≡ true = ground arith in
    (rw (later, differs, last, differs') refl, rw (newest, same, later, differs) refl)
