-- ===== src/Accounts/Burns/Replay.antt =====
-- Burns, and what a replay of the stream does to them.
use das.Prelude.{
  ℕ, ℤ, pos, ◌≡◌, refl, Bool, true, false, Option, none, some, ap, ◌∙◌, if◌then◌else◌, as_i64, ◌<◌,
  ◌≤◌, i64_max, max_ℤ, leb_ℤ, ltb_ℤ, arith,
}
use das.Database.{Pubkey, Asset, greatest, at_least}
use das.Accounts.Columns.{
  AssetTokenAccountColumns, AssetMintAccountColumns, set_token_account, set_mint_account,
  set_metadata_account, AssetMetadataAccountColumns, metadata_slot, raise_slot,
  metadata_account_row, mint_account_row, token_account_row,
}
use das.Accounts.Burns.{set_burnt, burn_row, save_core_rows}

abbrev pub is_burnt : Option Asset → Bool
is_burnt none = false
is_burnt (some r) = r.burnt

as_i64_pos : (n : ℕ) → n ≤ i64_max → as_i64 n ≡ pos n
as_i64_pos n h = ground arith

-- A row that is not burnt, and whose `slot_updated` is the burn's slot already.
record Missed (slot : ℕ) (r : Asset) : Type 0 where
  pub live : r.burnt ≡ false
  pub slot_kept : r.slot_updated ≡ some (pos slot)

either : {R : Type 0} (P : R → Type 0) (b : Bool) {x y : R} → P x → P y → P (if b then x else y)
either P true p q = p
either P false p q = q

-- A statement of an older slot leaves the burn's slot where it is.
greatest_kept :
    (u slot : ℕ) (v : ℤ) (o : Option ℤ)
    → u < slot
    → v ≡ pos u
    → o ≡ some (pos slot)
    → greatest o v ≡ some (pos slot)
greatest_kept u slot v o h p e = rw (e, p) (ap some (ground arith))

-- What the three statements of one save leave of a row, whichever of the last two pass.
abbrev raised : Bool → ℤ → (Asset → Asset) → Asset → Asset
raised passes u f r = if passes then raise_slot (some u) (f r) else r

raised-Missed :
    (passes : Bool) (u slot : ℕ) (v : ℤ) (f : Asset → Asset) (r : Asset)
    → u < slot
    → v ≡ pos u
    → (f r).burnt ≡ r.burnt
    → (f r).slot_updated ≡ r.slot_updated
    → Missed slot r
    → Missed slot (raised passes v f r)
raised-Missed true u slot v f r h p b s m = record {
  live = b ∙ m.live;
  slot_kept = greatest_kept u slot v (f r).slot_updated h p (s ∙ m.slot_kept);
}
raised-Missed false u slot v f r h p b s m = m

burn_row-Missed :
    (id : Pubkey) (slot : ℕ) (r : Asset)
    → slot ≤ i64_max
    → Missed slot r
    → is_burnt (burn_row id slot (some r)) ≡ false
unfolding burn_row
burn_row-Missed id slot r k m =
    let stale : ltb_ℤ (pos slot) (pos slot) ≡ false = ground arith in
    rw (m.slot_kept, as_i64_pos slot k, stale) m.live

MissedRow : ℕ → Option Asset → Type 0
MissedRow slot row = (r : Asset) × (row ≡ some r) × Missed slot r

metadata_account_row-Missed :
    (c : AssetMetadataAccountColumns) (u slot : ℕ) (r : Asset)
    → u < slot
    → as_i64 c.slot_updated_metadata_account ≡ pos u
    → r.slot_updated ≡ some (pos slot)
    → r.slot_updated_metadata_account ≡ metadata_slot c
    → MissedRow slot (metadata_account_row c (some r))
unfolding metadata_account_row MissedRow
metadata_account_row-Missed c u slot r h e p q =
    let v = as_i64 c.slot_updated_metadata_account in
    let again : leb_ℤ (pos u) (pos u) ≡ true = ground arith in
    (
      raise_slot (some v) (set_metadata_account c r),
      rw (q, e, again) refl,
      record { live = refl; slot_kept = greatest_kept u slot v r.slot_updated h e p },
    )

mint_account_row-Missed :
    (m : AssetMintAccountColumns) (u slot : ℕ) (row : Option Asset)
    → u < slot
    → m.slot_updated_mint_account ≡ pos u
    → MissedRow slot row
    → MissedRow slot (mint_account_row m row)
unfolding mint_account_row MissedRow
mint_account_row-Missed m u slot row h e (r, p, k) =
    let v = m.slot_updated_mint_account in
    let passes = at_least (some v) r.slot_updated_mint_account in
    (
      raised passes v (set_mint_account m) r,
      ap (mint_account_row m) p,
      raised-Missed passes u slot v (set_mint_account m) r h e refl refl k,
    )

token_account_row-Missed :
    (t : AssetTokenAccountColumns) (u slot : ℕ) (v : ℤ) (row : Option Asset)
    → u < slot
    → v ≡ pos u
    → t.slot_updated_token_account ≡ some v
    → MissedRow slot row
    → MissedRow slot (token_account_row t row)
unfolding token_account_row MissedRow
token_account_row-Missed t u slot v row h e q (r, p, k) =
    let passes = at_least t.slot_updated_token_account r.slot_updated_token_account in
    (
      raised passes v (set_token_account t) r,
      ap (token_account_row t) p
          ∙ ap (λ w. some (if passes then raise_slot w (set_token_account t r) else r)) q,
      raised-Missed passes u slot v (set_token_account t) r h e refl refl k,
    )

-- A save of an older slot, sent again after the burn.
replay_missed :
    (id : Pubkey) (c : AssetMetadataAccountColumns) (owner : Option Pubkey) (frozen : Bool)
    (delegate : Option Pubkey) (slot : ℕ) (r : Asset)
    → c.slot_updated_metadata_account < slot
    → slot ≤ i64_max
    → r.slot_updated ≡ some (pos slot)
    → r.slot_updated_metadata_account ≡ metadata_slot c
    → is_burnt (burn_row id slot (save_core_rows c owner frozen delegate (some r))) ≡ false
unfolding save_core_rows MissedRow
replay_missed id c owner frozen delegate slot r h k p q =
    let u = c.slot_updated_metadata_account in
    let e = as_i64_pos u (omega (arith, h, k)) in
    let saved = metadata_account_row-Missed c u slot r h e p q in
    let minted = mint_account_row-Missed _ u slot _ h e saved in
    let (r', eq, m) = token_account_row-Missed _ u slot (as_i64 u) _ h e refl minted in
    ap (λ row. is_burnt (burn_row id slot row)) eq ∙ burn_row-Missed id slot r' k m

-- A burn of a row that has an older slot.
burn_row_later :
    (id : Pubkey) (u slot : ℕ) (r : Asset)
    → u < slot
    → slot ≤ i64_max
    → r.slot_updated ≡ some (pos u)
    → burn_row id slot (some r) ≡ some (set_burnt slot r)
unfolding burn_row
burn_row_later id u slot r h k p =
    let later : ltb_ℤ (pos u) (pos slot) ≡ true = ground arith in
    rw (p, as_i64_pos slot k, later) refl

-- The row that a save leaves of an asset that is not known yet.
new_core_row :
    (c : AssetMetadataAccountColumns) (owner : Option Pubkey) (frozen : Bool)
    (delegate : Option Pubkey)
    → as_i64 c.slot_updated_metadata_account ≡ pos c.slot_updated_metadata_account
    → (r : Asset) × (save_core_rows c owner frozen delegate none ≡ some r)
      × (r.slot_updated ≡ some (pos c.slot_updated_metadata_account))
      × (r.slot_updated_metadata_account ≡ metadata_slot c)
unfolding save_core_rows metadata_account_row mint_account_row token_account_row
new_core_row c owner frozen delegate e =
    let u = c.slot_updated_metadata_account in
    let once : max_ℤ (pos 0) (pos u) ≡ pos u = ground arith in
    let same : max_ℤ (pos u) (pos u) ≡ pos u = ground arith in
    (_, refl, rw (e, once, same) refl, refl)

-- A Core asset that the indexer does not know yet is saved, and burnt in a later slot: then it is
-- burnt. But if both account updates come a second time, in this order, it is not burnt afterwards.
-- (Slots up to 2^63 - 1.)
pub save_core_rows-burn_row :
    (id : Pubkey) (c : AssetMetadataAccountColumns) (owner : Option Pubkey) (frozen : Bool)
    (delegate : Option Pubkey) (slot : ℕ)
    → c.slot_updated_metadata_account < slot
    → slot ≤ i64_max
    → let run =
        λ (row : Option Asset). burn_row id slot (save_core_rows c owner frozen delegate row) in
      (is_burnt (run none) ≡ true) × (is_burnt (run (run none)) ≡ false)
save_core_rows-burn_row id c owner frozen delegate slot h k =
    let u = c.slot_updated_metadata_account in
    let e = as_i64_pos u (omega (arith, h, k)) in
    let (r, saved, p, q) = new_core_row c owner frozen delegate e in
    let run =
      λ (row : Option Asset). burn_row id slot (save_core_rows c owner frozen delegate row) in
    let first : run none ≡ some (set_burnt slot r) =
      ap (burn_row id slot) saved ∙ burn_row_later id u slot r h k p in
    (
      ap is_burnt first,
      ap (λ row. is_burnt (run row)) first
          ∙ replay_missed id c owner frozen delegate slot (set_burnt slot r) h k
              (ap some (as_i64_pos slot k)) q,
    )
