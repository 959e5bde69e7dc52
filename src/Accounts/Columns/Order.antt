-- ===== src/Accounts/Columns/Order.antt =====
-- The statements of asset_upserts.rs in another order.
use mathlib.Core.List.{Memᴰ, Permᴰ}
use das.Prelude.{
  ◌⊎◌, inl, inr, ℤ, ◌≡◌, ◌≢◌, refl, sym, ◌∙◌, ap, true, false, Option, none, some, List, ◌<ℤ◌,
  leb_ℤ, arith,
}
use das.Database.{Asset, greatest}
use das.Database.Registers.{write_comm}
use das.Accounts.Columns.{
  AssetTokenAccountColumns, AccountStatement, token_account, mint_account, metadata_account,
  token_account_row, metadata_slot, run_statements,
}
use das.Accounts.Columns.Views.{
  token_value, mint_value, metadata_value, Registers, see_row, write_register, write_registers,
  see_row-run_statements,
}

-- Two statements of different kinds, or of different slots.
abbrev pub Apart : AccountStatement → AccountStatement → Type 0
Apart (token_account a) (token_account b) =
    a.slot_updated_token_account ≢ b.slot_updated_token_account
Apart (mint_account a) (mint_account b) = a.slot_updated_mint_account ≢ b.slot_updated_mint_account
Apart (metadata_account a) (metadata_account b) = metadata_slot a ≢ metadata_slot b
Apart a b = Unit

write_register_comm :
    (a b : AccountStatement) (v : Registers)
    → Apart a b
    → write_register a (write_register b v) ≡ write_register b (write_register a v)
write_register_comm (token_account a) (token_account b) v h =
    ap (λ x. record v { token = x })
      (write_comm (λ x. x.slot) (token_value a) (token_value b) v.token h)
write_register_comm (mint_account a) (mint_account b) v h =
    ap (λ x. record v { mint = x })
      (write_comm (λ x. x.slot) (mint_value a) (mint_value b) v.mint (λ e. h (cc)))
write_register_comm (metadata_account a) (metadata_account b) v h =
    ap (λ x. record v { metadata = x })
      (write_comm (λ x. x.slot) (metadata_value a) (metadata_value b) v.metadata h)
write_register_comm (token_account a) (mint_account b) v h = refl
write_register_comm (token_account a) (metadata_account b) v h = refl
write_register_comm (mint_account a) (token_account b) v h = refl
write_register_comm (mint_account a) (metadata_account b) v h = refl
write_register_comm (metadata_account a) (token_account b) v h = refl
write_register_comm (metadata_account a) (mint_account b) v h = refl

-- No two different statements of a list have one kind and one slot.
abbrev pub AllApart : List AccountStatement → Type 0
AllApart l = (a b : AccountStatement) → Memᴰ a l → Memᴰ b l → (a ≡ b) ⊎ Apart a b

write_register_swap :
    (a b : AccountStatement) (v : Registers)
    → (a ≡ b) ⊎ Apart a b
    → write_register a (write_register b v) ≡ write_register b (write_register a v)
write_register_swap a b v (inl e) = cc
write_register_swap a b v (inr h) = write_register_comm a b v h

Memᴰ_permute :
    {x : AccountStatement} {l l' : List AccountStatement} → Permᴰ l l' → Memᴰ x l' → Memᴰ x l
Memᴰ_permute Permᴰ.nil m = m
Memᴰ_permute (Permᴰ.cons e p) (Memᴰ.head h) = Memᴰ.head (h ∙ sym e)
Memᴰ_permute (Permᴰ.cons e p) (Memᴰ.tail m) = Memᴰ.tail (Memᴰ_permute p m)
Memᴰ_permute (Permᴰ.swap e f) (Memᴰ.head h) = Memᴰ.tail (Memᴰ.head (h ∙ sym f))
Memᴰ_permute (Permᴰ.swap e f) (Memᴰ.tail (Memᴰ.head h)) = Memᴰ.head (h ∙ sym e)
Memᴰ_permute (Permᴰ.swap e f) (Memᴰ.tail (Memᴰ.tail m)) = Memᴰ.tail (Memᴰ.tail m)
Memᴰ_permute (Permᴰ.trans p q) m = Memᴰ_permute p (Memᴰ_permute q m)

write_registers_permute :
    {l l' : List AccountStatement}
    → Permᴰ l l'
    → AllApart l
    → (v : Registers) → write_registers l v ≡ write_registers l' v
write_registers_permute Permᴰ.nil h v = refl
write_registers_permute (Permᴰ.cons {a} {b} {l₁} {l₂} e p) h v =
    write_registers_permute p (λ x y m n. h x y (Memᴰ.tail m) (Memᴰ.tail n)) (write_register a v)
    ∙ ap (λ x. write_registers l₂ (write_register x v)) e
write_registers_permute (Permᴰ.swap {a} {b} {a'} {b'} {l} e f) h v =
    ap (write_registers l)
      (sym (write_register_swap a b v (h a b (Memᴰ.head refl) (Memᴰ.tail (Memᴰ.head refl)))))
    ∙ ap (λ x. write_registers l (write_register x (write_register b v))) e
    ∙ ap (λ x. write_registers l (write_register b' (write_register x v))) f
write_registers_permute (Permᴰ.trans p q) h v =
    write_registers_permute p h v
    ∙ write_registers_permute q (λ x y m n. h x y (Memᴰ_permute p m) (Memᴰ_permute p n)) v

-- The statements of a sequence may run in any order, if any two of them that differ are of different
-- kinds or have different slots: the columns of the row's three groups are the same in the end. A
-- statement that comes twice, as after a redelivery, may do so.
pub run_statements_permute :
    (l l' : List AccountStatement) (row : Option Asset)
    → Permᴰ l l'
    → AllApart l
    → see_row (run_statements l row) ≡ see_row (run_statements l' row)
run_statements_permute l l' row p h =
    see_row-run_statements l row
    ∙ write_registers_permute p h (see_row row)
    ∙ sym (see_row-run_statements l' row)

abbrev pub slot_of : Option Asset → Option ℤ
slot_of none = none
slot_of (some r) = r.slot_updated

-- The column `slot_updated` depends on the order: of the updates of two token accounts of an asset
-- that has no row yet, the older one first leaves the newer slot there (if it is not below 0), but
-- the newer one first leaves null.
pub token_account_row_slot :
    (c d : AssetTokenAccountColumns) (s u : ℤ)
    → c.slot_updated_token_account ≡ some s
    → d.slot_updated_token_account ≡ some u
    → s <ℤ u
    → (slot_of (token_account_row d (token_account_row c none)) ≡ greatest none u)
      × (slot_of (token_account_row c (token_account_row d none)) ≡ none)
unfolding token_account_row
token_account_row_slot c d s u p q h =
    let newer : leb_ℤ s u ≡ true = ground arith in
    let older : leb_ℤ u s ≡ false = ground arith in (rw (p, q, newer) refl, rw (p, q, older) refl)
