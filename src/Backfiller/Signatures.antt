-- ===== src/Backfiller/Signatures.antt =====
-- nft_ingester/src/backfiller.rs: find_slots_via_address, the slots of a tree's transactions, page by
-- page. The loop takes fuel.
pub mod AllPages
use das.Prelude.{
  ℕ, zero, suc, Bool, Option, none, some, List, [], ◌∷◌, any, length, ltb, ◌==◌, if◌then◌else◌,
}
use das.Database.{Pubkey}
use das.Backfiller.Node.{
  SignatureInfo, Node, rpc_get_data_error, rpc_data_unsupported_format, Result, ok, err, running,
}

-- The slots of one page are added to the set, and the last signature is kept.
abbrev pub insert_slot : ℕ → List ℕ → List ℕ
insert_slot slot slots = if any (λ x. x == slot) slots then slots else slot ∷ slots

unfoldable pub add_page : List SignatureInfo → Option ℕ → List ℕ → Result (Option ℕ × List ℕ)
add_page [] last slots = ok (last, slots)
add_page (info ∷ infos) last slots = elim info.signature [
  | none ↦ err rpc_data_unsupported_format
  | some s ↦ add_page infos (some s) (insert_slot info.slot slots)
]

-- `sigs.is_empty() || sigs.len() < 1000`
abbrev pub is_last_page : List SignatureInfo → Bool
is_last_page infos = ltb (length infos) 1000

abbrev pub next_page :
    Bool → (Option ℕ → List ℕ → Result (List ℕ)) → Result (Option ℕ × List ℕ) → Result (List ℕ)
next_page last_page rest (ok (last, slots)) = if last_page then ok slots else rest last slots
next_page last_page rest (err e) = err e
next_page last_page rest running = running

abbrev pub with_page :
    (Option ℕ → List ℕ → Result (List ℕ))
    → Option ℕ
    → List ℕ
    → Option (List SignatureInfo)
    → Result (List ℕ)
with_page rest last slots none = err rpc_get_data_error
with_page rest last slots (some infos) =
    next_page (is_last_page infos) rest (add_page infos last slots)

module _ (node : Node) where
  unfoldable pub find_slots_from : ℕ → Pubkey → Option ℕ → List ℕ → Result (List ℕ)
  find_slots_from zero address last slots = running
  find_slots_from (suc fuel) address last slots =
      with_page (find_slots_from fuel address) last slots (node.signatures address last)

  unfoldable pub find_slots_via_address : ℕ → Pubkey → Result (List ℕ)
  find_slots_via_address fuel address = find_slots_from fuel address none []
