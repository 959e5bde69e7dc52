-- ===== src/Backfiller/Signatures/AllPages.antt =====
-- find_slots_via_address: every slot of the history is found.
use das.Prelude.{
  ℕ, if◌then◌else◌, subst, zero, suc, ◌<◌, ◌≡◌, refl, sym, ap, ◌∙◌, Bool, true, ◌||◌, Bool-cases,
  inl, inr, Option, none, some, List, [], ◌∷◌, ◌++◌, any, length, length-append, ltb, ◌==◌, arith,
}
use das.Database.{Pubkey}
use das.Backfiller.Node.{SignatureInfo, Node, ok}
use das.Backfiller.Signatures.{
  insert_slot, add_page, is_last_page, next_page, with_page, find_slots_from,
  find_slots_via_address,
}

-- A parsed signature.
abbrev pub info : ℕ × ℕ → SignatureInfo
info (signature, slot) = record { signature = some signature; slot = slot }

abbrev pub infos : List (ℕ × ℕ) → List SignatureInfo
infos [] = []
infos (x ∷ xs) = info x ∷ infos xs

abbrev pub has_slot : ℕ → List (ℕ × ℕ) → Bool
has_slot k = any (λ x. x.1 == k)

-- A page starts the history from there, and is short only at its end.
abbrev pub IsPage : Option (List SignatureInfo) → List (ℕ × ℕ) → Type 0
IsPage answer history =
    (page rest : List (ℕ × ℕ)) × (answer ≡ some (infos page))
    × (history ≡ page ++ rest)
    × (length page < 1000 → rest ≡ [])

-- The node's answers, by the history of an address, its latest signature first.
pub record Answers (node : Node) (address : Pubkey) (history : List (ℕ × ℕ)) : Type 0 where
  pub first : IsPage (node.signatures address none) history
  pub before :
      (xs ys : List (ℕ × ℕ)) (x : ℕ × ℕ)
      → history ≡ xs ++ x ∷ ys
      → IsPage (node.signatures address (some x.0)) ys

last_of : Option ℕ → List (ℕ × ℕ) → Option ℕ
last_of last [] = last
last_of last (x ∷ xs) = last_of (some x.0) xs

old_slot :
    (k slot : ℕ) (slots : List ℕ)
    → any (λ x. x == slot) slots ≡ true
    → any (λ x. x == k) slots ≡ (slot == k || any (λ x. x == k) slots)
old_slot k slot slots old = elim (Bool-cases (slot == k)) [
  | inl e ↦ let same : slot ≡ k = ground arith in rw (e, ← same) old
  | inr e ↦ rw e refl
]

has-insert_slot :
    (k slot : ℕ) (slots : List ℕ)
    → any (λ x. x == k) (insert_slot slot slots) ≡ (slot == k || any (λ x. x == k) slots)
has-insert_slot k slot slots = elim (Bool-cases (any (λ x. x == slot) slots)) [
  | inl old ↦ rw old (old_slot k slot slots old)
  | inr new ↦ rw new refl
]

add_page_lem :
    (page : List (ℕ × ℕ)) (last : Option ℕ) (slots : List ℕ)
    → (found : List ℕ) × (add_page (infos page) last slots ≡ ok (last_of last page, found))
      × ((k : ℕ) → any (λ x. x == k) found ≡ (has_slot k page || any (λ x. x == k) slots))
unfolding add_page last_of
add_page_lem [] last slots = (slots, refl, λ k. refl)
add_page_lem ((signature, slot) ∷ page) last slots =
    let (found, e, h) = add_page_lem page (some signature) (insert_slot slot slots) in
    (found, e, λ k. ground (arith, h k, has-insert_slot k slot slots))

length-infos : (page : List (ℕ × ℕ)) → length (infos page) ≡ length page
length-infos [] = refl
length-infos (x ∷ page) = ap suc (length-infos page)

has_slot-append :
    (k : ℕ) (xs ys : List (ℕ × ℕ)) → has_slot k (xs ++ ys) ≡ (has_slot k xs || has_slot k ys)
has_slot-append k [] ys = refl
has_slot-append k (x ∷ xs) ys = ground (arith, has_slot-append k xs ys)

append_assoc : (xs ys zs : List (ℕ × ℕ)) → (xs ++ ys) ++ zs ≡ xs ++ (ys ++ zs)
append_assoc [] ys zs = refl
append_assoc (x ∷ xs) ys zs = ap (λ l. x ∷ l) (append_assoc xs ys zs)

-- The last signature of a page, and what stands before and after it.
last_of_split :
    (last : Option ℕ) (x : ℕ × ℕ) (page rest : List (ℕ × ℕ))
    → (xs : List (ℕ × ℕ)) × (y : ℕ × ℕ) × (last_of last (x ∷ page) ≡ some y.0)
      × ((x ∷ page) ++ rest ≡ xs ++ y ∷ rest)
unfolding last_of
last_of_split last x [] rest = ([], x, refl, refl)
last_of_split last x (z ∷ page) rest =
    let (xs, y, e, h) = last_of_split (some x.0) z page rest in (x ∷ xs, y, e, ap (λ l. x ∷ l) h)

module _ (node : Node) (address : Pubkey) (history : List (ℕ × ℕ))
    (answers : Answers node address history) where
  -- The rest of the history, from a signature on, has a page.
  next-IsPage :
      (pre page rest : List (ℕ × ℕ)) (last : Option ℕ)
      → history ≡ pre ++ (page ++ rest)
      → 0 < length page
      → IsPage (node.signatures address (last_of last page)) rest
  next-IsPage pre [] rest last e h = absurd (omega arith)
  next-IsPage pre (x ∷ page) rest last e h =
      let (xs, y, f, g) = last_of_split last x page rest in
      subst (λ o. IsPage (node.signatures address o) rest) (sym f)
        (answers.before (pre ++ xs) rest y
          (e ∙ ap (λ l. pre ++ l) g ∙ sym (append_assoc pre xs (y ∷ rest))))

  -- One round of the loop.
  find_slots_round :
      (fuel : ℕ) (page : List (ℕ × ℕ)) (last : Option ℕ) (slots all : List ℕ)
      → node.signatures address last ≡ some (infos page)
      → add_page (infos page) last slots ≡ ok (last_of last page, all)
      → find_slots_from node (suc fuel) address last slots ≡ (
          if ltb (length page) 1000
          then ok all
          else find_slots_from node fuel address (last_of last page) all)
  unfolding find_slots_from
  find_slots_round fuel page last slots all answer added =
      let next = find_slots_from node fuel address in
      ap (with_page next last slots) answer
      ∙ ap (next_page (is_last_page (infos page)) next) added
      ∙ ap (λ n. if ltb n 1000 then ok all else next (last_of last page) all) (length-infos page)

  find_slots_from_lem :
      (fuel : ℕ) (pre h : List (ℕ × ℕ)) (last : Option ℕ) (slots : List ℕ)
      → history ≡ pre ++ h
      → IsPage (node.signatures address last) h
      → length h < fuel
      → (found : List ℕ) × (find_slots_from node fuel address last slots ≡ ok found)
        × ((k : ℕ) → any (λ x. x == k) found ≡ (has_slot k h || any (λ x. x == k) slots))
  find_slots_from_lem zero pre h last slots e p l = absurd (omega arith)
  find_slots_from_lem (suc fuel) pre h last slots e (page, rest, answer, split, short) l =
      let (all, added, k) = add_page_lem page last slots in
      let round = find_slots_round fuel page last slots all answer added in
      let lengths = ap length split ∙ length-append page rest in
      elim (Bool-cases (ltb (length page) 1000)) [
        | inl is_short ↦
            let ended = short (ground arith) in
            (
              all,
              rw is_short at round,
              λ j.
                  k j
                  ∙ ap (λ b. b || any (λ x. x == j) slots)
                      (sym (
                        ap (has_slot j) (split ∙ ap (λ r. page ++ r) ended)
                        ∙ has_slot-append j page []
                        ∙ ground arith)),
            )
        | inr is_full ↦
            let more =
              find_slots_from_lem fuel (pre ++ page) rest (last_of last page) all
                (e ∙ ap (λ l. pre ++ l) split ∙ sym (append_assoc pre page rest))
                (next-IsPage pre page rest last (e ∙ ap (λ l. pre ++ l) split) (ground arith))
                (ground arith) in
            (
              more.0,
              (rw is_full at round) ∙ more.1,
              λ j.
                  more.2 j
                  ∙ ground (arith, k j, ap (has_slot j) split, has_slot-append j page rest),
            )
      ]

-- With more fuel than signatures, the slots of all of an address's signatures are found, and no
-- others, if the node gives the history page by page, and only its last page is shorter than 1000.
pub find_slots_via_address_lem :
    (node : Node) (address : Pubkey) (history : List (ℕ × ℕ)) (fuel : ℕ)
    → Answers node address history
    → length history < fuel
    → (found : List ℕ) × (find_slots_via_address node fuel address ≡ ok found)
      × ((k : ℕ) → any (λ x. x == k) found ≡ has_slot k history)
unfolding find_slots_via_address
find_slots_via_address_lem node address history fuel answers l =
    let (found, e, h) =
      find_slots_from_lem node address history answers fuel [] history none [] refl answers.first
        l in
    (found, e, λ k. ground (arith, h k))
