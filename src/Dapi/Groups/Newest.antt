-- ===== src/Dapi/Groups/Newest.antt =====
-- The groups that are read after updates in any order.
use das.Prelude.{
  ℤ, ◌≡◌, refl, ap, ◌∙◌, Bool, true, false, ◌&&◌, ◌||◌, not, Bool-cases, inl, inr, Option, none,
  some, List, [], ◌∷◌, filter, any, All, ◌≤ℤ◌, eqb_ℤ, is_some, if◌then◌else◌, arith,
}
use das.Database.{Pubkey, AssetData, at_least}
use das.Dapi.Groups.Reaches.{
  Update, run_updates, without_data, writes, reaches, written, reaches-run_updates,
}
use das.Dapi.Groups.{
  Grouping, is_group, eq_slot, max_slot_updated, is_current, retain_current,
  filter_out_stale_asset_groupings, eq_value, put_group, put_each_group, put_groups, newer,
}

-- Rows of groups, none newer than `n`.
abbrev AtMost : ℤ → List Grouping → Type 0
AtMost n = All (λ r. (is_group r.group_key ≡ true) × (at_least (some n) r.slot_updated ≡ true))

put_group-AtMost :
    (id : Pubkey) (k : Option Pubkey) (n s : ℤ) (rows : List Grouping)
    → s ≤ℤ n
    → AtMost n rows
    → AtMost n (put_group id k s rows)
unfolding put_group
put_group-AtMost id k n s [] l h = ((refl, ground arith), tt)
put_group-AtMost id k n s (r ∷ rows) l ((g, h), hs) = elim (Bool-cases (eq_value r.group_value k)) [
  | inl e ↦ elim (Bool-cases (at_least (some s) r.slot_updated)) [
    | inl a ↦ rw (e, a) ((g, ground arith), hs)
    | inr a ↦ rw (e, a) ((g, h), hs)
  ]
  | inr e ↦ rw e ((g, h), put_group-AtMost id k n s rows l hs)
]

put_each_group-AtMost :
    (id : Pubkey) (vs : List Pubkey) (n s : ℤ) (rows : List Grouping)
    → s ≤ℤ n
    → AtMost n rows
    → AtMost n (put_each_group id vs s rows)
unfolding put_each_group
put_each_group-AtMost id [] n s rows l h = h
put_each_group-AtMost id (v ∷ vs) n s rows l h =
    put_each_group-AtMost id vs n s _ l (put_group-AtMost id (some v) n s rows l h)

put_groups-AtMost :
    (id : Pubkey) (vs : List Pubkey) (n s : ℤ) (rows : List Grouping)
    → s ≤ℤ n
    → AtMost n rows
    → AtMost n (put_groups id vs s rows)
unfolding put_groups
put_groups-AtMost id [] n s rows l h = put_group-AtMost id none n s rows l h
put_groups-AtMost id (v ∷ vs) n s rows l h = put_each_group-AtMost id (v ∷ vs) n s rows l h

run_updates-AtMost :
    (id : Pubkey) (n : ℤ) (us : List Update) (rows : List Grouping)
    → All (λ u. u.0 ≤ℤ n) us
    → AtMost n rows
    → AtMost n (run_updates id us rows)
run_updates-AtMost id n [] rows l h = h
run_updates-AtMost id n ((s, vs) ∷ us) rows (l, ls) h =
    run_updates-AtMost id n us _ ls (put_groups-AtMost id vs n s rows l h)

-- The newest slot of the rows is found.
abbrev tops : ℤ → List Grouping → Bool
tops n = any (λ r. at_least r.slot_updated (some n))

slot_eq :
    (n : ℤ) (a : Option ℤ) → at_least (some n) a ≡ true → at_least a (some n) ≡ true → a ≡ some n
slot_eq n none h k = cc
slot_eq n (some a) h k = ap some (ground arith)

keep_best :
    (n : ℤ) (best x : Option ℤ) (t : Bool)
    → at_least best x ≡ true
    → (at_least best (some n) || (at_least x (some n) || t)) ≡ true
    → (at_least best (some n) || t) ≡ true
keep_best n none none t h k = k
keep_best n none (some x) t h k = cc
keep_best n (some b) none t h k = k
keep_best n (some b) (some x) t h k = ground arith

drop_best :
    (n : ℤ) (best x : Option ℤ) (t : Bool)
    → at_least best x ≡ false
    → (at_least best (some n) || (at_least x (some n) || t)) ≡ true
    → (at_least x (some n) || t) ≡ true
drop_best n none none t h k = k
drop_best n none (some x) t h k = k
drop_best n (some b) none t h k = cc
drop_best n (some b) (some x) t h k = ground arith

max_slot_lem :
    (n : ℤ) (best : Option ℤ) (rows : List Grouping)
    → AtMost n rows
    → at_least (some n) best ≡ true
    → (at_least best (some n) || tops n rows) ≡ true
    → max_slot_updated (some best) (without_data rows) ≡ some (some n)
max_slot_lem n best [] h l t = ap some (slot_eq n best l (ground arith))
max_slot_lem n best (r ∷ rows) ((g, b), hs) l t =
    ap
      (λ x.
        max_slot_updated (if x then newer (some best) r.slot_updated else some best)
          (without_data rows))
      g
    ∙ elim (Bool-cases (at_least best r.slot_updated)) [
      | inl e ↦ rw e (max_slot_lem n best rows hs l (keep_best n best r.slot_updated _ e t))
      | inr e ↦
          rw e (max_slot_lem n r.slot_updated rows hs b (drop_best n best r.slot_updated _ e t))
    ]

max_slot_found :
    (n : ℤ) (rows : List Grouping)
    → AtMost n rows
    → tops n rows ≡ true
    → max_slot_updated none (without_data rows) ≡ some (some n)
max_slot_found n [] h t = cc
max_slot_found n (r ∷ rows) ((g, b), hs) t =
    ap (λ x. max_slot_updated (if x then newer none r.slot_updated else none) (without_data rows)) g
    ∙ max_slot_lem n r.slot_updated rows hs b t

-- A value among the groups that are read.
abbrev pub shows : Pubkey → List (Grouping × Option AssetData) → Bool
shows v = any (λ p. eq_value p.0.group_value (some v))

-- A row of a group is shown exactly if it has the newest slot.
shown_row :
    (v : Pubkey) (n : ℤ) (value : Option Pubkey) (slot : Option ℤ) (is_group : Bool)
    → is_group ≡ true
    → at_least (some n) slot ≡ true
    → (not is_group || (eq_slot slot (some n) && is_some value)) && eq_value value (some v)
      ≡ eq_value value (some v) && at_least slot (some n)
shown_row v n none slot b g h = ground arith
shown_row v n (some w) none b g h = ground arith
shown_row v n (some w) (some s) b g h = ground arith

any-filter :
    {A : Type 0} (p q : A → Bool) (x : A) (xs : List A)
    → any q (if p x then x ∷ filter p xs else filter p xs) ≡ ((p x && q x) || any q (filter p xs))
any-filter p q x xs = elim (Bool-cases (p x)) [ inl e ↦ rw e refl | inr e ↦ rw e refl ]

shows-filter :
    (v : Pubkey) (n : ℤ) (rows : List Grouping)
    → AtMost n rows
    → shows v (filter (is_current (some n)) (without_data rows)) ≡ reaches (some v) n rows
shows-filter v n [] h = refl
shows-filter v n (r ∷ rows) ((g, b), hs) =
    any-filter (is_current (some n)) (λ p. eq_value p.0.group_value (some v)) (r, none)
      (without_data rows)
    ∙ ap (λ x. x || shows v (filter (is_current (some n)) (without_data rows)))
        (shown_row v n r.group_value r.slot_updated (is_group r.group_key) g b)
    ∙ ap (λ x. (eq_value r.group_value (some v) && at_least r.slot_updated (some n)) || x)
        (shows-filter v n rows hs)

tops-reaches :
    (k : Option Pubkey) (n : ℤ) (rows : List Grouping)
    → reaches k n rows ≡ true
    → tops n rows ≡ true
tops-reaches k n [] h = cc
tops-reaches k n (r ∷ rows) h = elim (Bool-cases (at_least r.slot_updated (some n))) [
  | inl e ↦ rw e refl
  | inr e ↦ ground (arith, tops-reaches k n rows)
]

first_written :
    (n s : ℤ) (vs : List Pubkey) (us : List Update)
    → eqb_ℤ s n ≡ true
    → (k : Option Pubkey) × (written k n ((s, vs) ∷ us) ≡ true)
first_written n s [] us e = (none, ground arith)
first_written n s (v ∷ vs) us e = (some v, ground arith)

-- An update writes something.
some_written :
    (n : ℤ) (us : List Update)
    → any (λ u. eqb_ℤ u.0 n) us ≡ true
    → (k : Option Pubkey) × (written k n us ≡ true)
some_written n [] h = cc
some_written n ((s, vs) ∷ us) h = elim (Bool-cases (eqb_ℤ s n)) [
  | inl e ↦ first_written n s vs us e
  | inr e ↦ let (k, w) = some_written n us (ground arith) in (k, ground (arith, w))
]

-- The updates of the newest slot, and no others, are those that reach it.
written_newest :
    (k : Option Pubkey) (n : ℤ) (us : List Update)
    → All (λ u. u.0 ≤ℤ n) us
    → written k n us ≡ any (λ u. eqb_ℤ u.0 n && writes k u.1) us
written_newest k n [] h = refl
written_newest k n ((s, vs) ∷ us) (l, ls) = ground (arith, written_newest k n us ls)

-- Any updates of a Core asset that has no group yet, in any order, in which `n` is the newest slot:
-- the groups that are read afterwards are exactly those of the updates of that slot, so that none
-- is read if the newest update has none.
pub filter_out_stale_asset_groupings-run_updates :
    (id v : Pubkey) (n : ℤ) (us : List Update)
    → All (λ u. u.0 ≤ℤ n) us
    → any (λ u. eqb_ℤ u.0 n) us ≡ true
    → shows v (filter_out_stale_asset_groupings (without_data (run_updates id us [])))
      ≡ any (λ u. eqb_ℤ u.0 n && writes (some v) u.1) us
unfolding filter_out_stale_asset_groupings
filter_out_stale_asset_groupings-run_updates id v n us l t =
    let rows = run_updates id us [] in
    let most = run_updates-AtMost id n us [] l tt in
    let (k, w) = some_written n us t in
    let top = tops-reaches k n rows (reaches-run_updates id k n us [] ∙ ground (arith, w)) in
    ap (λ m. shows v (retain_current m (without_data rows))) (max_slot_found n rows most top)
    ∙ shows-filter v n rows most
    ∙ reaches-run_updates id (some v) n us []
    ∙ ground (arith, written_newest (some v) n us l)
