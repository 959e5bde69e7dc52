-- ===== src/Dapi/Groups/Reaches.antt =====
-- What updates of groups write, in any order.
use das.Prelude.{
  ℤ, ◌≡◌, refl, ap, ◌∙◌, Bool, true, false, ◌&&◌, ◌||◌, Bool-cases, inl, inr, Option, none, some,
  List, [], ◌∷◌, any, leb_ℤ, if◌then◌else◌, arith,
}
use das.Database.{Pubkey, AssetData, at_least}
use das.Dapi.Groups.{Grouping, eq_value, set_group, put_group, put_each_group, put_groups}

-- An update of a Core asset: its slot, and its groups.
abbrev pub Update : Type 0
Update = ℤ × List Pubkey

abbrev pub run_updates : Pubkey → List Update → List Grouping → List Grouping
run_updates id [] rows = rows
run_updates id ((slot, values) ∷ us) rows = run_updates id us (put_groups id values slot rows)

abbrev pub without_data : List Grouping → List (Grouping × Option AssetData)
without_data [] = []
without_data (r ∷ rows) = (r, none) ∷ without_data rows

-- What an update writes: its groups, or null.
abbrev pub writes : Option Pubkey → List Pubkey → Bool
writes k [] = eq_value none k
writes k (v ∷ vs) = any (λ w. eq_value (some w) k) (v ∷ vs)

-- Some row of the value has that slot or a newer one.
abbrev pub reaches : Option Pubkey → ℤ → List Grouping → Bool
reaches k n = any (λ r. eq_value r.group_value k && at_least r.slot_updated (some n))

eq_value_sound : (a b : Option Pubkey) → eq_value a b ≡ true → a ≡ b
eq_value_sound none none h = refl
eq_value_sound none (some b) h = cc
eq_value_sound (some a) none h = cc
eq_value_sound (some a) (some b) h = ap some (ground arith)

or_left_comm : (x y z : Bool) → (y || (x || z)) ≡ (x || (y || z))
or_left_comm x y z = ground arith

-- The row's slot becomes the newer one.
reaches_raised :
    (x rest : Bool) (old : Option ℤ) (n s : ℤ)
    → ((x && at_least (if at_least (some s) old then some s else old) (some n)) || rest)
      ≡ ((x && leb_ℤ n s) || ((x && at_least old (some n)) || rest))
reaches_raised x rest none n s = ground arith
reaches_raised false rest (some t) n s = refl
reaches_raised true rest (some t) n s = ground arith

reaches_set :
    (k' : Option Pubkey) (n s : ℤ) (r : Grouping) (rows : List Grouping)
    → reaches k' n (if at_least (some s) r.slot_updated then set_group s r ∷ rows else r ∷ rows) ≡ (
        (eq_value r.group_value k'
          && at_least
              (if at_least (some s) r.slot_updated then some s else r.slot_updated)
              (some n))
        || reaches k' n rows)
reaches_set k' n s r rows = elim (Bool-cases (at_least (some s) r.slot_updated)) [
  | inl e ↦ rw e refl
  | inr e ↦ rw e refl
]

reaches-put_group :
    (id : Pubkey) (k k' : Option Pubkey) (n s : ℤ) (rows : List Grouping)
    → reaches k' n (put_group id k s rows) ≡ ((eq_value k k' && leb_ℤ n s) || reaches k' n rows)
unfolding put_group
reaches-put_group id k k' n s [] = refl
reaches-put_group id k k' n s (r ∷ rows) = elim (Bool-cases (eq_value r.group_value k)) [
  | inl e ↦ rw e (
      reaches_set k' n s r rows
      ∙ reaches_raised (eq_value r.group_value k') (reaches k' n rows) r.slot_updated n s
      ∙ ap
          (λ v.
            (eq_value v k' && leb_ℤ n s)
            || ((eq_value r.group_value k' && at_least r.slot_updated (some n))
                || reaches k' n rows))
          (eq_value_sound r.group_value k e))
  | inr e ↦ rw e (
      ap (λ b. (eq_value r.group_value k' && at_least r.slot_updated (some n)) || b)
        (reaches-put_group id k k' n s rows)
      ∙ or_left_comm (eq_value k k' && leb_ℤ n s) _ _)
]

or_regroup : (a a' l r : Bool) → ((a' && l) || ((a && l) || r)) ≡ (((a || a') && l) || r)
or_regroup a a' l r = ground arith

or_assoc_comm : (a b c : Bool) → (b || (a || c)) ≡ ((a || b) || c)
or_assoc_comm a b c = ground arith

reaches-put_each_group :
    (id : Pubkey) (k : Option Pubkey) (n s : ℤ) (vs : List Pubkey) (rows : List Grouping)
    → reaches k n (put_each_group id vs s rows)
      ≡ ((any (λ w. eq_value (some w) k) vs && leb_ℤ n s) || reaches k n rows)
unfolding put_each_group
reaches-put_each_group id k n s [] rows = refl
reaches-put_each_group id k n s (v ∷ vs) rows =
    reaches-put_each_group id k n s vs (put_group id (some v) s rows)
    ∙ ap (λ b. (any (λ w. eq_value (some w) k) vs && leb_ℤ n s) || b)
        (reaches-put_group id (some v) k n s rows)
    ∙ or_regroup (eq_value (some v) k) _ _ _

reaches-put_groups :
    (id : Pubkey) (k : Option Pubkey) (n s : ℤ) (vs : List Pubkey) (rows : List Grouping)
    → reaches k n (put_groups id vs s rows) ≡ ((writes k vs && leb_ℤ n s) || reaches k n rows)
unfolding put_groups
reaches-put_groups id k n s [] rows = reaches-put_group id none k n s rows
reaches-put_groups id k n s (v ∷ vs) rows = reaches-put_each_group id k n s (v ∷ vs) rows

abbrev pub written : Option Pubkey → ℤ → List Update → Bool
written k n = any (λ u. writes k u.1 && leb_ℤ n u.0)

pub reaches-run_updates :
    (id : Pubkey) (k : Option Pubkey) (n : ℤ) (us : List Update) (rows : List Grouping)
    → reaches k n (run_updates id us rows) ≡ (written k n us || reaches k n rows)
reaches-run_updates id k n [] rows = refl
reaches-run_updates id k n ((s, vs) ∷ us) rows =
    reaches-run_updates id k n us (put_groups id vs s rows)
    ∙ ap (λ b. written k n us || b) (reaches-put_groups id k n s vs rows)
    ∙ or_assoc_comm (writes k vs && leb_ℤ n s) (written k n us) (reaches k n rows)
