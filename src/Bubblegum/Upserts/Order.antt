-- ===== src/Bubblegum/Upserts/Order.antt =====
-- The upserts of db.rs on one row of `asset`, in either order or sent twice.
use das.Prelude.{
  ℕ, ℤ, pos, ◌≡◌, ◌≢◌, refl, sym, ap, Bool, true, ◌&&◌, Option, none, some, arith, is_some,
}
use das.Database.{Pubkey, Asset, default_asset, nonzero_or_null, ge_or_null, newer_or_null}
use das.Database.Laws.{upsert_apart, upsert_versions, upsert_twice}
use das.Bubblegum.Upserts.{
  LeafInfo, set_leaf_flags, set_leaf_info, set_owner_and_delegate, set_seq, leaf_row, owner_row,
  seq_row,
}

set_leaf-set_leaf :
    (x y : Option ℕ) (l l' : LeafInfo) (s u : ℤ) (r : Asset)
    → is_some x ≡ is_some y
    → set_leaf_flags x l s (set_leaf_flags y l' u r) ≡ set_leaf_flags x l s r
set_leaf-set_leaf none none l l' s u r h = refl
set_leaf-set_leaf (some a) (some b) l l' s u r h = refl
set_leaf-set_leaf none (some b) l l' s u r h = absurd (cc)
set_leaf-set_leaf (some a) none l l' s u r h = absurd (cc)

-- What a write of the leaf columns leaves as it is.
set_leaf_seq :
    (x : Option ℕ) (l : LeafInfo) (s : ℤ) (r : Asset)
    → ((set_leaf_flags x l s r).seq ≡ r.seq) × ((set_leaf_flags x l s r).leaf_seq ≡ some s)
set_leaf_seq none l s r = (refl, refl)
set_leaf_seq (some a) l s r = (refl, refl)

set_leaf-set_owner :
    (x : Option ℕ) (l : LeafInfo) (s : ℤ) (owner : Pubkey) (delegate : Option Pubkey) (u : ℤ)
    (r : Asset)
    → set_leaf_flags x l s (set_owner_and_delegate owner delegate u r)
      ≡ set_owner_and_delegate owner delegate u (set_leaf_flags x l s r)
set_leaf-set_owner none l s owner delegate u r = refl
set_leaf-set_owner (some a) l s owner delegate u r = refl

set_leaf_open :
    (x : Option ℕ) (l : LeafInfo) (s u : ℤ) (r : Asset)
    → (nonzero_or_null (set_leaf_flags x l s r).seq
        && ge_or_null u (set_leaf_flags x l s r).owner_delegate_seq)
      ≡ (nonzero_or_null r.seq && ge_or_null u r.owner_delegate_seq)
set_leaf_open none l s u r = refl
set_leaf_open (some a) l s u r = refl

set_leaf-set_seq :
    (x : Option ℕ) (l : LeafInfo) (s u : ℤ) (r : Asset)
    → set_leaf_flags x l s (set_seq u r) ≡ set_seq u (set_leaf_flags x l s r)
set_leaf-set_seq none l s u r = refl
set_leaf-set_seq (some a) l s u r = refl

set_leaf_newer :
    (x : Option ℕ) (l : LeafInfo) (s u : ℤ) (r : Asset)
    → newer_or_null u (set_leaf_flags x l s r).seq ≡ newer_or_null u r.seq
set_leaf_newer none l s u r = refl
set_leaf_newer (some a) l s u r = refl

pub nonzero : (u : ℤ) → u ≢ pos 0 → nonzero_or_null (some u) ≡ true
nonzero u h = ground arith

pub leaf_row_comm :
    (id : Pubkey) (l l' : LeafInfo) (s u : ℤ) (r : Option Asset)
    → is_some l.flags ≡ is_some l'.flags
    → s ≢ u
    → leaf_row id l s (leaf_row id l' u r) ≡ leaf_row id l' u (leaf_row id l s r)
unfolding leaf_row set_leaf_info
leaf_row_comm id l l' s u r h n =
    upsert_versions (set_leaf_info l s) (set_leaf_info l' u) (default_asset id)
      (λ x. nonzero_or_null x.seq) (λ x. x.leaf_seq) s u n
      (λ x. set_leaf-set_leaf l.flags l'.flags l l' s u x h)
      (λ x. set_leaf-set_leaf l'.flags l.flags l' l u s x (sym h))
      (λ x. (set_leaf_seq l.flags l s x).1) (λ x. (set_leaf_seq l'.flags l' u x).1)
      (λ x. ap nonzero_or_null (set_leaf_seq l.flags l s x).0)
      (λ x. ap nonzero_or_null (set_leaf_seq l'.flags l' u x).0) refl r

pub owner_row_comm :
    (id owner owner' : Pubkey) (delegate delegate' : Option Pubkey) (s u : ℤ) (r : Option Asset)
    → s ≢ u
    → owner_row id owner delegate s (owner_row id owner' delegate' u r)
      ≡ owner_row id owner' delegate' u (owner_row id owner delegate s r)
unfolding owner_row
owner_row_comm id owner owner' delegate delegate' s u r n =
    upsert_versions (set_owner_and_delegate owner delegate s)
      (set_owner_and_delegate owner' delegate' u) (default_asset id) (λ x. nonzero_or_null x.seq)
      (λ x. x.owner_delegate_seq) s u n (λ x. refl) (λ x. refl) (λ x. refl) (λ x. refl) (λ x. refl)
      (λ x. refl) refl r

pub seq_row_comm :
    (id : Pubkey) (s u : ℤ) (r : Option Asset)
    → s ≢ pos 0
    → u ≢ pos 0
    → seq_row id s (seq_row id u r) ≡ seq_row id u (seq_row id s r)
unfolding seq_row
seq_row_comm id s u none p q = ground arith
seq_row_comm id s u (some r) p q = ground arith

pub leaf_row-owner_row :
    (id : Pubkey) (l : LeafInfo) (owner : Pubkey) (delegate : Option Pubkey) (s u : ℤ)
    (r : Option Asset)
    → leaf_row id l s (owner_row id owner delegate u r)
      ≡ owner_row id owner delegate u (leaf_row id l s r)
unfolding leaf_row set_leaf_info owner_row
leaf_row-owner_row id l owner delegate s u r =
    upsert_apart (set_leaf_info l s) (set_owner_and_delegate owner delegate u) (default_asset id)
      (λ x. nonzero_or_null x.seq && ge_or_null s x.leaf_seq)
      (λ x. nonzero_or_null x.seq && ge_or_null u x.owner_delegate_seq)
      (λ x. set_leaf-set_owner l.flags l s owner delegate u x) (λ x h. refl)
      (λ x h. set_leaf_open l.flags l s u x) refl (set_leaf_open l.flags l s u (default_asset id)) r

-- An open row stays open when a nonzero `seq` is written.
open_after :
    (u : ℤ) (b : Bool) (q : Option ℤ)
    → u ≢ pos 0
    → newer_or_null u q ≡ true
    → (nonzero_or_null (some u) && b) ≡ (nonzero_or_null q && b)
open_after u b none n h = ground arith
open_after u b (some q) n h = ground arith

pub leaf_row-seq_row :
    (id : Pubkey) (l : LeafInfo) (s u : ℤ) (r : Option Asset)
    → u ≢ pos 0
    → leaf_row id l s (seq_row id u r) ≡ seq_row id u (leaf_row id l s r)
unfolding leaf_row set_leaf_info seq_row
leaf_row-seq_row id l s u r n =
    upsert_apart (set_leaf_info l s) (set_seq u) (default_asset id)
      (λ x. nonzero_or_null x.seq && ge_or_null s x.leaf_seq) (λ x. newer_or_null u x.seq)
      (λ x. set_leaf-set_seq l.flags l s u x)
      (λ x h. open_after u (ge_or_null s x.leaf_seq) x.seq n h)
      (λ x h. set_leaf_newer l.flags l s u x) (open_after u true none n refl)
      (set_leaf_newer l.flags l s u (default_asset id)) r

pub owner_row-seq_row :
    (id owner : Pubkey) (delegate : Option Pubkey) (s u : ℤ) (r : Option Asset)
    → u ≢ pos 0
    → owner_row id owner delegate s (seq_row id u r)
      ≡ seq_row id u (owner_row id owner delegate s r)
unfolding owner_row seq_row
owner_row-seq_row id owner delegate s u r n =
    upsert_apart (set_owner_and_delegate owner delegate s) (set_seq u) (default_asset id)
      (λ x. nonzero_or_null x.seq && ge_or_null s x.owner_delegate_seq) (λ x. newer_or_null u x.seq)
      (λ x. refl) (λ x h. open_after u (ge_or_null s x.owner_delegate_seq) x.seq n h) (λ x h. refl)
      (open_after u true none n refl) refl r

-- Each of the statements, sent twice.
pub leaf_row_twice :
    (id : Pubkey) (l : LeafInfo) (s : ℤ) (r : Option Asset)
    → leaf_row id l s (leaf_row id l s r) ≡ leaf_row id l s r
unfolding leaf_row set_leaf_info
leaf_row_twice id l s =
    upsert_twice (set_leaf_info l s) (set_leaf_info l s) (default_asset id) _
      λ r. set_leaf-set_leaf l.flags l.flags l l s s r refl

pub owner_row_twice :
    (id owner : Pubkey) (delegate : Option Pubkey) (s : ℤ) (r : Option Asset)
    → owner_row id owner delegate s (owner_row id owner delegate s r)
      ≡ owner_row id owner delegate s r
unfolding owner_row
owner_row_twice id owner delegate s =
    upsert_twice (set_owner_and_delegate owner delegate s) (set_owner_and_delegate owner delegate s)
      (default_asset id) _ λ r. refl

pub seq_row_twice :
    (id : Pubkey) (s : ℤ) (r : Option Asset) → seq_row id s (seq_row id s r) ≡ seq_row id s r
unfolding seq_row
seq_row_twice id s = upsert_twice (set_seq s) (set_seq s) (default_asset id) _ λ r. refl
