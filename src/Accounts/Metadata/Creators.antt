-- ===== src/Accounts/Metadata/Creators.antt =====
-- The creators that are read after several updates of a metadata account.
use das.Prelude.{
  ℕ, suc, ℤ, pos, negsuc, ◌≡◌, refl, sym, ap, ◌∙◌, true, false, some, List, [], ◌∷◌, ◌++◌, All,
  ◌<ℤ◌, leb_ℤ, eqb_ℤ, if◌then◌else◌, arith,
}
use das.Database.{Pubkey, AssetCreator, at_least}
use das.Bubblegum.Types.{Creator}
use das.Accounts.Metadata.{
  creator_model, put_account_creators, max_from, eq_column, retain, column, retain_seq,
  filter_out_stale_creators,
}

-- A row that an older update left.
record Older (u : ℤ) (r : AssetCreator) : Type 0 where
  below : at_least (some u) r.slot_updated ≡ true
  differs : eq_column r.slot_updated (some u) ≡ false

-- The rows of the newest update, and then older ones.
Merged : Pubkey → ℤ → ℕ → List Creator → List AssetCreator → Type 0
Merged id u i cs rows =
    (rest : List AssetCreator) × (rows ≡ put_account_creators id u i cs [] ++ rest)
    × All (Older u) rest

append_nil : (rows : List AssetCreator) → rows ++ [] ≡ rows
append_nil [] = refl
append_nil (r ∷ rs) = ap (λ l. r ∷ l) (append_nil rs)

older : (id : Pubkey) (s u : ℤ) (i : ℕ) (c : Creator) → s <ℤ u → Older u (creator_model id s i c)
older id s u i c h = record { below = ground arith; differs = ground arith }

models-Older :
    (id : Pubkey) (s u : ℤ) (i : ℕ) (cs : List Creator)
    → s <ℤ u
    → All (Older u) (put_account_creators id s i cs [])
unfolding put_account_creators
models-Older id s u i [] h = tt
models-Older id s u i (c ∷ cs) h = (older id s u i c h, models-Older id s u (suc i) cs h)

-- The newest update on older rows.
newest_last :
    (id : Pubkey) (u : ℤ) (i : ℕ) (cs : List Creator) (rows : List AssetCreator)
    → All (Older u) rows
    → Merged id u i cs (put_account_creators id u i cs rows)
unfolding put_account_creators Merged
newest_last id u i [] rows h = (rows, refl, h)
newest_last id u i (c ∷ cs) [] h = ([], sym (append_nil _), tt)
newest_last id u i (c ∷ cs) (r ∷ rows) (o, h) =
    let (rest, e, k) = newest_last id u (suc i) cs rows h in
    (rest, rw (o.below) (ap (λ l. creator_model id u i c ∷ l) e), k)

-- An older update on the rows of the newest one.
newest_first :
    (id : Pubkey) (s u : ℤ) (i : ℕ) (cs cs' : List Creator)
    → s <ℤ u
    → Merged id u i cs (put_account_creators id s i cs' (put_account_creators id u i cs []))
unfolding put_account_creators Merged
newest_first id s u i cs [] h = ([], sym (append_nil _), tt)
newest_first id s u i [] (c' ∷ cs') h = (_, refl, models-Older id s u i (c' ∷ cs') h)
newest_first id s u i (c ∷ cs) (c' ∷ cs') h =
    let (rest, e, k) = newest_first id s u (suc i) cs cs' h in
    let kept : leb_ℤ u s ≡ false = ground arith in
    (rest, rw (kept) (ap (λ l. creator_model id u i c ∷ l) e), k)

leb_refl : (u : ℤ) → leb_ℤ u u ≡ true
leb_refl (pos n) = ground arith
leb_refl (negsuc n) = ground arith

eqb_refl : (u : ℤ) → eqb_ℤ u u ≡ true
eqb_refl (pos n) = ground arith
eqb_refl (negsuc n) = ground arith

max-Older :
    (u : ℤ) (rest : List AssetCreator)
    → All (Older u) rest
    → max_from (some u) (column (λ x. x.slot_updated) rest) ≡ some u
max-Older u [] h = refl
max-Older u (r ∷ rest) (o, h) =
    ap (λ b. max_from (if b then some u else r.slot_updated) (column (λ x. x.slot_updated) rest))
      o.below
    ∙ max-Older u rest h

max_merged :
    (id : Pubkey) (u : ℤ) (i : ℕ) (cs : List Creator) (rest : List AssetCreator)
    → All (Older u) rest
    → max_from (some u) (column (λ x. x.slot_updated) (put_account_creators id u i cs [] ++ rest))
      ≡ some u
unfolding put_account_creators
max_merged id u i [] rest h = max-Older u rest h
max_merged id u i (c ∷ cs) rest h =
    let rows = put_account_creators id u (suc i) cs [] ++ rest in
    ap (λ b. max_from (if b then some u else some u) (column (λ x. x.slot_updated) rows))
      (leb_refl u)
    ∙ max_merged id u (suc i) cs rest h

retain-Older :
    (u : ℤ) (rest : List AssetCreator)
    → All (Older u) rest
    → retain (λ x. eq_column x.slot_updated (some u)) rest ≡ []
retain-Older u [] h = refl
retain-Older u (r ∷ rest) (o, h) = rw (o.differs) (retain-Older u rest h)

retain_merged :
    (id : Pubkey) (u : ℤ) (i : ℕ) (cs : List Creator) (rest : List AssetCreator)
    → All (Older u) rest
    → retain (λ x. eq_column x.slot_updated (some u)) (put_account_creators id u i cs [] ++ rest)
      ≡ put_account_creators id u i cs []
unfolding put_account_creators
retain_merged id u i [] rest h = retain-Older u rest h
retain_merged id u i (c ∷ cs) rest h =
    rw (eqb_refl u) (ap (λ l. creator_model id u i c ∷ l) (retain_merged id u (suc i) cs rest h))

retain_zero :
    (id : Pubkey) (u : ℤ) (i : ℕ) (cs : List Creator)
    → retain (λ x. eq_column x.seq (some (pos 0))) (put_account_creators id u i cs [])
      ≡ put_account_creators id u i cs []
unfolding put_account_creators
retain_zero id u i [] = refl
retain_zero id u i (c ∷ cs) = ap (λ l. creator_model id u i c ∷ l) (retain_zero id u (suc i) cs)

-- What is read of merged rows, if the newest update has a creator.
filter-Merged :
    (id : Pubkey) (u : ℤ) (i : ℕ) (c : Creator) (cs : List Creator) (rows : List AssetCreator)
    → Merged id u i (c ∷ cs) rows
    → filter_out_stale_creators rows ≡ put_account_creators id u i (c ∷ cs) []
unfolding Merged put_account_creators filter_out_stale_creators
filter-Merged id u i c cs rows (rest, e, h) =
    let all = put_account_creators id u i (c ∷ cs) [] ++ rest in
    ap filter_out_stale_creators e
    ∙ ap (λ n. retain_seq (retain (λ x. eq_column x.slot_updated n) all))
        (max_merged id u (suc i) cs rest h)
    ∙ ap retain_seq (retain_merged id u i (c ∷ cs) rest h)
    ∙ retain_zero id u i (c ∷ cs)

-- Two updates of an asset that has no creators yet, where the newer one has a creator: whichever
-- comes first, the creators that are read are those of the newer one, in its order. But a newer
-- update without creators leaves those of the older one to be read.
pub filter_out_stale_creators-put_account_creators :
    (id : Pubkey) (s u : ℤ) (c : Creator) (cs cs' : List Creator)
    → s <ℤ u
    → let new = put_account_creators id u 0 (c ∷ cs) in
      let old = put_account_creators id s 0 cs' in
      (filter_out_stale_creators (new (old [])) ≡ new [])
      × (filter_out_stale_creators (old (new [])) ≡ new [])
      × (filter_out_stale_creators
            (put_account_creators id u 0 [] (put_account_creators id s 0 (c ∷ cs) []))
          ≡ put_account_creators id s 0 (c ∷ cs) [])
unfolding Merged put_account_creators
filter_out_stale_creators-put_account_creators id s u c cs cs' h = (
  filter-Merged id u 0 c cs _ (newest_last id u 0 (c ∷ cs) _ (models-Older id s u 0 cs' h)),
  filter-Merged id u 0 c cs _ (newest_first id s u 0 (c ∷ cs) cs' h),
  filter-Merged id s 0 c cs _ ([], sym (append_nil _), tt),
)
