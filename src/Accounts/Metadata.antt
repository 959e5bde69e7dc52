-- ===== src/Accounts/Metadata.antt =====
-- program_transformers/src/token_metadata/v1_asset.rs: what `save_v1_asset` writes to the authority
-- and the creators of an asset, and `filter_out_stale_creators` of
-- digital_asset_types/src/dao/scopes/asset.rs, which reads the creators.
pub mod Authority
pub mod Creators
use das.Prelude.{
  ℕ, suc, ℤ, pos, Bool, true, false, not, ◌&&◌, Option, none, some, List, [], ◌∷◌, ◌==◌, ltb_ℤ,
  eqb_ℤ, as_i16, if◌then◌else◌,
}
use das.Database.{Pubkey, AssetCreator, AssetAuthority, upsert, at_least}
use das.Bubblegum.Types.{Creator}

-- `WHERE excluded.slot_updated > … AND asset_authority.authority IS DISTINCT FROM excluded.authority`
unfoldable pub authority_account_row :
    Pubkey → Pubkey → ℤ → Option AssetAuthority → Option AssetAuthority
authority_account_row id authority slot =
    upsert (record { asset_id = id; authority = authority; seq = pos 0; slot_updated = slot })
      (λ r. record r { authority = authority; seq = pos 0; slot_updated = slot })
      λ r. ltb_ℤ r.slot_updated slot && not (r.authority == authority)

abbrev pub creator_model : Pubkey → ℤ → ℕ → Creator → AssetCreator
creator_model id slot i c = record {
  asset_id = id;
  creator = some c.address;
  share = pos c.share;
  verified = c.verified;
  seq = some (pos 0);
  slot_updated = some slot;
  position = as_i16 i;
}

-- The rows of one asset by position, from 0 without a gap, since a statement writes the first
-- positions: each row is inserted, or updated where its slot is not newer.
unfoldable pub put_account_creators :
    Pubkey → ℤ → ℕ → List Creator → List AssetCreator → List AssetCreator
put_account_creators id slot i [] rows = rows
put_account_creators id slot i (c ∷ cs) [] =
    creator_model id slot i c ∷ put_account_creators id slot (suc i) cs []
put_account_creators id slot i (c ∷ cs) (r ∷ rows) =
    let row = if at_least (some slot) r.slot_updated then creator_model id slot i c else r in
    row ∷ put_account_creators id slot (suc i) cs rows

-- `None` is below the other values.
abbrev pub max_from : Option ℤ → List (Option ℤ) → Option ℤ
max_from best [] = best
max_from best (x ∷ xs) = max_from (if at_least best x then best else x) xs

abbrev pub eq_column : Option ℤ → Option ℤ → Bool
eq_column none none = true
eq_column (some a) (some b) = eqb_ℤ a b
eq_column _ _ = false

abbrev pub retain : (AssetCreator → Bool) → List AssetCreator → List AssetCreator
retain p [] = []
retain p (r ∷ rs) = let rest = retain p rs in if p r then r ∷ rest else rest

abbrev pub column : (AssetCreator → Option ℤ) → List AssetCreator → List (Option ℤ)
column f [] = []
column f (r ∷ rs) = f r ∷ column f rs

abbrev pub has_zero : List (Option ℤ) → Bool
has_zero [] = false
has_zero (x ∷ xs) = let rest = has_zero xs in if eq_column x (some (pos 0)) then true else rest

-- The second half, on the creators of the newest slot.
abbrev pub retain_seq : List AssetCreator → List AssetCreator
retain_seq [] = []
retain_seq (r ∷ rs) =
    let seqs = column (λ x. x.seq) (r ∷ rs) in
    let seq = if has_zero seqs then some (pos 0) else max_from r.seq (column (λ x. x.seq) rs) in
    retain (λ x. eq_column x.seq seq) (r ∷ rs)

abbrev pub retain_newest : AssetCreator → List AssetCreator → List AssetCreator
retain_newest r rs =
    let newest = max_from r.slot_updated (column (λ x. x.slot_updated) rs) in
    retain_seq (retain (λ x. eq_column x.slot_updated newest) (r ∷ rs))

-- An empty creator stands for no creators.
abbrev pub unless_placeholder : Option Pubkey → List AssetCreator → List AssetCreator
unless_placeholder none rows = []
unless_placeholder (some c) rows = rows

unfoldable pub filter_out_stale_creators : List AssetCreator → List AssetCreator
filter_out_stale_creators [] = []
filter_out_stale_creators (r ∷ rs) = unless_placeholder r.creator (retain_newest r rs)
