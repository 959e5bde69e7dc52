-- ===== src/Dapi/Assets/Batch.antt =====
-- digital_asset_types/src/dao/scopes/asset.rs: get_related_for_assets, which reads the rows that belong
-- to the assets of a query.
use das.Prelude.{
  Bool, false, ◌||◌, Option, none, some, List, [], ◌∷◌, ◌++◌, map, filter, any, ◌==◌, if◌then◌else◌,
}
use das.Database.{Pubkey, Asset, AssetData, AssetCreator, AssetAuthority, Token}
use das.Accounts.Metadata.{filter_out_stale_creators}
use das.Dapi.Groups.{Grouping, filter_out_stale_asset_groupings}
use das.Dapi.Assets.{
  Attachment, Tables, Options, FullAsset, has_value_if_collection, with_metadata, eq_option,
  find_tokens,
}

-- The IndexMap from asset ids, in its order. No id has two entries.
abbrev pub is_in : List Pubkey → Pubkey → Bool
is_in ids id = any (λ i. i == id) ids

abbrev pub get_mut : Pubkey → (FullAsset → FullAsset) → List FullAsset → List FullAsset
get_mut id f = map (λ (a : FullAsset). if id == a.asset.id then f a else a)

abbrev pub ids_of : List FullAsset → List Pubkey
ids_of = map (λ a. a.asset.id)

abbrev pub insert : FullAsset → List FullAsset → List FullAsset
insert a m = if is_in (ids_of m) a.asset.id then get_mut a.asset.id (λ _. a) m else m ++ a ∷ []

abbrev pub new_full_asset : Asset → AssetData → FullAsset
new_full_asset asset row = record {
  asset = asset;
  «data» = row;
  authorities = [];
  creators = [];
  inscription = none;
  groups = [];
  token_info = none;
}

-- The rows of `asset_data` whose id is that of an asset of the query.
abbrev pub data_among : Tables → List Pubkey → Asset → Option AssetData
data_among t ids asset = elim asset.asset_data [
  | none ↦ none
  | some id ↦ if is_in ids id then t.asset_data id else none
]

abbrev pub insert_found : Asset → Option AssetData → List FullAsset → List FullAsset
insert_found asset none m = m
insert_found asset (some row) m = insert (new_full_asset asset row) m

unfoldable pub insert_all : Tables → List Pubkey → List Asset → List FullAsset → List FullAsset
insert_all t ids [] m = m
insert_all t ids (a ∷ as') m = insert_all t ids as' (insert_found a (data_among t ids a) m)

-- `for row in rows { if let Some(asset) = assets_map.get_mut(&key) { … } }`
unfoldable pub for_each :
    {R : Type 0}
    → (R → Pubkey)
    → (R → FullAsset → FullAsset)
    → List R
    → List FullAsset
    → List FullAsset
for_each key f [] m = m
for_each key f (r ∷ rows) m = for_each key f rows (get_mut (key r) (f r) m)

abbrev pub push_creator : AssetCreator → FullAsset → FullAsset
push_creator c a = record a { creators = a.creators ++ c ∷ [] }

abbrev pub push_authority : AssetAuthority → FullAsset → FullAsset
push_authority x a = record a { authorities = a.authorities ++ x ∷ [] }

abbrev pub push_group : Grouping × Option AssetData → FullAsset → FullAsset
push_group g a = record a { groups = a.groups ++ g ∷ [] }

abbrev pub set_token : Pubkey × Token → FullAsset → FullAsset
set_token p a = record a { token_info = some p.1 }

abbrev pub set_inscription : Attachment → FullAsset → FullAsset
set_inscription x a = record a { inscription = some x }

abbrev pub clean_creators : FullAsset → FullAsset
clean_creators a = record a { creators = filter_out_stale_creators a.creators }

abbrev pub clean_groups : FullAsset → FullAsset
clean_groups a = record a { groups = filter_out_stale_asset_groupings a.groups }

abbrev pub is_creator : Pubkey → AssetCreator → Bool
is_creator required c = eq_option c.creator required

abbrev pub retain_required : Option Pubkey → List FullAsset → List FullAsset
retain_required none m = m
retain_required (some required) m = filter (λ a. any (is_creator required) a.creators) m

abbrev pub among : List Pubkey → Option Pubkey → Bool
among ids none = false
among ids (some id) = is_in ids id

abbrev pub with_creators : Tables → List FullAsset → List FullAsset
with_creators t m = map clean_creators (
    for_each (λ c. c.asset_id) push_creator
      (filter (λ c. is_in (ids_of m) c.asset_id) t.asset_creators) m)

abbrev pub with_authorities : Tables → List FullAsset → List FullAsset
with_authorities t m =
    for_each (λ x. x.asset_id) push_authority
      (filter (λ x. is_in (ids_of m) x.asset_id) t.asset_authority) m

abbrev pub with_tokens : Tables → Bool → List FullAsset → List FullAsset
with_tokens t show m =
    if show then for_each (λ p. p.0) set_token (find_tokens t (ids_of m)) m else m

-- The attachment's own id is looked up.
abbrev pub with_inscriptions : Tables → Bool → List Pubkey → List FullAsset → List FullAsset
with_inscriptions t show asset_ids m =
    if show
    then for_each (λ x. x.id) set_inscription
        (filter (λ x. among asset_ids x.asset_id) t.attachments) m
    else m

abbrev pub with_groups : Tables → Options → List FullAsset → List FullAsset
with_groups t o m = map clean_groups (
    for_each (λ p. p.0.asset_id) push_group
      (map (with_metadata t o.show_collection_metadata) (
        filter (λ g. o.show_unverified_collections || g.verified)
          (filter has_value_if_collection
            (filter (λ g. is_in (ids_of m) g.asset_id) t.asset_grouping))))
      m)

unfoldable pub get_related_for_assets :
    Tables → List Asset → Options → Option Pubkey → List FullAsset
get_related_for_assets t assets o required =
    let asset_ids = map (λ (a : Asset). a.id) assets in
    let m = retain_required required (with_creators t (insert_all t asset_ids assets [])) in
    with_groups t o (
      with_inscriptions t o.show_inscription asset_ids
        (with_tokens t o.show_fungible (with_authorities t m)))
