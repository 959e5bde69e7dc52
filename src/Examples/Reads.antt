-- ===== src/Examples/Reads.antt =====
-- Updates of the groups of a Core asset, a database with two assets, and a search.
use das.Prelude.{
  any, Option, ◌≤◌, ◌||◌, not, ◌==◌, Text, ℕ, pos, ◌≡◌, refl, ◌≤ℤ◌, leb, true, false, none, some,
  List, [], ◌∷◌, All, ◌+◌, arith, if◌then◌else◌,
}
use das.Dapi.Terms
use das.Dapi.Terms.{custom, ConditionType, SearchAssetsQuery, Row, Query}
use das.Dapi.Search.{
  selects, name_expr, asset_terms, related_terms, validate, build_query, conditions,
}
use das.Dapi.Search.Loose.{conditions_all, has_twice, conditions-any, conditions_joins_twice}
use das.Database.{
  OwnerType, ChainMutability, Mutability, Pubkey, Asset, AssetData, AssetCreator, default_asset,
}
use das.Dapi.Groups.{collection, Grouping, filter_out_stale_asset_groupings}
use das.Dapi.Groups.Reaches.{Update, run_updates, without_data}
use das.Dapi.Groups.Newest.{shows, filter_out_stale_asset_groupings-run_updates}
use das.Dapi.Assets.{Tables, Options, ok, get_by_id}
use das.Dapi.Assets.Present.{has_data}
use das.Dapi.Assets.Batch.{is_in, ids_of, get_related_for_assets}
use das.Dapi.Assets.Alone.{get_related_for_assets_alone}

-- The update of slot 3 comes before that of slot 1.
abbrev updates : List Update
updates = (pos 3, 9 ∷ []) ∷ (pos 1, 8 ∷ []) ∷ []

at_most : (a b : ℕ) → leb a b ≡ true → pos a ≤ℤ pos b
at_most a b h = ground arith

filter_out_stale_asset_groupings-run_updates_example :
    shows 8 (filter_out_stale_asset_groupings (without_data (run_updates 20 updates []))) ≡ false
filter_out_stale_asset_groupings-run_updates_example =
    filter_out_stale_asset_groupings-run_updates 20 8 (pos 3) updates
      (at_most 3 3 refl, (at_most 1 3 refl, tt)) refl

abbrev asset : Pubkey → Asset
asset id = record (default_asset id) { supply = 1; asset_data = some id }

abbrev asset_data : Pubkey → AssetData
asset_data id = record {
  id = id;
  chain_data_mutability = ChainMutability.mutable;
  chain_data = 5;
  metadata_url = 117 ∷ [];
  metadata_mutability = Mutability.mutable;
  metadata = 6;
  slot_updated = pos 1;
  reindex = none;
  raw_name = none;
  raw_symbol = none;
  base_info_seq = none;
}

abbrev creator : Pubkey → AssetCreator
creator id = record {
  asset_id = id;
  creator = some (id + 1);
  share = pos 100;
  verified = true;
  seq = some (pos 0);
  slot_updated = some (pos 1);
  position = pos 0;
}

abbrev in_collection : Pubkey → Grouping
in_collection id = record {
  asset_id = id;
  group_key = collection;
  group_value = some 44;
  slot_updated = some (pos 1);
  verified = true;
  group_info_seq = some (pos 0);
}

-- The assets 20 and 21, whose rows are mixed.
abbrev tables : Tables
tables = record {
  asset = λ id. if leb id 21 then some (asset id) else none;
  asset_data = λ id. if leb id 21 then some (asset_data id) else none;
  asset_creators = creator 21 ∷ creator 20 ∷ [];
  asset_authority = [];
  asset_grouping = in_collection 20 ∷ in_collection 21 ∷ [];
  tokens = λ id. none;
  attachments = [];
}

abbrev options : Options
options = record {
  show_unverified_collections = false;
  show_collection_metadata = true;
  show_inscription = false;
  show_fungible = true;
}

get_related_for_assets_alone_example :
    All
      (λ a. get_by_id tables a.asset.id options ≡ ok a)
      (get_related_for_assets tables (asset 20 ∷ asset 21 ∷ []) options none)
    × ((id : Pubkey)
        → is_in (ids_of (get_related_for_assets tables (asset 20 ∷ asset 21 ∷ []) options none)) id
          ≡ any (has_data tables id) (asset 20 ∷ asset 21 ∷ []))
get_related_for_assets_alone_example =
    get_related_for_assets_alone tables (asset 20 ∷ asset 21 ∷ []) options refl refl
      ((refl, refl, refl), ((refl, refl, refl), tt))

-- Assets of the owner 3, or with this JSON.
abbrev search : SearchAssetsQuery
search = record {
  negate = none;
  condition_type = some ConditionType.any;
  interface = none;
  specification_version = none;
  specification_asset_class = none;
  owner_address = some 3;
  owner_type = none;
  creator_address = none;
  creator_verified = none;
  authority_address = none;
  grouping = none;
  delegate = none;
  frozen = none;
  supply = none;
  supply_mint = none;
  compressed = none;
  compressible = none;
  royalty_target_type = none;
  royalty_target = none;
  royalty_amount = none;
  burnt = none;
  json_uri = some (117 ∷ []);
  name = none;
  token_type = none;
  is_agent = none;
  agent_token = none;
  asset_signer = none;
}

abbrev ascii : List ℕ → Option Text
ascii t = some t

-- Another owner's asset.
abbrev joined_row : Row
joined_row = record {
  asset = record (asset 20) { owner = some 4 };
  token_account_owner = none;
  creator = none;
  creator_verified = none;
  authority = none;
  group_key_is = λ t. none;
  group_value_is = λ t. none;
  metadata_url_is = λ t. some false;
}

search_query_found : conditions ascii search ≡ Terms.ok (build_query search [])
unfolding conditions validate
search_query_found = refl

conditions-any_example : selects (build_query search []) joined_row ≡ some (some true)
conditions-any_example =
    conditions-any ascii search (build_query search []) joined_row search_query_found refl refl refl
      refl refl

-- The same with the name "A".
abbrev named_search : SearchAssetsQuery
named_search = record search { name = some (65 ∷ []) }

abbrev named_query : Query
named_query = build_query named_search (custom (name_expr (65 ∷ [])) ∷ [])

named_query_found : conditions ascii named_search ≡ Terms.ok named_query
unfolding conditions validate
named_query_found = refl

conditions_joins_twice_example : has_twice named_query.joins ≡ true
unfolding build_query
conditions_joins_twice_example =
    conditions_joins_twice ascii named_search named_query named_query_found

-- Assets of the owner 3, with the condition type and the negation given.
abbrev owners_search : SearchAssetsQuery
owners_search = record search {
  condition_type = some ConditionType.all;
  negate = some false;
  json_uri = none;
}

abbrev owners_row : Row
owners_row = record joined_row { asset = record (asset 20) { owner = some 3 } }

owners_search_found : conditions ascii owners_search ≡ Terms.ok (build_query owners_search [])
unfolding conditions validate
owners_search_found = refl

owners_row_selected : selects (build_query owners_search []) owners_row ≡ some (some true)
unfolding build_query asset_terms related_terms
owners_row_selected = refl

conditions_all_example :
    (owners_row.asset.owner_type ≡ OwnerType.single)
    × (owners_row.asset.supply ≤ 1)
    × ((not (owners_row.asset.supply == 0) || owners_row.asset.burnt) ≡ true)
conditions_all_example =
    conditions_all ascii owners_search (build_query owners_search []) owners_row owners_search_found
      refl refl refl refl refl refl owners_row_selected
