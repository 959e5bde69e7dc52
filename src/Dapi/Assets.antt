-- ===== src/Dapi/Assets.antt =====
-- digital_asset_types/src/dao/scopes/asset.rs: get_by_id, which reads one asset. The rows of a table are
-- in the order in which the database returns them; the creators' is that of their position.
pub mod Batch
pub mod Loops
pub mod Steps
pub mod Present
pub mod Alone
use das.Prelude.{
  ℕ, Bool, true, false, ◌&&◌, ◌||◌, Option, none, some, List, [], ◌∷◌, ◌++◌, map, filter, any,
  is_some, ◌==◌, if◌then◌else◌,
}
use das.Database.{Pubkey, Json, Asset, AssetData, AssetCreator, AssetAuthority, Token}
use das.Accounts.Metadata.{filter_out_stale_creators}
use das.Dapi.Groups.{GroupKey, collection, group, Grouping, filter_out_stale_asset_groupings}

-- `asset_v1_account_attachments`. `root` is the field of that name in the JSON value, if it is that of
-- an inscription.
pub record Attachment : Type 0 where
  pub id : Pubkey
  pub asset_id : Option Pubkey
  pub «data» : Option Json
  pub root : Option Pubkey

-- The tables with one row for a key are functions from it.
pub record Tables : Type 0 where
  pub asset : Pubkey → Option Asset
  pub asset_data : Pubkey → Option AssetData
  pub asset_creators : List AssetCreator
  pub asset_authority : List AssetAuthority
  pub asset_grouping : List Grouping
  pub tokens : Pubkey → Option Token
  pub attachments : List Attachment

pub record Options : Type 0 where
  pub show_unverified_collections : Bool
  pub show_collection_metadata : Bool
  pub show_inscription : Bool
  pub show_fungible : Bool

pub record FullAsset : Type 0 where
  pub asset : Asset
  pub «data» : AssetData
  pub authorities : List AssetAuthority
  pub creators : List AssetCreator
  pub inscription : Option Attachment
  pub groups : List (Grouping × Option AssetData)
  pub token_info : Option Token

pub data DbErr : Type 0 where
  record_not_found no_supply : DbErr

pub data Result (A : Type 0) : Type 0 where
  ok : A → Result A
  err : DbErr → Result A

-- `GroupKey.eq("collection").and(GroupValue.is_not_null())`, or another key.
abbrev pub has_value_if_collection : Grouping → Bool
has_value_if_collection g = elim g.group_key [ collection ↦ is_some g.group_value | group ↦ true ]

-- `find_also_related(asset_data::Entity)`: the relation is from the grouping's `asset_id` to the id.
abbrev pub with_metadata : Tables → Bool → Grouping → Grouping × Option AssetData
with_metadata t true g = (g, t.asset_data g.asset_id)
with_metadata t false g = (g, none)

-- `.one(conn)`
abbrev pub first : {A : Type 0} → List A → Option A
first [] = none
first (x ∷ xs) = some x

abbrev pub eq_option : Option Pubkey → Pubkey → Bool
eq_option none k = false
eq_option (some a) k = a == k

unfoldable pub get_inscription_by_mint : Tables → Pubkey → Option Attachment
get_inscription_by_mint t mint =
    first (filter (λ a. is_some a.«data» && eq_option a.root mint) t.attachments)

abbrev pub found_tokens : Pubkey → Option Token → List (Pubkey × Token)
found_tokens mint none = []
found_tokens mint (some token) = (mint, token) ∷ []

-- `Mint.is_in(ids)`, each token with its key.
unfoldable pub find_tokens : Tables → List Pubkey → List (Pubkey × Token)
find_tokens t [] = []
find_tokens t (id ∷ ids) = found_tokens id (t.tokens id) ++ find_tokens t ids

abbrev pub first_token : List (Pubkey × Token) → Option Token
first_token [] = none
first_token ((mint, token) ∷ ts) = some token

abbrev pub read_alone : Tables → Options → Pubkey → Asset → AssetData → FullAsset
read_alone t o id asset row = record {
  asset = asset;
  «data» = row;
  authorities = filter (λ a. a.asset_id == asset.id) t.asset_authority;
  creators = filter_out_stale_creators (filter (λ c. c.asset_id == asset.id) t.asset_creators);
  inscription = if o.show_inscription then get_inscription_by_mint t id else none;
  groups = filter_out_stale_asset_groupings (
      map (with_metadata t o.show_collection_metadata) (
        filter (λ g. g.verified)
          (filter has_value_if_collection
            (filter (λ g. g.asset_id == asset.id) t.asset_grouping))));
  token_info = if o.show_fungible then first_token (find_tokens t (id ∷ [])) else none;
}

abbrev pub unless_no_supply :
    Tables → Options → Pubkey → Asset → Option AssetData → Result FullAsset
unless_no_supply t o id asset none = err record_not_found
unless_no_supply t o id asset (some row) =
    if asset.supply == 0 then err no_supply else ok (read_alone t o id asset row)

-- `find_also_related(asset_data::Entity)`, from the asset's `asset_data`.
abbrev pub data_of : Tables → Asset → Option AssetData
data_of t asset = elim asset.asset_data [ none ↦ none | some id ↦ t.asset_data id ]

abbrev pub found_asset : Tables → Options → Pubkey → Option Asset → Result FullAsset
found_asset t o id none = err record_not_found
found_asset t o id (some asset) = unless_no_supply t o id asset (data_of t asset)

unfoldable pub get_by_id : Tables → Pubkey → Options → Result FullAsset
get_by_id t id o = found_asset t o id (t.asset id)
