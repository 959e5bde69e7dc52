-- ===== src/Dapi/Terms.antt =====
-- digital_asset_types/src/dao/mod.rs: what a SearchAssetsQuery holds, and the tests on one column, in
-- SQL's three-valued logic.
use das.Prelude.{ℕ, Bool, true, false, not, Option, none, some, List, [], ◌∷◌, Text, ◌==◌}
use das.Database.{
  OwnerType, SpecificationVersions, SpecificationAssetClass, RoyaltyTargetType, Pubkey, Asset,
}

pub data ConditionType : Type 0 where
  all any : ConditionType

pub data Interface : Type 0 where
  v1_nft v1_print nft legacy_nft fungible_asset fungible_token identity executable : Interface
  programmable_nft mpl_core_asset mpl_core_collection mpl_core_group : Interface
  mpl_bubblegum_v2 custom : Interface

pub data TokenTypeClass : Type 0 where
  fungible non_fungible compressed nft all : TokenTypeClass

pub record SearchAssetsQuery : Type 0 where
  pub negate : Option Bool
  pub condition_type : Option ConditionType
  pub interface : Option Interface
  pub specification_version : Option SpecificationVersions
  pub specification_asset_class : Option SpecificationAssetClass
  pub owner_address : Option Pubkey
  pub owner_type : Option OwnerType
  pub creator_address : Option Pubkey
  pub creator_verified : Option Bool
  pub authority_address : Option Pubkey
  pub grouping : Option (Text × Text)
  pub delegate : Option Pubkey
  pub frozen : Option Bool
  pub supply : Option ℕ
  pub supply_mint : Option Pubkey
  pub compressed : Option Bool
  pub compressible : Option Bool
  pub royalty_target_type : Option RoyaltyTargetType
  pub royalty_target : Option Pubkey
  pub royalty_amount : Option ℕ
  pub burnt : Option Bool
  pub json_uri : Option Text
  pub name : Option (List ℕ)
  pub token_type : Option TokenTypeClass
  pub is_agent : Option Bool
  pub agent_token : Option Pubkey
  pub asset_signer : Option Pubkey

-- `none` is null.
abbrev pub Truth : Type 0
Truth = Option Bool

abbrev pub and_sql : Truth → Truth → Truth
and_sql (some false) _ = some false
and_sql (some true) b = b
and_sql none (some false) = some false
and_sql none _ = none

abbrev pub or_sql : Truth → Truth → Truth
or_sql (some true) _ = some true
or_sql (some false) b = b
or_sql none (some true) = some true
or_sql none _ = none

abbrev pub not_sql : Truth → Truth
not_sql none = none
not_sql (some b) = some (not b)

-- A row of `asset` and of the tables that are joined, null where a table has no row for it.
pub record Row : Type 0 where
  pub asset : Asset
  pub token_account_owner : Option Pubkey
  pub creator : Option Pubkey
  pub creator_verified : Option Bool
  pub authority : Option Pubkey
  pub group_key_is : Text → Truth
  pub group_value_is : Text → Truth
  pub metadata_url_is : Text → Truth

abbrev pub Test : Type 0
Test = Row → Truth

-- What a condition is built of: a test on columns, or SQL text that stands in the statement as it is
-- (`SimpleExpr::Custom`).
pub data Term : Type 0 where
  test : Test → Term
  custom : Text → Term

pub data JoinedTable : Type 0 where
  token_accounts asset_creators asset_authority asset_grouping asset_data : JoinedTable

pub record Query : Type 0 where
  pub negate : Option Bool
  pub condition_type : Option ConditionType
  pub terms : List Term
  pub joins : List JoinedTable

pub data SearchErr : Type 0 where
  owner_type_with_token_type no_owner_address interface_with_token_type name_not_text : SearchErr

pub data SearchResult (A : Type 0) : Type 0 where
  ok : A → SearchResult A
  err : SearchErr → SearchResult A

-- The place of a value in its enum, to compare values.
abbrev pub version_code : SpecificationVersions → ℕ
version_code SpecificationVersions.unknown = 0
version_code SpecificationVersions.v0 = 1
version_code SpecificationVersions.v1 = 2
version_code SpecificationVersions.v2 = 3

abbrev pub class_code : SpecificationAssetClass → ℕ
class_code SpecificationAssetClass.fungible_asset = 0
class_code SpecificationAssetClass.fungible_token = 1
class_code SpecificationAssetClass.identity_nft = 2
class_code SpecificationAssetClass.mpl_bubblegum_v2 = 3
class_code SpecificationAssetClass.mpl_core_asset = 4
class_code SpecificationAssetClass.mpl_core_collection = 5
class_code SpecificationAssetClass.mpl_core_group = 6
class_code SpecificationAssetClass.nft = 7
class_code SpecificationAssetClass.non_transferable_nft = 8
class_code SpecificationAssetClass.print = 9
class_code SpecificationAssetClass.printable_nft = 10
class_code SpecificationAssetClass.programmable_nft = 11
class_code SpecificationAssetClass.transfer_restricted_nft = 12
class_code SpecificationAssetClass.unknown = 13

abbrev pub owner_type_code : OwnerType → ℕ
owner_type_code OwnerType.single = 0
owner_type_code OwnerType.token = 1
owner_type_code OwnerType.unknown = 2

abbrev pub royalty_code : RoyaltyTargetType → ℕ
royalty_code RoyaltyTargetType.creators = 0
royalty_code RoyaltyTargetType.fanout = 1
royalty_code RoyaltyTargetType.single = 2
royalty_code RoyaltyTargetType.unknown = 3

abbrev pub eq_by : {A : Type 0} → (A → ℕ) → Option A → A → Truth
eq_by code none b = none
eq_by code (some a) b = some (code a == code b)

abbrev pub eq_key : Option Pubkey → Pubkey → Truth
eq_key none b = none
eq_key (some a) b = some (a == b)

abbrev pub same_bool : Bool → Bool → Bool
same_bool true b = b
same_bool false b = not b

abbrev pub eq_bool : Option Bool → Bool → Truth
eq_bool none b = none
eq_bool (some a) b = some (same_bool a b)

-- `.add_option(self.x.map(…))`
abbrev pub add_option : {A : Type 0} → Option A → (A → Test) → List Test
add_option none f = []
add_option (some x) f = f x ∷ []

abbrev pub is_nft_class : SpecificationAssetClass → Bool
is_nft_class SpecificationAssetClass.nft = true
is_nft_class SpecificationAssetClass.mpl_core_asset = true
is_nft_class SpecificationAssetClass.programmable_nft = true
is_nft_class SpecificationAssetClass.mpl_core_collection = true
is_nft_class SpecificationAssetClass.mpl_core_group = true
is_nft_class SpecificationAssetClass.non_transferable_nft = true
is_nft_class SpecificationAssetClass.identity_nft = true
is_nft_class SpecificationAssetClass.print = true
is_nft_class SpecificationAssetClass.printable_nft = true
is_nft_class SpecificationAssetClass.transfer_restricted_nft = true
is_nft_class _ = false

abbrev pub is_fungible_class : SpecificationAssetClass → Bool
is_fungible_class SpecificationAssetClass.fungible_asset = true
is_fungible_class SpecificationAssetClass.fungible_token = true
is_fungible_class _ = false

abbrev pub in_class : (SpecificationAssetClass → Bool) → Option SpecificationAssetClass → Truth
in_class p none = none
in_class p (some c) = some (p c)
