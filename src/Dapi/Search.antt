-- ===== src/Dapi/Search.antt =====
-- digital_asset_types/src/dao/mod.rs: the condition and the joins of a SearchAssetsQuery. A condition is
-- evaluated on a row of the joined tables, unless it has SQL text of the client.
pub mod Loose
use das.Prelude.{
  map, ℕ, ℤ, pos, Bool, true, false, ◌&&◌, ◌||◌, not, Option, none, some, List, [], ◌∷◌, ◌++◌,
  is_some, Text, leb, ◌==◌, eqb_ℤ, if◌then◌else◌,
}
use das.Database.{
  OwnerType, SpecificationVersions, SpecificationAssetClass, RoyaltyTargetType, Pubkey, Asset,
}
use das.Dapi.Terms.{
  ConditionType, Interface, TokenTypeClass, SearchAssetsQuery, Truth, and_sql, or_sql, not_sql, Row,
  Test, Term, test, custom, JoinedTable, Query, SearchErr, SearchResult, version_code, class_code,
  owner_type_code, royalty_code, eq_by, eq_key, same_bool, eq_bool, add_option, is_nft_class,
  is_fungible_class, in_class, all, any, ok, err, owner_type_with_token_type, no_owner_address,
  interface_with_token_type, name_not_text, token_accounts, asset_creators, asset_authority,
  asset_grouping, asset_data, fungible, compressed, non_fungible, nft,
}

abbrev pub token_type_term : TokenTypeClass → Test
token_type_term compressed r = some (is_some r.asset.tree_id)
token_type_term nft r =
    and_sql (some (not (is_some r.asset.tree_id)))
      (in_class is_nft_class r.asset.specification_asset_class)
token_type_term non_fungible r =
    and_sql (some (not (is_some r.asset.tree_id)))
      (in_class is_nft_class r.asset.specification_asset_class)
token_type_term fungible r = in_class is_fungible_class r.asset.specification_asset_class
token_type_term all r = some (is_some r.asset.specification_asset_class)

-- Fungible tokens are also those of the owner's token accounts.
abbrev pub with_accounts : Option TokenTypeClass → Bool
with_accounts (some fungible) = true
with_accounts (some all) = true
with_accounts _ = false

abbrev pub owner_term : Option TokenTypeClass → Pubkey → Test
owner_term kind o r =
    if with_accounts kind
    then or_sql (eq_key r.asset.owner o) (eq_key r.token_account_owner o)
    else eq_key r.asset.owner o

unfoldable pub asset_terms : SearchAssetsQuery → List Test
asset_terms q =
    add_option q.specification_version (λ x r. eq_by version_code r.asset.specification_version x)
    ++ add_option q.token_type token_type_term
    ++ add_option q.specification_asset_class
        (λ x r. eq_by class_code r.asset.specification_asset_class x)
    ++ add_option q.owner_address (owner_term q.token_type)
    ++ add_option q.delegate (λ x r. eq_key r.asset.delegate x)
    ++ add_option q.frozen (λ x r. eq_bool (some r.asset.frozen) x)
    ++ add_option q.supply_mint (λ x r. eq_key r.asset.supply_mint x)
    ++ add_option q.compressed (λ x r. eq_bool (some r.asset.compressed) x)
    ++ add_option q.compressible (λ x r. eq_bool (some r.asset.compressible) x)
    ++ add_option q.royalty_target_type
        (λ x r. eq_by royalty_code (some r.asset.royalty_target_type) x)
    ++ add_option q.royalty_target (λ x r. eq_key r.asset.royalty_target x)
    ++ add_option q.royalty_amount (λ x r. some (eqb_ℤ r.asset.royalty_amount (pos x)))
    ++ add_option q.burnt (λ x r. eq_bool (some r.asset.burnt) x)
    ++ add_option q.is_agent (λ x r. eq_bool (some r.asset.is_agent) x)
    ++ add_option q.agent_token (λ x r. eq_key r.asset.agent_token x)
    ++ add_option q.asset_signer (λ x r. eq_key r.asset.asset_signer x)

abbrev pub supply_term : Option ℕ → Test
supply_term (some s) r = some (r.asset.supply == s)
supply_term none r = some (not (r.asset.supply == 0) || r.asset.burnt)

abbrev pub owner_type_term : Option OwnerType → Option TokenTypeClass → Test
owner_type_term (some o) kind r = eq_by owner_type_code (some r.asset.owner_type) o
owner_type_term none (some fungible) r =
    and_sql (eq_by owner_type_code (some r.asset.owner_type) OwnerType.token)
      (in_class is_fungible_class r.asset.specification_asset_class)
owner_type_term none (some all) r = some (is_some r.asset.specification_asset_class)
owner_type_term none _ r =
    and_sql (eq_by owner_type_code (some r.asset.owner_type) OwnerType.single)
      (some (leb r.asset.supply 1))

unfoldable pub related_terms : SearchAssetsQuery → List Test
related_terms q =
    add_option q.creator_address (λ x r. eq_key r.creator x)
    ++ add_option q.creator_verified (λ x r. eq_bool r.creator_verified x)
    ++ add_option q.authority_address (λ x r. eq_key r.authority x)
    ++ add_option q.grouping (λ x r. and_sql (r.group_key_is x.0) (r.group_value_is x.1))
    ++ add_option q.json_uri (λ x r. r.metadata_url_is x)

abbrev pub join_if : Bool → JoinedTable → List JoinedTable
join_if true t = t ∷ []
join_if false t = []

abbrev pub joins_of : SearchAssetsQuery → List JoinedTable
joins_of q =
    join_if (with_accounts q.token_type && is_some q.owner_address) token_accounts
    ++ join_if (is_some q.creator_address || is_some q.creator_verified) asset_creators
    ++ join_if (is_some q.authority_address) asset_authority
    ++ join_if (is_some q.grouping) asset_grouping
    ++ join_if (is_some q.json_uri) asset_data
    ++ join_if (is_some q.name) asset_data

abbrev pub every : List Test → Test
every [] r = some true
every (t ∷ ts) r = and_sql (t r) (every ts r)

abbrev pub some_of : List Test → Test
some_of [] r = some false
some_of (t ∷ ts) r = or_sql (t r) (some_of ts r)

abbrev pub combined : Option ConditionType → List Test → Test
combined none ts = every ts
combined (some all) ts = every ts
combined (some any) ts = some_of ts

abbrev pub negated : Option Bool → Test → Test
negated (some true) t r = not_sql (t r)
negated (some false) t r = t r
negated none t r = t r

unfoldable pub validate : SearchAssetsQuery → Option SearchErr
validate q =
    if is_some q.token_type
    then (if is_some q.owner_type
        then some owner_type_with_token_type
        else if not (is_some q.owner_address)
        then some no_owner_address
        else if is_some q.interface
        then some interface_with_token_type
        else none)
    else none

unfoldable pub build_query : SearchAssetsQuery → List Term → Query
build_query q name_terms = record {
  negate = q.negate;
  condition_type = q.condition_type;
  terms =
      map (λ t. test t)
        (asset_terms q
          ++ supply_term q.supply ∷ owner_type_term q.owner_type q.token_type ∷ related_terms q)
      ++ name_terms;
  joins = joins_of q;
}

abbrev pub cons_test : Test → Option (List Test) → Option (List Test)
cons_test t none = none
cons_test t (some ts) = some (t ∷ ts)

-- The tests of a condition without custom text.
abbrev pub tests_of : List Term → Option (List Test)
tests_of [] = some []
tests_of (test t ∷ ts) = cons_test t (tests_of ts)
tests_of (custom text ∷ ts) = none

abbrev pub selects_by : Query → Option (List Test) → Row → Option Truth
selects_by query none r = none
selects_by query (some ts) r = some (negated query.negate (combined query.condition_type ts) r)

-- The WHERE clause on a row; `none` where custom text decides what the statement means.
abbrev pub selects : Query → Row → Option Truth
selects query = selects_by query (tests_of query.terms)

abbrev pub build_named : SearchAssetsQuery → SearchResult (List Term) → SearchResult Query
build_named q (ok name_terms) = ok (build_query q name_terms)
build_named q (err e) = err e

abbrev pub unless_invalid : Option SearchErr → SearchResult Query → SearchResult Query
unless_invalid none result = result
unless_invalid (some e) result = err e

-- The text "chain_data->>'name' LIKE '%".
abbrev name_prefix : Text
name_prefix =
    99 ∷ 104 ∷ 97 ∷ 105 ∷ 110 ∷ 95 ∷ 100 ∷ 97 ∷ 116 ∷ 97 ∷ 45 ∷ 62 ∷ 62 ∷ 39 ∷ 110 ∷ 97 ∷ 109 ∷ 101
    ∷ 39 ∷ 32 ∷ 76 ∷ 73 ∷ 75 ∷ 69 ∷ 32 ∷ 39 ∷ 37 ∷ []

-- `format!("chain_data->>'name' LIKE '%{}%'", name_as_str)`: the name is not escaped.
abbrev pub name_expr : Text → Text
name_expr name = name_prefix ++ (name ++ 37 ∷ 39 ∷ [])

-- `std::str::from_utf8`
module _ (from_utf8 : List ℕ → Option Text) where
  abbrev pub name_terms_of : Option (List ℕ) → SearchResult (List Term)
  name_terms_of none = ok []
  name_terms_of (some bytes) = elim (from_utf8 bytes) [
    | none ↦ err name_not_text
    | some text ↦ ok (custom (name_expr text) ∷ [])
  ]

  unfoldable pub conditions : SearchAssetsQuery → SearchResult Query
  conditions q = unless_invalid (validate q) (build_named q (name_terms_of q.name))
