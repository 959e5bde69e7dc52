-- ===== src/Dapi/Search/Loose.antt =====
-- What searches select besides what is asked for, and tables that are joined twice.
use das.Database.{OwnerType}
use das.Prelude.{
  map, ◌≤◌, ℕ, ◌≡◌, refl, sym, ap, ◌∙◌, Bool, true, false, ◌&&◌, ◌||◌, not, Option, none, some,
  List, [], ◌∷◌, ◌++◌, any, is_some, Text, ◌==◌, arith,
}
use das.Dapi.Terms.{
  ConditionType, SearchAssetsQuery, and_sql, owner_type_code, or_sql, Row, Test, Term, test,
  JoinedTable, token_accounts, asset_creators, asset_authority, asset_grouping, asset_data, Query,
  SearchErr, SearchResult, ok, err,
}
use das.Dapi.Search.{
  cons_test, tests_of, selects_by, selects, asset_terms, supply_term, owner_type_term,
  related_terms, with_accounts, join_if, every, some_of, combined, negated, validate, build_query,
  build_named, unless_invalid, name_terms_of, conditions,
}

some_of-append :
    (ts us : List Test) (r : Row) → some_of us r ≡ some true → some_of (ts ++ us) r ≡ some true
some_of-append [] us r h = h
some_of-append (t ∷ ts) us r h = ap (or_sql (t r)) (some_of-append ts us r h) ∙ or_true (t r)
  where
    or_true : (x : Option Bool) → or_sql x (some true) ≡ some true
    or_true none = refl
    or_true (some true) = refl
    or_true (some false) = refl

ok_inj : (a b : Query) → ok a ≡ ok b → a ≡ b
ok_inj a b h = ap (λ x. elim x [ ok s ↦ s | err e ↦ a ]) h

abbrev table_code : JoinedTable → ℕ
table_code token_accounts = 0
table_code asset_creators = 1
table_code asset_authority = 2
table_code asset_grouping = 3
table_code asset_data = 4

-- A table is in the list more than once.
abbrev pub has_twice : List JoinedTable → Bool
has_twice [] = false
has_twice (t ∷ ts) = any (λ u. table_code t == table_code u) ts || has_twice ts

built :
    (q : SearchAssetsQuery) (e : Option SearchErr) (names : SearchResult (List Term)) (s : Query)
    → unless_invalid e (build_named q names) ≡ ok s
    → (ts : List Term) × (build_query q ts ≡ s)
built q (some e) names s h = cc
built q none (err e) s h = cc
built q none (ok ts) s h = (ts, ok_inj (build_query q ts) s h)

twice_lem :
    (a b c d e f : Bool)
    → has_twice (
        join_if a token_accounts
        ++ join_if b asset_creators
        ++ join_if c asset_authority
        ++ join_if d asset_grouping
        ++ join_if e asset_data
        ++ join_if f asset_data)
      ≡ e && f
twice_lem a b c d e f = ground arith

and_true : (x y : Option Bool) → and_sql x y ≡ some true → (x ≡ some true) × (y ≡ some true)
and_true none none h = cc
and_true none (some true) h = cc
and_true none (some false) h = cc
and_true (some true) y h = (refl, h)
and_true (some false) y h = cc

some_inj : (a : Bool) → some a ≡ some true → a ≡ true
some_inj true h = refl
some_inj false h = cc

every-append :
    (ts us : List Test) (r : Row) → every (ts ++ us) r ≡ some true → every us r ≡ some true
every-append [] us r h = h
every-append (t ∷ ts) us r h = every-append ts us r (and_true (t r) (every (ts ++ us) r) h).1

single_owner : (t : OwnerType) → (owner_type_code t == 0) ≡ true → t ≡ OwnerType.single
single_owner OwnerType.single h = refl
single_owner OwnerType.token h = cc
single_owner OwnerType.unknown h = cc

truth_inj : (a : Option Bool) → some a ≡ some (some true) → a ≡ some true
truth_inj a h = ap (λ x. elim x [ none ↦ a | some b ↦ b ]) h

abbrev pub is_any : Option ConditionType → Bool
is_any (some ConditionType.any) = true
is_any _ = false

abbrev pub is_negated : Option Bool → Bool
is_negated (some b) = b
is_negated none = false

negated-false :
    (negate : Option Bool) (t : Test) (r : Row)
    → is_negated negate ≡ false
    → negated negate t r ≡ t r
negated-false none t r h = refl
negated-false (some false) t r h = refl
negated-false (some true) t r h = cc

combined_all :
    (kind : Option ConditionType) (ts : List Test) (r : Row)
    → is_any kind ≡ false
    → combined kind ts r ≡ every ts r
combined_all none ts r h = refl
combined_all (some ConditionType.all) ts r h = refl
combined_all (some ConditionType.any) ts r h = cc

tests_of-map : (ts : List Test) → tests_of (map (λ t. test t) ts ++ []) ≡ some ts
tests_of-map [] = refl
tests_of-map (t ∷ ts) = ap (cons_test t) (tests_of-map ts)

built_unnamed :
    (q : SearchAssetsQuery) (e : Option SearchErr) (s : Query)
    → unless_invalid e (ok (build_query q [])) ≡ ok s
    → build_query q [] ≡ s
built_unnamed q (some e) s h = cc
built_unnamed q none s h = ok_inj (build_query q []) s h

-- A search without a name is evaluated on every row.
selects-unnamed :
    (from_utf8 : List ℕ → Option Text) (q : SearchAssetsQuery) (s : Query) (r : Row)
    → conditions from_utf8 q ≡ ok s
    → q.name ≡ none
    → selects s r
      ≡ some (
          negated q.negate
            (combined q.condition_type (
              asset_terms q
              ++ supply_term q.supply
                ∷ owner_type_term q.owner_type q.token_type
                ∷ related_terms q))
            r)
unfolding conditions build_query
selects-unnamed from_utf8 q s r h m =
    let e = built_unnamed q (validate q) s (
      ap (λ n. unless_invalid (validate q) (build_named q (name_terms_of from_utf8 n))) (sym m)
      ∙ h) in
    ap (λ (x : Query). selects x r) (sym e)
    ∙ ap (λ ts. selects_by (build_query q []) ts r) (tests_of-map _)

module _ (from_utf8 : List ℕ → Option Text) where
  -- A search of condition type any that is not negated, and names neither a supply nor a name, selects
  -- every asset with a supply, and every burnt one, whatever owner, creator or collection it asks for.
  -- (A name stands in the statement as SQL text, so that nothing holds of its meaning.)
  pub conditions-any :
      (q : SearchAssetsQuery) (s : Query) (r : Row)
      → conditions from_utf8 q ≡ ok s
      → q.name ≡ none
      → q.condition_type ≡ some ConditionType.any
      → is_negated q.negate ≡ false
      → q.supply ≡ none
      → not (r.asset.supply == 0) || r.asset.burnt ≡ true
      → selects s r ≡ some (some true)
  unfolding conditions build_query
  conditions-any q s r h m c n p k =
      let rest = owner_type_term q.owner_type q.token_type ∷ related_terms q in
      let found : combined q.condition_type (asset_terms q ++ supply_term q.supply ∷ rest) r
          ≡ some true =
        (λ i. combined (c i) (asset_terms q ++ supply_term (p i) ∷ rest) r)
        ∙ some_of-append (asset_terms q) (supply_term none ∷ rest) r
            (ap (λ b. or_sql (some b) (some_of rest r)) k) in
      selects-unnamed from_utf8 q s r h m ∙ ap some (negated-false q.negate _ r n ∙ found)

  -- The joins of an accepted search name a table twice exactly if both json_uri and name are given.
  pub conditions_joins_twice :
      (q : SearchAssetsQuery) (s : Query)
      → conditions from_utf8 q ≡ ok s
      → has_twice s.joins ≡ is_some q.json_uri && is_some q.name
  unfolding conditions build_query
  conditions_joins_twice q s h =
      let (ts, e) = built q (validate q) (name_terms_of from_utf8 q.name) s h in
      ap (λ (x : Query). has_twice x.joins) (sym e)
      ∙ twice_lem (with_accounts q.token_type && is_some q.owner_address)
          (is_some q.creator_address || is_some q.creator_verified) (is_some q.authority_address)
          (is_some q.grouping) (is_some q.json_uri) (is_some q.name)

  -- A search with all conditions, not negated, that names neither a supply nor an owner type nor a
  -- token type nor a name, selects only assets of the owner type single, with a supply of at most 1,
  -- and without a supply only burnt ones, whatever else it asks for. (A name stands in the statement as
  -- SQL text, so that nothing holds of its meaning.)
  pub conditions_all :
      (q : SearchAssetsQuery) (s : Query) (r : Row)
      → conditions from_utf8 q ≡ ok s
      → q.name ≡ none
      → is_any q.condition_type ≡ false
      → is_negated q.negate ≡ false
      → q.supply ≡ none
      → q.owner_type ≡ none
      → q.token_type ≡ none
      → selects s r ≡ some (some true)
      → (r.asset.owner_type ≡ OwnerType.single)
        × (r.asset.supply ≤ 1)
        × ((not (r.asset.supply == 0) || r.asset.burnt) ≡ true)
  unfolding conditions build_query
  conditions_all q s r h m c n p o k t =
      let tail = supply_term none ∷ owner_type_term none none ∷ related_terms q in
      let plain : every (asset_terms q ++ tail) r ≡ some true =
        sym (
          (λ i.
            combined q.condition_type
              (asset_terms q ++ supply_term (p i) ∷ owner_type_term (o i) (k i) ∷ related_terms q)
              r)
          ∙ combined_all q.condition_type (asset_terms q ++ tail) r c)
        ∙ sym (negated-false q.negate _ r n)
        ∙ truth_inj _ (sym (selects-unnamed from_utf8 q s r h m) ∙ t) in
      let (supply, more) = and_true _ _ (every-append (asset_terms q) tail r plain) in
      let (single, at_most_one) = and_true _ _ (and_true _ _ more).0 in
      (
        single_owner r.asset.owner_type (some_inj _ single),
        ground (arith, some_inj _ at_most_one),
        some_inj _ supply,
      )
