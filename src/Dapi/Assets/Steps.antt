-- ===== src/Dapi/Assets/Steps.antt =====
-- The steps of get_related_for_assets, each as a change of every asset by itself.
use das.Prelude.{
  ◌≡◌, refl, sym, ap, ◌∙◌, Bool, true, false, ◌||◌, Option, List, ◌++◌, map, filter, if◌then◌else◌,
}
use das.Database.{Pubkey, AssetData}
use das.Dapi.Groups.{Grouping}
use das.Dapi.Assets.{Tables, Options, FullAsset, with_metadata, has_value_if_collection}
use das.Dapi.Assets.Batch.{
  is_in, ids_of, push_creator, push_authority, push_group, set_token, clean_creators, clean_groups,
  with_creators, with_authorities, with_tokens, with_groups,
}
use das.Dapi.Assets.Loops.{
  map_fuse, map_same, map_id, of, for_each-map, apply_all-push, creators-IsColumn,
  authorities-IsColumn, groups-IsColumn, or_else, apply_all-tokens,
}

module _ (t : Tables) where
  abbrev pub creators_step : List Pubkey → FullAsset → FullAsset
  creators_step ids a = clean_creators (record a {
    creators =
        a.creators
        ++ of (λ c. c.asset_id) a.asset.id (filter (λ c. is_in ids c.asset_id) t.asset_creators);
  })

  abbrev pub authorities_step : List Pubkey → FullAsset → FullAsset
  authorities_step ids a = record a {
    authorities =
        a.authorities
        ++ of (λ x. x.asset_id) a.asset.id (filter (λ x. is_in ids x.asset_id) t.asset_authority);
  }

  abbrev pub tokens_step : Bool → List Pubkey → FullAsset → FullAsset
  tokens_step show ids a = record a {
    token_info =
        if show
        then (if is_in ids a.asset.id
            then or_else (t.tokens a.asset.id) a.token_info
            else a.token_info)
        else a.token_info;
  }

  abbrev pub selected_groups : Options → List Pubkey → List (Grouping × Option AssetData)
  selected_groups o ids = map (with_metadata t o.show_collection_metadata) (
      filter (λ g. o.show_unverified_collections || g.verified)
        (filter has_value_if_collection (filter (λ g. is_in ids g.asset_id) t.asset_grouping)))

  abbrev pub groups_step : Options → List Pubkey → FullAsset → FullAsset
  groups_step o ids a =
      clean_groups (record a {
        groups = a.groups ++ of (λ p. p.0.asset_id) a.asset.id (selected_groups o ids);
      })

  with_creators-map : (m : List FullAsset) → with_creators t m ≡ map (creators_step (ids_of m)) m
  with_creators-map m =
      ap (map clean_creators) (for_each-map (λ c. c.asset_id) push_creator _ m)
      ∙ map_fuse clean_creators _ m
      ∙ map_same _ _ m
          (λ a. ap clean_creators (apply_all-push (λ c. c.asset_id) creators-IsColumn _ a))

  with_authorities-map :
      (m : List FullAsset) → with_authorities t m ≡ map (authorities_step (ids_of m)) m
  with_authorities-map m =
      for_each-map (λ x. x.asset_id) push_authority _ m
      ∙ map_same _ _ m (apply_all-push (λ x. x.asset_id) authorities-IsColumn _)

  with_tokens-map :
      (show : Bool) (m : List FullAsset)
      → with_tokens t show m ≡ map (tokens_step show (ids_of m)) m
  with_tokens-map true m =
      for_each-map (λ p. p.0) set_token _ m ∙ map_same _ _ m (apply_all-tokens t (ids_of m))
  with_tokens-map false m = sym (map_same _ _ m (λ a. refl) ∙ map_id m)

  with_groups-map :
      (o : Options) (m : List FullAsset) → with_groups t o m ≡ map (groups_step o (ids_of m)) m
  with_groups-map o m =
      ap (map clean_groups) (for_each-map (λ p. p.0.asset_id) push_group _ m)
      ∙ map_fuse clean_groups _ m
      ∙ map_same _ _ m
          (λ a. ap clean_groups (apply_all-push (λ p. p.0.asset_id) groups-IsColumn _ a))

  -- All steps on one asset.
  abbrev pub steps : Options → List Pubkey → FullAsset → FullAsset
  steps o ids a =
      groups_step o ids
        (tokens_step o.show_fungible ids (authorities_step ids (creators_step ids a)))

  pub related-map :
      (o : Options) (m : List FullAsset)
      → with_groups t o (with_tokens t o.show_fungible (with_authorities t (with_creators t m)))
        ≡ map (steps o (ids_of m)) m
  related-map o m =
      let ids = ids_of m in
      let c = map (creators_step ids) m in
      let a = map (authorities_step ids) c in
      let k = map (tokens_step o.show_fungible ids) a in
      let same_c : ids_of c ≡ ids = map_fuse (λ x. x.asset.id) (creators_step ids) m in
      let same_a : ids_of a ≡ ids = map_fuse (λ x. x.asset.id) (authorities_step ids) c ∙ same_c in
      let same_k : ids_of k ≡ ids =
        map_fuse (λ x. x.asset.id) (tokens_step o.show_fungible ids) a ∙ same_a in
      ap (λ l. with_groups t o (with_tokens t o.show_fungible (with_authorities t l)))
        (with_creators-map m)
      ∙ ap (λ l. with_groups t o (with_tokens t o.show_fungible l))
          (with_authorities-map c ∙ ap (λ i. map (authorities_step i) c) same_c)
      ∙ ap (with_groups t o) (
          with_tokens-map o.show_fungible a
          ∙ ap (λ i. map (tokens_step o.show_fungible i) a) same_a)
      ∙ with_groups-map o k
      ∙ ap (λ i. map (groups_step o i) k) same_k
      ∙ map_fuse (groups_step o ids) (tokens_step o.show_fungible ids) a
      ∙ map_fuse _ (authorities_step ids) c
      ∙ map_fuse _ (creators_step ids) m
