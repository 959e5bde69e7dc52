-- ===== src/Dapi/Assets/Alone.antt =====
-- get_related_for_assets gives each asset as get_by_id does.
use das.Prelude.{
  any, ◌≡◌, refl, sym, ap, ◌∙◌, subst, Bool, true, false, ◌||◌, Bool-cases, inl, inr, Option, none,
  some, List, [], ◌∷◌, ◌++◌, map, filter, All, ◌==◌, ==_refl, if◌then◌else◌, arith,
}
use das.Database.{Pubkey, Asset, AssetData, Token}
use das.Accounts.Metadata.{filter_out_stale_creators}
use das.Dapi.Groups.{Grouping, filter_out_stale_asset_groupings}
use das.Dapi.Assets.{
  Tables, Options, FullAsset, ok, with_metadata, has_value_if_collection, found_tokens, find_tokens,
  first_token, data_of, no_supply, err, get_inscription_by_mint, read_alone, unless_no_supply,
  found_asset, get_by_id,
}
use das.Dapi.Assets.Present.{IsRow, has_data, is_in-insert_all, any-ids}
use das.Dapi.Assets.Batch.{
  is_in, get_mut, ids_of, insert, new_full_asset, data_among, insert_found, insert_all,
  with_inscriptions, with_creators, with_authorities, with_tokens, with_groups,
  get_related_for_assets,
}
use das.Dapi.Assets.Loops.{map_fuse, of, of-filter-is_in, or_else}
use das.Dapi.Assets.Steps.{steps, selected_groups, related-map}

filter_comm :
    {A : Type 0} (p q : A → Bool) (xs : List A) → filter p (filter q xs) ≡ filter q (filter p xs)
filter_comm p q [] = refl
filter_comm p q (x ∷ xs) = elim (Bool-cases (p x)) [
  | inl e ↦ elim (Bool-cases (q x)) [
    | inl f ↦ rw (e, f, e) (ap (λ l. x ∷ l) (filter_comm p q xs))
    | inr f ↦ rw (e, f) (filter_comm p q xs)
  ]
  | inr e ↦ elim (Bool-cases (q x)) [
    | inl f ↦ rw (e, f, e) (filter_comm p q xs)
    | inr f ↦ rw (e, f) (filter_comm p q xs)
  ]
]

-- An asset that has only its own row and its data.
Fresh : Tables → FullAsset → Type 0
Fresh t a =
    (t.asset a.asset.id ≡ some a.asset)
    × ((a.asset.supply == 0) ≡ false)
    × (data_of t a.asset ≡ some a.«data»)
    × (a ≡ new_full_asset a.asset a.«data»)

module _ (t : Tables) where
  get_mut-All :
      (P : FullAsset → Type 0) (id : Pubkey) (x : FullAsset) (m : List FullAsset)
      → P x
      → All P m
      → All P (get_mut id (λ _. x) m)
  get_mut-All P id x [] h k = tt
  get_mut-All P id x (a ∷ m) h (k, ks) = elim (Bool-cases (id == a.asset.id)) [
    | inl e ↦ rw e (h, get_mut-All P id x m h ks)
    | inr e ↦ rw e (k, get_mut-All P id x m h ks)
  ]

  append-All :
      (P : FullAsset → Type 0) (m : List FullAsset) (x : FullAsset)
      → P x
      → All P m
      → All P (m ++ x ∷ [])
  append-All P [] x h k = (h, tt)
  append-All P (a ∷ m) x h (k, ks) = (k, append-All P m x h ks)

  insert-All :
      (P : FullAsset → Type 0) (x : FullAsset) (m : List FullAsset)
      → P x
      → All P m
      → All P (insert x m)
  insert-All P x m h k = elim (Bool-cases (is_in (ids_of m) x.asset.id)) [
    | inl e ↦ rw e (get_mut-All P x.asset.id x m h k)
    | inr e ↦ rw e (append-All P m x h k)
  ]

  if_some :
      (b : Bool) (x : Option AssetData) (row : AssetData)
      → (if b then x else none) ≡ some row
      → x ≡ some row
  if_some true x row h = h
  if_some false x row h = cc

  data_among-data_of :
      (ids : List Pubkey) (a : Asset) (row : AssetData)
      → a.asset_data ≡ some a.id
      → data_among t ids a ≡ some row
      → data_of t a ≡ some row
  data_among-data_of ids a row e h =
      rw e (if_some (is_in ids a.id) (t.asset_data a.id) row (rw e at h))

  insert_found-Fresh :
      (ids : List Pubkey) (a : Asset) (found : Option AssetData) (m : List FullAsset)
      → IsRow t a
      → data_among t ids a ≡ found
      → All (Fresh t) m
      → All (Fresh t) (insert_found a found m)
  unfolding Fresh
  insert_found-Fresh ids a none m h e k = k
  insert_found-Fresh ids a (some row) m (r, s, d) e k =
      insert-All (Fresh t) (new_full_asset a row) m (r, s, data_among-data_of ids a row d e, refl) k

  insert_all-Fresh :
      (ids : List Pubkey) (assets : List Asset) (m : List FullAsset)
      → All (IsRow t) assets
      → All (Fresh t) m
      → All (Fresh t) (insert_all t ids assets m)
  unfolding insert_all
  insert_all-Fresh ids [] m h k = k
  insert_all-Fresh ids (a ∷ assets) m (h, hs) k =
      insert_all-Fresh ids assets _ hs (insert_found-Fresh ids a _ m h refl k)

  of-metadata :
      (b : Bool) (id : Pubkey) (gs : List Grouping)
      → of (λ p. p.0.asset_id) id (map (with_metadata t b) gs)
        ≡ map (with_metadata t b) (filter (λ g. g.asset_id == id) gs)
  of-metadata b id [] = refl
  of-metadata true id (g ∷ gs) = elim (Bool-cases (g.asset_id == id)) [
    | inl e ↦ rw e (ap (λ l. (g, t.asset_data g.asset_id) ∷ l) (of-metadata true id gs))
    | inr e ↦ rw e (of-metadata true id gs)
  ]
  of-metadata false id (g ∷ gs) = elim (Bool-cases (g.asset_id == id)) [
    | inl e ↦ rw e (ap (λ l. (g, none) ∷ l) (of-metadata false id gs))
    | inr e ↦ rw e (of-metadata false id gs)
  ]

  module _ (o : Options) (verified_only : o.show_unverified_collections ≡ false) (ids : List Pubkey)
      (id : Pubkey) (known : is_in ids id ≡ true) where
    groups_alone :
        of (λ p. p.0.asset_id) id (selected_groups t o ids)
        ≡ map (with_metadata t o.show_collection_metadata) (
            filter
              (λ g. g.verified)
              (filter has_value_if_collection (filter (λ g. g.asset_id == id) t.asset_grouping)))
    groups_alone =
        ap
          (λ b.
            of (λ p. p.0.asset_id) id
              (map (with_metadata t o.show_collection_metadata) (
                filter (λ g. b || g.verified)
                  (filter has_value_if_collection
                    (filter (λ g. is_in ids g.asset_id) t.asset_grouping)))))
          verified_only
        ∙ of-metadata o.show_collection_metadata id _
        ∙ ap (map (with_metadata t o.show_collection_metadata)) (
            filter_comm (λ g. g.asset_id == id) (λ g. g.verified) _
            ∙ ap (filter (λ g. g.verified)) (
                filter_comm (λ g. g.asset_id == id) has_value_if_collection _
                ∙ ap (filter has_value_if_collection)
                    (of-filter-is_in (λ g. g.asset_id) ids id t.asset_grouping known)))

    tokens_alone :
        (show : Bool)
        → (if show then (if is_in ids id then or_else (t.tokens id) none else none) else none)
          ≡ (if show then first_token (find_tokens t (id ∷ [])) else none)
    unfolding find_tokens
    tokens_alone false = refl
    tokens_alone true = rw known (or_else_first (t.tokens id))
      where
        or_else_first :
            (found : Option Token) → or_else found none ≡ first_token (found_tokens id found ++ [])
        or_else_first none = refl
        or_else_first (some token) = refl

  module _ (o : Options) (verified_only : o.show_unverified_collections ≡ false)
      (no_inscription : o.show_inscription ≡ false) where
    steps_lem :
        (ids : List Pubkey) (asset : Asset) (row : AssetData)
        → is_in ids asset.id ≡ true
        → read_alone t o asset.id asset row ≡ steps t o ids (new_full_asset asset row)
    steps_lem ids asset row known = λ i. record {
      asset = asset;
      «data» = row;
      authorities = sym (of-filter-is_in (λ x. x.asset_id) ids asset.id t.asset_authority known) i;
      creators =
          filter_out_stale_creators
            (sym (of-filter-is_in (λ c. c.asset_id) ids asset.id t.asset_creators known) i);
      inscription =
          ap (λ b. if b then get_inscription_by_mint t asset.id else none) no_inscription i;
      groups =
          filter_out_stale_asset_groupings
            (sym (groups_alone o verified_only ids asset.id known) i);
      token_info = sym (tokens_alone o verified_only ids asset.id known o.show_fungible) i;
    }

    get_by_id-Fresh :
        (ids : List Pubkey) (a : FullAsset)
        → Fresh t a
        → is_in ids a.asset.id ≡ true
        → get_by_id t a.asset.id o ≡ ok (steps t o ids a)
    unfolding get_by_id Fresh
    get_by_id-Fresh ids a (row, supply, dat, shape) known =
        ap (found_asset t o a.asset.id) row
        ∙ ap (unless_no_supply t o a.asset.id a.asset) dat
        ∙ ap (λ b. if b then err no_supply else ok (read_alone t o a.asset.id a.asset a.«data»))
            supply
        ∙ ap ok (steps_lem ids a.asset a.«data» known ∙ ap (steps t o ids) (sym shape))

    steps-All :
        (ids : List Pubkey) (m : List FullAsset)
        → All (Fresh t) m
        → All (λ a. is_in ids a.asset.id ≡ true) m
        → All (λ a. get_by_id t a.asset.id o ≡ ok a) (map (steps t o ids) m)
    steps-All ids [] h k = tt
    steps-All ids (a ∷ m) (h, hs) (k, ks) = (get_by_id-Fresh ids a h k, steps-All ids m hs ks)

  known_ids :
      (ids : List Pubkey) (m : List FullAsset)
      → ((id : Pubkey) → is_in (ids_of m) id ≡ true → is_in ids id ≡ true)
      → All (λ a. is_in ids a.asset.id ≡ true) m
  known_ids ids [] h = tt
  known_ids ids (a ∷ m) h = (
    h a.asset.id (rw (==_refl a.asset.id) refl),
    known_ids ids m (λ id k. h id (ground (arith, k))),
  )

  -- When unverified collections and inscriptions are not asked for, and no creator is required:
  -- get_related_for_assets gives, of rows of `asset` with a supply and with their data under their own
  -- id, exactly the assets that have data, and each as get_by_id gives it for its id: the queries for
  -- all ids and the loops over their rows give each asset its own creators, authorities, groups and
  -- token.
  pub get_related_for_assets_alone :
      (assets : List Asset) (o : Options)
      → o.show_unverified_collections ≡ false
      → o.show_inscription ≡ false
      → All (IsRow t) assets
      → All (λ a. get_by_id t a.asset.id o ≡ ok a) (get_related_for_assets t assets o none)
        × ((id : Pubkey)
            → is_in (ids_of (get_related_for_assets t assets o none)) id
              ≡ any (has_data t id) assets)
  unfolding get_related_for_assets
  get_related_for_assets_alone assets o verified_only no_inscription h =
      let ids = map (λ (a : Asset). a.id) assets in
      let m = insert_all t ids assets [] in
      let stepped : get_related_for_assets t assets o none ≡ map (steps t o (ids_of m)) m =
        ap
          (λ b. with_groups t o (
            with_inscriptions t b ids
              (with_tokens t o.show_fungible (with_authorities t (with_creators t m)))))
          no_inscription
        ∙ related-map t o m in
      (
        subst (All (λ a. get_by_id t a.asset.id o ≡ ok a)) (sym stepped) (
            steps-All o verified_only no_inscription (ids_of m) m
              (insert_all-Fresh ids assets [] h tt) (known_ids (ids_of m) m (λ id k. k))),
        λ id.
            ap (λ l. is_in (ids_of l) id) stepped
            ∙ ap (λ l. is_in l id) (map_fuse (λ x. x.asset.id) (steps t o (ids_of m)) m)
            ∙ is_in-insert_all t ids assets [] id h (λ k e. any-ids t assets k ∙ e)
            ∙ ground arith,
      )
