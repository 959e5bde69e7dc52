-- ===== src/Dapi/Assets/Present.antt =====
-- Which assets get_related_for_assets gives.
use das.Prelude.{
  ◌&&◌, is_some, any, ℕ, ◌≡◌, refl, ap, ◌∙◌, Bool, true, false, ◌||◌, Bool-cases, inl, inr, Option,
  none, some, List, [], ◌∷◌, ◌++◌, map, All, ◌==◌, ==_refl, arith,
}
use das.Database.{Pubkey, Asset, AssetData}
use das.Dapi.Assets.{Tables, FullAsset}
use das.Dapi.Assets.Batch.{
  is_in, get_mut, ids_of, insert, new_full_asset, data_among, insert_found, insert_all,
}

-- A row that a query on `asset` gives, with its data under its own id.
abbrev pub IsRow : Tables → Asset → Type 0
IsRow t a = (t.asset a.id ≡ some a) × ((a.supply == 0) ≡ false) × (a.asset_data ≡ some a.id)

module _ (t : Tables) where
  ids-get_mut :
      (x : FullAsset) (m : List FullAsset) → ids_of (get_mut x.asset.id (λ _. x) m) ≡ ids_of m
  ids-get_mut x [] = refl
  ids-get_mut x (a ∷ m) = elim (Bool-cases (x.asset.id == a.asset.id)) [
    | inl e ↦ rw e (λ i. ground_eq x.asset.id a.asset.id e i ∷ ids-get_mut x m i)
    | inr e ↦ rw e (ap (λ l. a.asset.id ∷ l) (ids-get_mut x m))
  ]
    where
      ground_eq : (a b : ℕ) → (a == b) ≡ true → a ≡ b
      ground_eq a b h = ground arith

  is_in-append :
      (m : List FullAsset) (x : FullAsset) (id : Pubkey)
      → is_in (ids_of (m ++ x ∷ [])) id ≡ (x.asset.id == id || is_in (ids_of m) id)
  is_in-append [] x id = refl
  is_in-append (a ∷ m) x id = ground (arith, is_in-append m x id)

  is_in-insert :
      (x : FullAsset) (m : List FullAsset) (id : Pubkey)
      → is_in (ids_of (insert x m)) id ≡ (x.asset.id == id || is_in (ids_of m) id)
  is_in-insert x m id = elim (Bool-cases (is_in (ids_of m) x.asset.id)) [
    | inl e ↦ rw e (
        ap (λ l. is_in l id) (ids-get_mut x m) ∙ elim (Bool-cases (x.asset.id == id)) [
          | inl k ↦ rw k (ap (is_in (ids_of m)) (ground arith) ∙ e)
          | inr k ↦ rw k refl
        ])
    | inr e ↦ rw e (is_in-append m x id)
  ]

  -- An asset with data.
  abbrev pub has_data : Pubkey → Asset → Bool
  has_data id a = a.id == id && is_some (t.asset_data a.id)

  is_in-insert_found :
      (a : Asset) (found : Option AssetData) (m : List FullAsset) (id : Pubkey)
      → t.asset_data a.id ≡ found
      → is_in (ids_of (insert_found a found m)) id ≡ (has_data id a || is_in (ids_of m) id)
  is_in-insert_found a none m id e = rw e (ground arith)
  is_in-insert_found a (some row) m id e =
      is_in-insert (new_full_asset a row) m id ∙ rw e (ground arith)

  data_among-known :
      (ids : List Pubkey) (a : Asset)
      → a.asset_data ≡ some a.id
      → is_in ids a.id ≡ true
      → data_among t ids a ≡ t.asset_data a.id
  data_among-known ids a e k = rw (e, k) refl

  pub is_in-insert_all :
      (ids : List Pubkey) (assets : List Asset) (m : List FullAsset) (id : Pubkey)
      → All (IsRow t) assets
      → ((k : Pubkey) → any (λ a. a.id == k) assets ≡ true → is_in ids k ≡ true)
      → is_in (ids_of (insert_all t ids assets m)) id
        ≡ (any (has_data id) assets || is_in (ids_of m) id)
  unfolding insert_all
  is_in-insert_all ids [] m id h k = refl
  is_in-insert_all ids (a ∷ assets) m id ((r, s, d), hs) k =
      is_in-insert_all ids assets _ id hs (λ j p. k j (ground (arith, p)))
      ∙ ap (λ found. any (has_data id) assets || is_in (ids_of (insert_found a found m)) id)
          (data_among-known ids a d (k a.id (rw (==_refl a.id) refl)))
      ∙ ap (λ b. any (has_data id) assets || b) (is_in-insert_found a (t.asset_data a.id) m id refl)
      ∙ ground arith

  pub any-ids :
      (assets : List Asset) (k : Pubkey)
      → is_in (map (λ (a : Asset). a.id) assets) k ≡ any (λ a. a.id == k) assets
  any-ids [] k = refl
  any-ids (a ∷ assets) k = ap (λ b. a.id == k || b) (any-ids assets k)
