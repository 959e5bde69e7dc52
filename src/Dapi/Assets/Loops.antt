-- ===== src/Dapi/Assets/Loops.antt =====
-- The loops of get_related_for_assets, as they change one asset.
use mathlib.Core.List.{append-nil}
use das.Prelude.{
  ◌≡◌, refl, sym, ap, ◌∙◌, Bool, true, false, ◌||◌, Bool-cases, inl, inr, Option, none, some, List,
  [], ◌∷◌, ◌++◌, map, filter, ◌==◌, if◌then◌else◌, arith,
}
use das.Database.{Pubkey, Token}
use das.Dapi.Assets.{Tables, FullAsset, found_tokens, find_tokens}
use das.Dapi.Assets.Batch.{is_in, for_each, set_token}

pub map_fuse :
    {A B C : Type 0} (g : B → C) (f : A → B) (xs : List A)
    → map g (map f xs) ≡ map (λ x. g (f x)) xs
map_fuse g f [] = refl
map_fuse g f (x ∷ xs) = ap (λ l. g (f x) ∷ l) (map_fuse g f xs)

pub map_same :
    {A B : Type 0} (f g : A → B) (xs : List A) → ((x : A) → f x ≡ g x) → map f xs ≡ map g xs
map_same f g [] h = refl
map_same f g (x ∷ xs) h = λ i. h x i ∷ map_same f g xs h i

pub map_id : {A : Type 0} (xs : List A) → map (λ (x : A). x) xs ≡ xs
map_id [] = refl
map_id (x ∷ xs) = ap (λ l. x ∷ l) (map_id xs)

append_assoc : {A : Type 0} (xs ys zs : List A) → (xs ++ ys) ++ zs ≡ xs ++ (ys ++ zs)
append_assoc [] ys zs = refl
append_assoc (x ∷ xs) ys zs = ap (λ l. x ∷ l) (append_assoc xs ys zs)

module _ {R : Type 0} (key : R → Pubkey) where
  -- The rows of one asset.
  abbrev pub of : Pubkey → List R → List R
  of id = filter (λ r. key r == id)

  -- A query for several assets has them all.
  pub of-filter-is_in :
      (ids : List Pubkey) (id : Pubkey) (rows : List R)
      → is_in ids id ≡ true
      → of id (filter (λ r. is_in ids (key r)) rows) ≡ of id rows
  of-filter-is_in ids id [] h = refl
  of-filter-is_in ids id (r ∷ rows) h = elim (Bool-cases (key r == id)) [
    | inl e ↦
        let same : is_in ids (key r) ≡ true = ap (is_in ids) (ground arith) ∙ h in
        rw (same, e) (ap (λ l. r ∷ l) (of-filter-is_in ids id rows h))
    | inr e ↦ elim (Bool-cases (is_in ids (key r))) [
      | inl k ↦ rw (k, e) (of-filter-is_in ids id rows h)
      | inr k ↦ rw (k, e) (of-filter-is_in ids id rows h)
    ]
  ]

  module _ (f : R → FullAsset → FullAsset) where
    -- The rows of an asset, applied to it one after the other.
    pub apply_all : List R → FullAsset → FullAsset
    apply_all [] a = a
    apply_all (r ∷ rows) a = apply_all rows (if key r == a.asset.id then f r a else a)

    pub for_each-map :
        (rows : List R) (m : List FullAsset) → for_each key f rows m ≡ map (apply_all rows) m
    unfolding for_each apply_all
    for_each-map [] m = sym (map_id m)
    for_each-map (r ∷ rows) m = for_each-map rows _ ∙ map_fuse (apply_all rows) _ m

-- A list of rows in an asset.
pub record IsColumn {R : Type 0} (get : FullAsset → List R) (put : List R → FullAsset → FullAsset)
    : Type 0 where
  pub get-put : (l : List R) (a : FullAsset) → get (put l a) ≡ l
  pub put-put : (l l' : List R) (a : FullAsset) → put l (put l' a) ≡ put l a
  pub put-get : (a : FullAsset) → put (get a) a ≡ a
  pub asset-put : (l : List R) (a : FullAsset) → (put l a).asset ≡ a.asset

module _ {R : Type 0} (key : R → Pubkey) {get : FullAsset → List R}
    {put : List R → FullAsset → FullAsset} (col : IsColumn get put) where
  pub apply_all-push :
      (rows : List R) (a : FullAsset)
      → apply_all key (λ r a'. put (get a' ++ r ∷ []) a') rows a
        ≡ put (get a ++ of key a.asset.id rows) a
  unfolding apply_all
  apply_all-push [] a = sym (ap (λ l. put l a) (append-nil (get a)) ∙ col.put-get a)
  apply_all-push (r ∷ rows) a = elim (Bool-cases (key r == a.asset.id)) [
    | inl e ↦
        let b = put (get a ++ r ∷ []) a in
        rw e (
          apply_all-push rows b
          ∙ col.put-put _ _ a
          ∙ ap (λ x. put (x ++ of key b.asset.id rows) a) (col.get-put _ a)
          ∙ ap (λ x. put ((get a ++ r ∷ []) ++ of key x.id rows) a) (col.asset-put _ a)
          ∙ ap (λ l. put l a) (append_assoc (get a) (r ∷ []) _))
    | inr e ↦ rw e (apply_all-push rows a)
  ]

pub creators-IsColumn : IsColumn (λ a. a.creators) (λ l a. record a { creators = l })
creators-IsColumn = record {
  get-put = λ l a. refl;
  put-put = λ l l' a. refl;
  put-get = λ a. refl;
  asset-put = λ l a. refl;
}

pub authorities-IsColumn : IsColumn (λ a. a.authorities) (λ l a. record a { authorities = l })
authorities-IsColumn = record {
  get-put = λ l a. refl;
  put-put = λ l l' a. refl;
  put-get = λ a. refl;
  asset-put = λ l a. refl;
}

pub groups-IsColumn : IsColumn (λ a. a.groups) (λ l a. record a { groups = l })
groups-IsColumn = record {
  get-put = λ l a. refl;
  put-put = λ l l' a. refl;
  put-get = λ a. refl;
  asset-put = λ l a. refl;
}

abbrev pub or_else : Option Token → Option Token → Option Token
or_else none x = x
or_else (some token) x = some token

or_else_missing :
    (b : Bool) (found x : Option Token)
    → found ≡ none
    → (if b then or_else found x else x) ≡ or_else found x
or_else_missing true found x h = refl
or_else_missing false found x h = sym (ap (λ f. or_else f x) h)

or_else_present :
    (b : Bool) (found x : Option Token) (token : Token)
    → found ≡ some token
    → (if b then or_else found (some token) else some token) ≡ or_else found x
or_else_present true found x token h =
    ap (λ f. or_else f (some token)) h ∙ sym (ap (λ f. or_else f x) h)
or_else_present false found x token h = sym (ap (λ f. or_else f x) h)

found_token :
    (t : Tables) (id : Pubkey) (ids : List Pubkey) (a : FullAsset) (found : Option Token)
    → t.tokens id ≡ found
    → ((b : FullAsset)
        → apply_all (λ p. p.0) set_token (find_tokens t ids) b ≡ record b {
          token_info =
              if is_in ids b.asset.id
              then or_else (t.tokens b.asset.id) b.token_info
              else b.token_info;
        })
    → apply_all (λ p. p.0) set_token (found_tokens id found ++ find_tokens t ids) a ≡ record a {
      token_info =
          if (id == a.asset.id || is_in ids a.asset.id)
          then or_else (t.tokens a.asset.id) a.token_info
          else a.token_info;
    }
unfolding apply_all
found_token t id ids a none e ih = elim (Bool-cases (id == a.asset.id)) [
  | inl same ↦
      let none_found : t.tokens a.asset.id ≡ none = ap t.tokens (sym (ground arith)) ∙ e in
      rw same (
        ih a
        ∙ ap (λ o. record a { token_info = o })
            (or_else_missing (is_in ids a.asset.id) (t.tokens a.asset.id) a.token_info none_found))
  | inr other ↦ rw other (ih a)
]
found_token t id ids a (some token) e ih = elim (Bool-cases (id == a.asset.id)) [
  | inl same ↦
      let one_found : t.tokens a.asset.id ≡ some token = ap t.tokens (sym (ground arith)) ∙ e in
      set_first same
      ∙ rw same (
          ih (set_token (id, token) a)
          ∙ ap (λ o. record a { token_info = o })
              (or_else_present (is_in ids a.asset.id) (t.tokens a.asset.id) a.token_info token
                one_found))
  | inr other ↦ set_first other ∙ rw other (ih a)
]
  where
    set_first :
        {c : Bool}
        → (id == a.asset.id) ≡ c
        → apply_all (λ p. p.0) set_token (found_tokens id (some token) ++ find_tokens t ids) a
          ≡ apply_all
              (λ p. p.0)
              set_token
              (find_tokens t ids)
              (if c then set_token (id, token) a else a)
    set_first h =
        ap
          (λ c.
            apply_all (λ p. p.0) set_token (find_tokens t ids)
              (if c then set_token (id, token) a else a))
          h

-- The token of an asset among those of several.
pub apply_all-tokens :
    (t : Tables) (ids : List Pubkey) (a : FullAsset)
    → apply_all (λ p. p.0) set_token (find_tokens t ids) a ≡ record a {
      token_info =
          if is_in ids a.asset.id then or_else (t.tokens a.asset.id) a.token_info else a.token_info;
    }
unfolding apply_all find_tokens
apply_all-tokens t [] a = refl
apply_all-tokens t (id ∷ ids) a = found_token t id ids a (t.tokens id) refl (apply_all-tokens t ids)
