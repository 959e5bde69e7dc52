-- ===== src/Api/Pagination/Accepted.antt =====
-- api_impl.rs: what `validate_pagination` accepts, and which pagination the query then has.
use das.Prelude.{
  ℕ, ◌≡◌, ◌≤◌, refl, sym, ap, ◌∙◌, Bool, true, false, not, ◌||◌, Option, none, some, Text, is_some,
  ◌==◌, arith, if◌then◌else◌,
}
use das.Dapi.Sorting.{AssetSorting, is_id}
use das.Dapi.Pages.{Bytes, Cursor, PageOptions, Pagination, create_pagination}
use das.Api.Pagination.{
  DasApiError, Checked, ok, err, ◌>>=◌, fail_if, above_1000, limit_or_1000, check_page, check_key,
  valid_pubkey, validate_pubkey, get_cursor, decoded_cursor, bytes_or_default, decode_key,
  cursor_options, sorts_otherwise, validate_pagination,
}

value : {A : Type 0} → A → Checked A → A
value a (ok b) = b
value a (err e) = a

ok-injective : {A : Type 0} (a b : A) → ◌≡◌ {A = Checked A} (ok a) (ok b) → a ≡ b
unfolding value
ok-injective a b h = ap (value a) h

-- What follows a check that passed.
then_ok :
    {A B : Type 0} (m : Checked A) (k : A → Checked B) (b : B)
    → (m >>= k) ≡ ok b
    → (a : A) × (m ≡ ok a) × (k a ≡ ok b)
then_ok (ok a) k b h = (a, refl, h)
then_ok (err e) k b h = absurd (cc)

passed : (test : Bool) (e : DasApiError) (u : Unit {0}) → fail_if test e ≡ ok u → test ≡ false
passed true e u h = absurd (cc)
passed false e u h = refl

module _ (bs58_decode : Text → Option Bytes) (pubkey_from_str : Text → Option Bytes)
    (decodes : (t : Text) (key : Bytes)
      → pubkey_from_str t ≡ some key
      → bs58_decode t ≡ some key) where
  abbrev pub wanted_cursor : Option Text → Cursor
  wanted_cursor none = record { id = none }
  wanted_cursor (some t) = record { id = bs58_decode t }

  abbrev pub key_of : Option Text → Option Bytes
  key_of none = none
  key_of (some t) = pubkey_from_str t

  -- The page, if there is one; else the keys, if there is one; else the cursor, under a sorting.
  abbrev pub wanted :
      Option ℕ → Option Text → Option Text → Option Text → Option AssetSorting → Pagination
  wanted (some p) before after cursor sorting = Pagination.page p
  wanted none none none cursor (some s) = Pagination.cursor (wanted_cursor cursor)
  wanted none before after cursor sorting = Pagination.keyset (key_of before) (key_of after)

  pubkey_valid :
      (t : Text) (o : Option Bytes) (key : Bytes)
      → valid_pubkey bs58_decode pubkey_from_str t o ≡ ok key
      → o ≡ some key
  pubkey_valid t none key h = absurd (cc)
  pubkey_valid t (some k) key h = ap some (ok-injective k key h)

  key_decoded :
      (key : Option Text) (has_cursor : Bool) (sorting : Option AssetSorting) (u : Unit {0})
      → check_key bs58_decode pubkey_from_str key has_cursor sorting ≡ ok u
      → decode_key bs58_decode pubkey_from_str key ≡ key_of key
  unfolding validate_pubkey
  key_decoded none has_cursor sorting u h = refl
  key_decoded (some t) has_cursor sorting u h =
      let (u1, e1, h1) = then_ok (fail_if has_cursor _) _ u h in
      let (u2, e2, h2) = then_ok (fail_if (sorts_otherwise sorting) _) _ u h1 in
      let (key, e3, h3) = then_ok (validate_pubkey bs58_decode pubkey_from_str t) _ u h2 in
      let found = pubkey_valid t (pubkey_from_str t) key e3 in
      ap (λ x. some (bytes_or_default bs58_decode pubkey_from_str x)) (decodes t key found)
      ∙ sym found

  cursor_decoded :
      (t : Text) (o : Option Bytes) (c : Cursor)
      → decoded_cursor bs58_decode pubkey_from_str t o ≡ ok c
      → c ≡ record { id = o }
  cursor_decoded t none c h = absurd (cc)
  cursor_decoded t (some key) c h = sym (ok-injective _ c h)

  get_cursor-wanted :
      (cursor : Option Text) (c : Cursor)
      → get_cursor bs58_decode pubkey_from_str cursor ≡ ok c
      → c ≡ wanted_cursor cursor
  unfolding get_cursor
  get_cursor-wanted none c h = sym (ok-injective _ c h)
  get_cursor-wanted (some t) c h = cursor_decoded t (bs58_decode t) c h

  limit_bounded : (limit : Option ℕ) → above_1000 limit ≡ false → limit_or_1000 limit ≤ 1_000
  limit_bounded none h = omega arith
  limit_bounded (some n) h = ground arith

  alone :
      (p : ℕ) (others : Bool) (u : Unit {0}) → check_page (some p) others ≡ ok u → others ≡ false
  alone p others u h = let (u1, e1, h1) = then_ok (fail_if (p == 0) _) _ u h in passed others _ u h1

  abbrev IsWanted :
      ℕ
      → Option ℕ
      → Option Text
      → Option Text
      → Option Text
      → Option AssetSorting
      → PageOptions
      → Type 0
  IsWanted limit page before after cursor sorting o =
      (o.limit ≡ limit) × (create_pagination o ≡ some (wanted page before after cursor sorting))

  -- The options after the checks, which end with a page, with keys or with a cursor.
  abbrev options_of :
      ℕ
      → Option ℕ
      → Option Text
      → Option Text
      → Option Text
      → Option AssetSorting
      → Checked PageOptions
  options_of limit page before after cursor sorting =
      let options : PageOptions = record {
        limit = limit;
        page = page;
        before = decode_key bs58_decode pubkey_from_str before;
        after = decode_key bs58_decode pubkey_from_str after;
        cursor = none;
      } in
      if is_some page || (is_some before || is_some after)
      then ok options
      else cursor_options bs58_decode pubkey_from_str limit cursor sorting

  cursor_options-IsWanted :
      (limit : ℕ) (cursor : Option Text) (sorting : Option AssetSorting) (o : PageOptions)
      → cursor_options bs58_decode pubkey_from_str limit cursor sorting ≡ ok o
      → IsWanted limit none none none cursor sorting o
  unfolding create_pagination
  cursor_options-IsWanted limit cursor none o h =
      let e = ok-injective _ o h in (ap (λ x. x.limit) (sym e), ap create_pagination (sym e))
  cursor_options-IsWanted limit cursor (some s) o h =
      let (u1, e1, h1) = then_ok (fail_if (not (is_id s.sort_by)) _) _ o h in
      let (c, e2, h2) = then_ok (get_cursor bs58_decode pubkey_from_str cursor) _ o h1 in
      let e = ok-injective _ o h2 in
      (
        ap (λ x. x.limit) (sym e),
        ap create_pagination (sym e)
            ∙ ap (λ x. some (Pagination.cursor x)) (get_cursor-wanted cursor c e2),
      )

  options_of-IsWanted :
      (limit : ℕ) (page : Option ℕ) (before after cursor : Option Text)
      (sorting : Option AssetSorting) (o : PageOptions) (u : Unit {0})
      → check_page page (is_some before || (is_some after || is_some cursor)) ≡ ok u
      → decode_key bs58_decode pubkey_from_str before ≡ key_of before
      → decode_key bs58_decode pubkey_from_str after ≡ key_of after
      → options_of limit page before after cursor sorting ≡ ok o
      → IsWanted limit page before after cursor sorting o
  unfolding create_pagination
  options_of-IsWanted limit (some p) none none cursor sorting o u c b a h =
      let e = ok-injective _ o h in (ap (λ x. x.limit) (sym e), ap create_pagination (sym e))
  options_of-IsWanted limit (some p) (some t) after cursor sorting o u c b a h =
      let e = alone p true u c in absurd (cc)
  options_of-IsWanted limit (some p) none (some t) cursor sorting o u c b a h =
      let e = alone p true u c in absurd (cc)
  options_of-IsWanted limit none none none cursor sorting o u c b a h =
      cursor_options-IsWanted limit cursor sorting o h
  options_of-IsWanted limit none (some t) after cursor sorting o u c b a h =
      let e = ok-injective _ o h in
      (ap (λ x. x.limit) (sym e), ap create_pagination (sym e) ∙ rw (b, a) refl)
  options_of-IsWanted limit none none (some t) cursor sorting o u c b a h =
      let e = ok-injective _ o h in
      (ap (λ x. x.limit) (sym e), ap create_pagination (sym e) ∙ rw (a) refl)

  -- If the arguments are accepted, then at most 1000 rows are asked for, and the query is made (the
  -- pagination is never invalid) with the page, if there is one, else with `before` and `after`, if
  -- there is one of them, as the pubkeys that they name; else with the decoded cursor if there is a
  -- sorting, and without a sorting with no condition, whatever the cursor. (A text that is a pubkey
  -- is the base 58 text of its bytes.)
  pub validate_pagination-create_pagination :
      (limit page : Option ℕ) (before after cursor : Option Text) (sorting : Option AssetSorting)
      (o : PageOptions)
      → validate_pagination bs58_decode pubkey_from_str limit page before after cursor sorting
        ≡ ok o
      → (o.limit ≤ 1_000) × (create_pagination o ≡ some (wanted page before after cursor sorting))
  unfolding validate_pagination
  validate_pagination-create_pagination limit page before after cursor sorting o h =
      let others = is_some before || (is_some after || is_some cursor) in
      let has = is_some cursor in
      let check = check_key bs58_decode pubkey_from_str in
      let (u1, e1, h1) = then_ok (fail_if (above_1000 limit) _) _ o h in
      let (u2, e2, h2) = then_ok (check_page page others) _ o h1 in
      let (u3, e3, h3) = then_ok (check before has sorting) _ o h2 in
      let (u4, e4, h4) = then_ok (check after has sorting) _ o h3 in
      let (l, w) =
        options_of-IsWanted (limit_or_1000 limit) page before after cursor sorting o u2 e2
          (key_decoded before has sorting u3 e3) (key_decoded after has sorting u4 e4) h4 in
      (rw (l) (limit_bounded limit (passed (above_1000 limit) _ u1 e1)), w)
