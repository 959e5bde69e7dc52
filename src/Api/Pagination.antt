-- ===== src/Api/Pagination.antt =====
-- das_api/src/api/api_impl.rs: `get_cursor` and `validate_pagination`, with `validate_pubkey` of
-- validation.rs. `bs58_decode` and `pubkey_from_str` are those of the crates bs58 and solana_sdk.
pub mod Accepted
use das.Prelude.{
  ℕ, ℤ, Bool, true, false, not, ◌&&◌, ◌||◌, Option, none, some, List, [], Text, ltb, leb, ◌==◌,
  if◌then◌else◌, is_some,
}
use das.Dapi.Sorting.{AssetSorting, is_id}
use das.Dapi.Pages.{Bytes, Cursor, PageOptions}

pub data DasApiError : Type 0 where
  pagination_error pagination_empty_error pagination_exceeded_error : DasApiError
  pagination_sorting_validation_error batch_size_exceeded_error : DasApiError
  pubkey_validation_error cursor_validation_error validation_error : Text → DasApiError

pub data Checked (A : Type 0) : Type 0 where
  ok : A → Checked A
  err : DasApiError → Checked A

infixl 5 ◌>>=◌ ◌>>◌
abbrev pub ◌>>=◌ : {A B : Type 0} → Checked A → (A → Checked B) → Checked B
ok a >>= k = k a
err e >>= k = err e

abbrev pub ◌>>◌ : {A B : Type 0} → Checked A → Checked B → Checked B
m >> k = m >>= λ _. k

-- `if test { return Err(e) }`
abbrev pub fail_if : Bool → DasApiError → Checked (Unit {0})
fail_if true e = err e
fail_if false e = ok tt

-- A sorting that is given, and not by id.
abbrev pub sorts_otherwise : Option AssetSorting → Bool
sorts_otherwise none = false
sorts_otherwise (some s) = not (is_id s.sort_by)

abbrev pub above_1000 : Option ℕ → Bool
above_1000 none = false
above_1000 (some n) = ltb 1_000 n

abbrev pub limit_or_1000 : Option ℕ → ℕ
limit_or_1000 none = 1_000
limit_or_1000 (some n) = n

abbrev pub check_page : Option ℕ → Bool → Checked (Unit {0})
check_page none others = ok tt
check_page (some p) others = do
  fail_if (p == 0) DasApiError.pagination_empty_error
  fail_if others DasApiError.pagination_error

module _ (bs58_decode : Text → Option Bytes) (pubkey_from_str : Text → Option Bytes) where
  abbrev pub valid_pubkey : Text → Option Bytes → Checked Bytes
  valid_pubkey t none = err (DasApiError.pubkey_validation_error t)
  valid_pubkey t (some key) = ok key

  unfoldable pub validate_pubkey : Text → Checked Bytes
  validate_pubkey t = valid_pubkey t (pubkey_from_str t)

  abbrev pub decoded_cursor : Text → Option Bytes → Checked Cursor
  decoded_cursor t none = err (DasApiError.cursor_validation_error t)
  decoded_cursor t (some key) = ok (record { id = some key })

  unfoldable pub get_cursor : Option Text → Checked Cursor
  get_cursor none = ok (record { id = none })
  get_cursor (some t) = decoded_cursor t (bs58_decode t)

  -- The checks on `before`, and those on `after`.
  abbrev pub check_key : Option Text → Bool → Option AssetSorting → Checked (Unit {0})
  check_key none has_cursor sorting = ok tt
  check_key (some t) has_cursor sorting = do
    fail_if has_cursor DasApiError.pagination_error
    fail_if (sorts_otherwise sorting) DasApiError.pagination_sorting_validation_error
    validate_pubkey t
    ok tt

  -- `bs58::decode(x).into_vec().unwrap_or_default()`
  abbrev pub bytes_or_default : Option Bytes → Bytes
  bytes_or_default none = []
  bytes_or_default (some key) = key

  abbrev pub decode_key : Option Text → Option Bytes
  decode_key none = none
  decode_key (some t) = some (bytes_or_default (bs58_decode t))

  -- Without a page, `before` and `after`: the cursor is only looked at under a sorting.
  abbrev pub cursor_options : ℕ → Option Text → Option AssetSorting → Checked PageOptions
  cursor_options limit cursor none =
      ok (record { limit = limit; page = none; before = none; after = none; cursor = none })
  cursor_options limit cursor (some s) = do
    fail_if (not (is_id s.sort_by)) DasApiError.pagination_sorting_validation_error
    c ← get_cursor cursor
    ok (record { limit = limit; page = none; before = none; after = none; cursor = some c })

  unfoldable pub validate_pagination :
      Option ℕ
      → Option ℕ
      → Option Text
      → Option Text
      → Option Text
      → Option AssetSorting
      → Checked PageOptions
  validate_pagination limit page before after cursor sorting = do
    fail_if (above_1000 limit) DasApiError.pagination_exceeded_error
    check_page page (is_some before || (is_some after || is_some cursor))
    check_key before (is_some cursor) sorting
    check_key after (is_some cursor) sorting
    let options : PageOptions = record {
      limit = limit_or_1000 limit;
      page = page;
      before = decode_key before;
      after = decode_key after;
      cursor = none;
    }
    let keyed = is_some page || (is_some before || is_some after)
    if keyed then ok options else cursor_options (limit_or_1000 limit) cursor sorting
