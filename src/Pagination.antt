-- ===== src/Pagination.antt =====
-- src/pagination.rs: the limit and the cursor of a list request. Base64 and the JSON form of a cursor
-- are parameters; the messages of the errors are left out.
pub mod Cursor
use mathlib.Core.Option
use knievel.Base.{
  leb, if◌then◌else◌, nat_eq, ◌==◌, ℤ, pos_part, ltb_ℤ, int_eq, length, get_elem?, Text, text_eq,
  pos, ℕ, ◌+◌, ◌-◌, not, Option, none, some, List, map,
}
use knievel.Base.Result.{Result, ok, err, ok_or, ◌>>=◌}

abbrev pub default_limit : ℕ
default_limit = 50

abbrev pub max_limit : ℕ
max_limit = 500

pub record CursorState : Type 0 where
  pub kind : Text
  pub last_id : ℤ

pub data PaginationError : Type 0 where
  invalid_limit invalid_cursor : PaginationError

-- The crates `base64` (`URL_SAFE_NO_PAD`) and `serde_json`, the latter at the type of a cursor.
pub record Codec : Type 0 where
  pub b64_encode : List ℕ → Text
  pub b64_decode : Text → Option (List ℕ)
  pub to_vec : CursorState → List ℕ
  pub from_slice : List ℕ → Option CursorState

pub record Resolved : Type 0 where
  pub after_id : Option ℤ
  pub effective_limit : ℕ
  pub bumped_limit : ℕ

-- An absent limit is the default, and one outside 1 to 500 is refused.
unfoldable pub limit_of : Option ℤ → Result PaginationError ℕ
limit_of none = ok default_limit
limit_of (some n) =
    if ltb_ℤ n (pos 1)
    then err invalid_limit
    else if ltb_ℤ (pos max_limit) n
    then err invalid_limit
    else ok (pos_part n)

module _ (codec : Codec) where
  unfoldable pub encode_cursor : CursorState → Text
  encode_cursor state = codec.b64_encode (codec.to_vec state)

  unfoldable pub decode_cursor : Text → Text → Result PaginationError CursorState
  decode_cursor raw expected_kind = do
    bytes ← ok_or (codec.b64_decode raw) invalid_cursor
    state ← ok_or (codec.from_slice bytes) invalid_cursor
    if not (state.kind == expected_kind) then err invalid_cursor else ok state

  unfoldable pub after_of : Option Text → Text → Result PaginationError (Option ℤ)
  unfolding decode_cursor
  after_of none expected_kind = ok none
  after_of (some raw) expected_kind = do
    state ← decode_cursor raw expected_kind
    ok (some state.last_id)

  unfoldable pub resolve : Option ℤ → Option Text → Text → Result PaginationError Resolved
  unfolding limit_of after_of
  resolve limit cursor expected_kind = do
    effective_limit ← limit_of limit
    after_id ← after_of cursor expected_kind
    ok (record {
      after_id = after_id;
      effective_limit = effective_limit;
      bumped_limit = effective_limit + 1;
    })

  -- The rows are those of the query, with the row behind the page where there is one. An index out of
  -- range would be a panic; `resolve` never gives a limit of 0.
  unfoldable pub next_cursor : {A : Type 0} → List A → Resolved → Text → (A → ℤ) → Option Text
  unfolding encode_cursor
  next_cursor rows resolved expected_kind last_id_of =
      if leb (length rows) resolved.effective_limit
      then none
      else Option.map
          (λ last. encode_cursor (record { kind = expected_kind; last_id = last_id_of last }))
          (get_elem? rows (resolved.effective_limit - 1))
