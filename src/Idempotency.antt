-- ===== src/Idempotency.antt =====
-- src/idempotency.rs: the store of answers by `Idempotency-Key`, on the rows of the table
-- `knievel.idempotency_keys` (migrations/0005_idempotency_keys.sql), its unique index and its policy.
-- The JSON form of a body and SHA-256 are parameters. Times are in microseconds.
pub mod Laws
use knievel.Base.{
  if◌then◌else◌, nat_eq, ◌==◌, ℤ, ltb_ℤ, int_eq, as_u64, any, find, Text, text_eq, pos, ℕ, ◌*◌, ◌%◌,
  ◌^◌, Bool, false, not, ◌&&◌, ◌||◌, Option, none, some, List, [], ◌∷◌, map,
}
use mathlib.Core.Option
use knievel.Auth.Tenancy.{Tx}
use knievel.Tokens.{hex}

pub record IdempotencyKey : Type 0 where
  pub org_id : Text
  pub project_id : Option Text
  pub key : Text
  pub route : Text
  pub body_hash : Text
  pub response_status : ℤ
  pub response_body : Text
  pub created_at : ℤ
  pub expires_at : ℤ

pub data CheckResult : Type 0 where
  fresh : CheckResult
  replay : (status : ℕ) (body : Text) → CheckResult
  conflict : CheckResult

-- The body's JSON form, where it has one, as its hash.
abbrev pub body_hash : (Text → List ℕ) → Option Text → Option Text
body_hash sha256 canonical = Option.map (λ b. hex (sha256 b)) canonical

-- The default of `expires_at`.
abbrev pub replay_window : ℤ
replay_window = pos (24 * 60 * 60 * 1000000)

-- `coalesce(project_id, '')`
abbrev pub project_or_empty : Option Text → Text
project_or_empty p = Option.get_or p []

-- What the unique index is over.
abbrev pub is_slot : Text → Option Text → Text → Text → IdempotencyKey → Bool
is_slot org_id project_id key route row =
    row.org_id == org_id
    && (project_or_empty row.project_id == project_or_empty project_id)
    && (row.key == key)
    && (row.route == route)

-- The policy's `USING`; a setting that is not bound compares as NULL, and so does a NULL column.
abbrev pub is_visible : Tx → IdempotencyKey → Bool
is_visible tx row = row.org_id == tx.org_id || elim row.project_id [
  | none ↦ false
  | some p ↦ elim tx.project_id [ none ↦ false | some q ↦ p == q ]
]

-- `as u16`
abbrev pub as_u16 : ℤ → ℕ
as_u16 a = as_u64 a % 2 ^ 16

abbrev pub result_of : Text → Option IdempotencyKey → CheckResult
result_of hash none = fresh
result_of hash (some row) =
    if row.body_hash == hash
    then replay (as_u16 row.response_status) row.response_body
    else conflict

-- `none` is a database error.
unfoldable pub check :
    Bool
    → ℤ
    → Tx
    → Text
    → Option Text
    → Text
    → Text
    → Text
    → List IdempotencyKey
    → Option CheckResult
check answers now tx org_id project_id key route hash rows =
    if not answers
    then none
    else some (
        result_of hash (
          find
            (λ row.
              is_slot org_id project_id key route row
              && ltb_ℤ now row.expires_at
              && is_visible tx row)
            rows))

-- `ON CONFLICT DO NOTHING`, under the policy's `WITH CHECK`.
unfoldable pub store :
    Bool → Tx → IdempotencyKey → List IdempotencyKey → Option (List IdempotencyKey)
store answers tx row rows =
    if not answers || not (row.org_id == tx.org_id)
    then none
    else if any (is_slot row.org_id row.project_id row.key row.route) rows
    then some rows
    else some (row ∷ rows)
