-- ===== src/Auth/Bearer.antt =====
-- src/auth/security.rs: from a bearer token to a principal, by a JWT or by a row of
-- `knievel.api_tokens` (migrations/0003_api_tokens.sql). The check of a secret against its hash is
-- argon2's.
pub mod Laws
use mathlib.Core.Option
use knievel.Base.{
  if◌then◌else◌, nat_eq, ◌==◌, ℤ, ltb_ℤ, int_eq, find, is_empty, Text, text, text_eq, Bool, true,
  false, not, ◌&&◌, Option, none, some, List,
}
use knievel.Base.Result.{Result, ok, err}
use knievel.Auth.{Principal, Scope, TokenType, from_str}
use knievel.Auth.Opaque.{ParsedOpaque, db_id, parse}
use knievel.Auth.Jwt.{JwtError, Crates, segments, field, as_text}
use knievel.Auth.Jwt.Verifier.{JwtIssuerConfig, JwksCache, verify}

-- Times are in microseconds.
pub record ApiToken : Type 0 where
  pub id : Text
  pub org_id : Text
  pub project_id : Option Text
  pub scope : Text
  pub role : Text
  pub name : Text
  pub secret_hash : Text
  pub ip_allowlist : List Text
  pub expires_at : Option ℤ
  pub revoked_at : Option ℤ
  pub created_at : ℤ
  pub last_used_at : Option ℤ

-- What the application has and the database answers when a request comes.
pub record Host : Type 0 where
  pub policies : List JwtIssuerConfig
  pub has_pool : Bool
  pub begins : Bool
  pub binds_lookup : Bool
  pub selects : Bool
  pub now : ℤ
  pub argon2 : Text → Text → Bool

-- The setting `knievel.auth_lookup_id` of the transaction, if it could be opened.
abbrev pub begin_auth_lookup : Host → Text → Option Text
begin_auth_lookup host id = if host.begins && host.binds_lookup then some id else none

-- The third branch of the policy: no organization and no project are bound.
abbrev pub lookup_policy : Text → ApiToken → Bool
lookup_policy bound row = row.id == bound

-- `revoked_at IS NULL AND (expires_at IS NULL OR expires_at > now())`
unfoldable pub is_live : ℤ → ApiToken → Bool
is_live now row =
    elim row.revoked_at [ none ↦ true | some at ↦ false ]
    && elim row.expires_at [ none ↦ true | some at ↦ ltb_ℤ now at ]

unfoldable pub select_token : Host → Text → Text → List ApiToken → Option ApiToken
select_token host bound id rows =
    if host.selects
    then find (λ row. lookup_policy bound row && (row.id == id) && is_live host.now row) rows
    else none

abbrev pub scope_of : Text → Option Scope
scope_of s =
    if s == text "org"
    then some Scope.org
    else if s == text "project"
    then some Scope.project
    else none

unfoldable pub principal_of_row : Text → ApiToken → Option Principal
principal_of_row id row = elim (scope_of row.scope) [
  | none ↦ none
  | some scope ↦ elim (from_str row.role) [
    | none ↦ none
    | some role ↦ some (record {
      token_type = TokenType.opaque;
      scope = scope;
      org_id = row.org_id;
      project_id = row.project_id;
      role = role;
      actor_id = id;
    })
  ]
]

unfoldable pub check_row : Host → ParsedOpaque → Option ApiToken → Option Principal
check_row host parsed none = none
check_row host parsed (some row) =
    if host.argon2 parsed.secret row.secret_hash then principal_of_row (db_id parsed) row else none

unfoldable pub verify_parsed : Host → List ApiToken → ParsedOpaque → Option Principal
verify_parsed host rows parsed = elim (begin_auth_lookup host (db_id parsed)) [
  | none ↦ none
  | some bound ↦ check_row host parsed (select_token host bound (db_id parsed) rows)
]

unfoldable pub verify_opaque : Host → List ApiToken → Text → Option Principal
verify_opaque host rows token =
    if not host.has_pool
    then none
    else elim (parse token) [ err e ↦ none | ok parsed ↦ verify_parsed host rows parsed ]

abbrev pub accepted : Result JwtError Principal → Option Principal
accepted (ok principal) = some principal
accepted (err e) = none

module _ {J K : Type 0} (crates : Crates J K) where
  abbrev pub has_alg : J → Bool
  has_alg header = elim (field crates header (text "alg")) [
    | none ↦ false
    | some v ↦ elim (as_text crates v) [ none ↦ false | some s ↦ true ]
  ]

  unfoldable pub looks_like_jwt : Text → Bool
  looks_like_jwt token = elim (segments token) [
    | none ↦ false
    | some parts ↦ elim (crates.decode64 parts.0) [
      | none ↦ false
      | some header_bytes ↦ elim (crates.value_of header_bytes) [
        | none ↦ false
        | some header ↦ has_alg header
      ]
    ]
  ]

  abbrev pub is_enabled : Host → Bool
  is_enabled host = not (is_empty host.policies)

  -- The cache of key sets behind the request, and who makes it.
  unfoldable pub verify_bearer :
      Host → JwksCache → List ApiToken → Text → JwksCache × Option Principal
  verify_bearer host cache rows token =
      if is_enabled host && looks_like_jwt token
      then (let (cache', verdict) = verify crates host.policies cache token in
          (cache', accepted verdict))
      else (cache, verify_opaque host rows token)
