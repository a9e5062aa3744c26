-- ===== src/Tokens/Minted.antt =====
-- src/tokens.rs with src/auth/security.rs: a token that was minted is let in.
use knievel.Base.{
  Option-cases, nat_eq, ◌==◌, int_eq, any, find, is_empty, Text, text, eqb_text_iff, text_eq, ℕ,
  ◌≡◌, refl, sym, ap, ◌∙◌, subst, ◌⊎◌, inl, inr, true, false, none, some, List, [], ◌∷◌, arith,
}
use knievel.Base.Result.{ok}
use knievel.Auth.{Principal, Role, Scope, TokenType, as_str, from_str, from_str_iff}
use knievel.Auth.Opaque.{ParsedOpaque, db_id, parse, HasNoUnderscore, parse_iff}
use knievel.Auth.Bearer.{
  check_row, ApiToken, Host, is_live, select_token, scope_of, principal_of_row, verify_parsed,
  verify_opaque,
}
use knievel.Tokens.{
  CreateTokenRequest, CreateTokenResponse, created, Tables, Env, hex, role_names, request_error,
  token_row, plaintext_of, create_token,
}
use knievel.Tokens.Writes.{IsMinted, IsAllOrNothing, create_token-IsAllOrNothing}

hex-HasNoUnderscore : (bs : List ℕ) → HasNoUnderscore (hex bs)
unfolding hex
hex-HasNoUnderscore [] = tt
hex-HasNoUnderscore (b ∷ bs) = ((λ e. ground arith), ((λ e. ground arith), hex-HasNoUnderscore bs))

is_empty-hex : (bs : List ℕ) → is_empty bs ≡ false → is_empty (hex bs) ≡ false
unfolding hex
is_empty-hex [] h = h
is_empty-hex (b ∷ bs) h = refl

named_role : (s : Text) → any (λ r. s == r) role_names ≡ true → (r : Role) × (from_str s ≡ some r)
unfolding any from_str
named_role s h = elim (Option-cases (from_str s)) [ inr (r, e) ↦ (r, e) | inl n ↦ ground arith ]

request_error-none :
    (req : CreateTokenRequest)
    → request_error req ≡ none
    → ((req.scope ≡ text "org") ⊎ (req.scope ≡ text "project"))
      × (any (λ r. req.role == r) role_names ≡ true)
unfolding request_error
request_error-none req h =
    ground (arith, eqb_text_iff req.scope (text "org"), eqb_text_iff req.scope (text "project"))

-- The application has a pool and the database answers.
pub record IsReady (host : Host) : Type 0 where
  pub has_pool : host.has_pool ≡ true
  pub begins : host.begins ≡ true
  pub binds : host.binds_lookup ≡ true
  pub selects : host.selects ≡ true

-- Who a token that was minted for the request speaks for.
pub record SpeaksFor (org : Text) (req : CreateTokenRequest) (id : Text) (p : Principal)
    : Type 0 where
  pub is_opaque : p.token_type ≡ TokenType.opaque
  pub org_is : p.org_id ≡ org
  pub project_is : p.project_id ≡ req.project_id
  pub role_is : req.role ≡ as_str p.role
  pub scope_is : scope_of req.scope ≡ some p.scope
  pub actor_is : p.actor_id ≡ id

abbrev parts_of : Env → CreateTokenRequest → ParsedOpaque
parts_of env req = record {
  env = text "prod";
  scope = req.scope;
  id_short = hex env.id_bytes;
  secret = hex env.secret_bytes;
}

parse-plaintext_of :
    (env : Env) (req : CreateTokenRequest)
    → request_error req ≡ none
    → is_empty env.id_bytes ≡ false
    → is_empty env.secret_bytes ≡ false
    → parse (plaintext_of env req) ≡ ok (parts_of env req)
parse-plaintext_of env req accepted has_id has_secret =
    (parse_iff (plaintext_of env req) (parts_of env req)).1 (
      refl,
      record {
        env_apart = ground arith;
        id_apart = hex-HasNoUnderscore env.id_bytes;
        has_env = refl;
        has_id = is_empty-hex env.id_bytes has_id;
        has_secret = is_empty-hex env.secret_bytes has_secret;
        scope_known = (request_error-none req accepted).0;
      },
    )

scope_of-some :
    (s : Text)
    → (s ≡ text "org") ⊎ (s ≡ text "project")
    → (scope : Scope) × (scope_of s ≡ some scope)
scope_of-some s (inl e) = (Scope.org, ap scope_of e)
scope_of-some s (inr e) = (Scope.project, ap scope_of e)

principal_of_row-SpeaksFor :
    (env : Env) (org : Text) (req : CreateTokenRequest) (secret_hash id : Text)
    → request_error req ≡ none
    → (p : Principal) × (principal_of_row id (token_row env org req secret_hash) ≡ some p)
      × SpeaksFor org req id p
unfolding principal_of_row
principal_of_row-SpeaksFor env org req secret_hash id accepted =
    let (scoped, named) = request_error-none req accepted in
    let (scope, s) = scope_of-some req.scope scoped in
    let (role, r) = named_role req.role named in
    (
      record {
        token_type = TokenType.opaque;
        scope = scope;
        org_id = org;
        project_id = req.project_id;
        role = role;
        actor_id = id;
      },
      simp (s, r, principal_of_row) refl,
      record {
        is_opaque = refl;
        org_is = refl;
        project_is = refl;
        role_is = (from_str_iff req.role role).0 r;
        scope_is = s;
        actor_is = refl;
      },
    )

module _ (host : Host) (ready : IsReady host) where
  -- The row that stands first and does not expire is found by its id.
  select_token-first :
      (row : ApiToken) (rows : List ApiToken) (id : Text)
      → row.id ≡ id
      → row.revoked_at ≡ none
      → row.expires_at ≡ none
      → select_token host id id (row ∷ rows) ≡ some row
  unfolding select_token find is_live
  select_token-first row rows id same live forever =
      ground (arith, ready.selects, eqb_text_iff row.id id)

  verify_parsed-first :
      (row : ApiToken) (rows : List ApiToken) (parsed : ParsedOpaque)
      → row.id ≡ db_id parsed
      → row.revoked_at ≡ none
      → row.expires_at ≡ none
      → host.argon2 parsed.secret row.secret_hash ≡ true
      → verify_parsed host (row ∷ rows) parsed ≡ principal_of_row (db_id parsed) row
  unfolding verify_parsed check_row
  verify_parsed-first row rows parsed same live forever secret = ground (
    arith,
    ready.begins,
    ready.binds,
    select_token-first row rows (db_id parsed) same live forever,
    secret,
  )

-- The secret that a mint has answered is let in for the organization, the project, the scope and the
-- role of its request, under the id of its row, at every later time of the database's clock: the
-- request's `expires_at` is not kept.
pub create_token-authenticates :
    (env : Env) (principal : Principal) (org : Text) (req : CreateTokenRequest) (host : Host)
    (tables : Tables) {after : Tables} {resp : CreateTokenResponse}
    → create_token env principal org req tables ≡ (after, created resp)
    → is_empty env.id_bytes ≡ false
    → is_empty env.secret_bytes ≡ false
    → IsReady host
    → ((s h : Text) → env.hash s ≡ some h → host.argon2 s h ≡ true)
    → (p : Principal) × (verify_opaque host after.api_tokens resp.secret ≡ some p)
      × SpeaksFor org req resp.id p
unfolding IsAllOrNothing verify_opaque db_id
create_token-authenticates env principal org req host tables {after} {resp} h has_id has_secret
      ready lawful =
    let minted : IsMinted env principal org req tables after resp =
      subst (IsAllOrNothing env principal org req tables) h
        (create_token-IsAllOrNothing env principal org req tables) in
    let row = token_row env org req minted.secret_hash in
    let (p, found, speaks) =
      principal_of_row-SpeaksFor env org req minted.secret_hash row.id minted.accepted in
    (
      p,
      simp
          (
            minted.secret_is,
            minted.row_added,
            ready.has_pool,
            parse-plaintext_of env req minted.accepted has_id has_secret,
            verify_opaque,
          )
          (verify_parsed-first host ready row tables.api_tokens (parts_of env req) refl refl refl
              (lawful (hex env.secret_bytes) minted.secret_hash minted.hashed)
            ∙ found),
      subst (λ id. SpeaksFor org req id p) (sym minted.id_is) speaks,
    )
