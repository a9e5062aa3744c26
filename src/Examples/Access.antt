-- ===== src/Examples/Access.antt =====
-- The theorems on who is let in, at a toy issuer and a toy organization.
use knievel.Base.{
  if◌then◌else◌, nat_eq, ◌==◌, ==_refl, int_eq, any, find, Text, text, text_eq, split_once, splitn,
  pos, ◌≡◌, refl, ◌⊎◌, true, false, none, some, [], ◌∷◌, arith,
}
use knievel.Base.Assoc.{get, insert}
use knievel.Base.Result.{ok}
use knievel.Auth.{Principal, Role, Scope, TokenType, from_str, has_role_at_least}
use knievel.Auth.Tenancy.{begin_bound, bind_project}
use knievel.Auth.Opaque.{ParsedOpaque, db_id, parse, strip_prefix, check_parts}
use knievel.Auth.Jwt.{
  Crates, JsonView, Algorithm, JsonWebKey, segments, field, as_text, principal_of, authorize,
}
use knievel.Auth.Jwt.Verifier.{
  JwtIssuerConfig, JwksCache, get_keys, insert_keys, fetch_jwks, cached_key, lookup_jwk, choose,
  check, build_decoding_key, verify,
}
use knievel.Auth.Jwt.Verifier.Laws.{IsVouched}
use knievel.Auth.Bearer.{Host, is_enabled, looks_like_jwt, verify_bearer, verify_opaque}
use knievel.Auth.Bearer.Laws.{IsLetIn, verify_bearer-IsBacked}
use knievel.Tokens.{
  CreateTokenRequest, CreateTokenResponse, created, no_content, Tables, Env, hex, emit,
  request_error, denied, insert_token, mint, create_token, set_revoked, revoke_in, revoke_token,
}
use knievel.Tokens.Writes.{IsAllOrNothing, create_token-IsAllOrNothing}
use knievel.Tokens.Minted.{SpeaksFor, create_token-authenticates}
use knievel.Tokens.Revoked.{here, minted, no_tables, revoke_token-stays}
use knievel.Examples.World.{database1}

-- A JSON value is its text, and some texts stand for objects.
abbrev toy_view : Text → JsonView Text
toy_view j =
    if j == text "h"
    then JsonView.object (λ k. if k == text "alg" then some (text "RS256") else none)
    else if j == text "p"
    then JsonView.object (λ k. if k == text "knievel" then some (text "claim") else none)
    else if j == text "set"
    then JsonView.object (λ k. if k == text "keys" then some (text "list") else none)
    else JsonView.string j

abbrev key1 : JsonWebKey
key1 = record {
  kid = text "k1";
  kty = text "RSA";
  alg = none;
  n = some (text "n");
  e = some (text "e");
}

abbrev toy_crates : Crates Text Text
toy_crates = record {
  view = toy_view;
  decode64 = λ s. some s;
  header_of = λ s. some (record { alg = text "RS256"; kid = some (text "k1"); typ = none });
  claims_of = λ s. some (record {
    iss = text "https://id";
    aud = text "knievel";
    exp = none;
    nbf = none;
    iat = none;
    sub = some (text "ann");
  });
  value_of = λ s. some s;
  knievel_of = λ j.
      some (record {
        scope = text "org";
        org_id = text "org";
        project_id = none;
        role = text "editor";
      });
  keys_of = λ j. some (key1 ∷ []);
  decode_header = λ s. some (Algorithm.rs256, some (text "k1"));
  from_rsa_components = λ n e. some n;
  decode = λ s k v. ok (text "p");
  get_json = λ url. some (text "set");
  now_at_get = 100;
  now_at_insert = 101;
}

abbrev issuer1 : JwtIssuerConfig
issuer1 = record {
  issuer = text "https://id";
  audience = text "knievel";
  algorithms = text "RS256" ∷ [];
  jwks_url = text "https://id/keys";
  claim = text "knievel";
  rules = [];
}

abbrev host1 : Host
host1 = record {
  policies = issuer1 ∷ [];
  has_pool = true;
  begins = true;
  binds_lookup = true;
  selects = true;
  now = pos 100;
  argon2 = λ secret hash. secret == hash;
}

abbrev cache1 : JwksCache
cache1 = (text "https://id", record { fetched_at_secs = 101; keys = key1 ∷ [] }) ∷ []

abbrev ann : Principal
ann = record {
  token_type = TokenType.jwt;
  scope = Scope.org;
  org_id = text "org";
  project_id = none;
  role = Role.editor;
  actor_id = text "jwt:ann";
}

let_in1 : verify_bearer toy_crates host1 [] [] (text "h.p.s") ≡ (cache1, some ann)
unfolding verify_bearer verify choose check looks_like_jwt segments splitn split_once field as_text
    find any lookup_jwk cached_key get_keys get insert_keys insert fetch_jwks build_decoding_key
    authorize principal_of from_str
let_in1 = refl

verify_bearer-IsBacked_example :
    ((is_enabled toy_crates host1 ≡ true)
      × IsVouched toy_crates host1.policies [] cache1 (text "h.p.s") ann)
    ⊎ ((cache1 ≡ []) × IsLetIn host1 [] (text "h.p.s") ann)
verify_bearer-IsBacked_example =
    verify_bearer-IsBacked toy_crates host1 [] [] (text "h.p.s") let_in1

abbrev later_crates : Crates Text Text
later_crates = record toy_crates { get_json = λ url. none; now_at_get = 3000 }

looked_up1 :
    lookup_jwk toy_crates [] (text "https://id") (text "https://id/keys") (text "k1")
    ≡ (cache1, ok key1)
unfolding lookup_jwk cached_key get_keys get fetch_jwks field find insert_keys insert
looked_up1 = refl

abbrev owner1 : Principal
owner1 = record {
  token_type = TokenType.opaque;
  scope = Scope.org;
  org_id = text "org";
  project_id = none;
  role = Role.org_admin;
  actor_id = text "tok_aa";
}

abbrev tokens_env : Env
tokens_env = record {
  db = some database1;
  statement_fails = false;
  audit_fails = false;
  commits = true;
  now = pos 50;
  id_bytes = 0xab ∷ [];
  secret_bytes = 0x12 ∷ [];
  hash = λ secret. some secret;
  to_json = λ req. some req.name;
  sha256 = λ bytes. [];
}

abbrev request1 : CreateTokenRequest
request1 = record {
  name = text "sync";
  scope = text "org";
  project_id = none;
  role = text "editor";
  expires_at = some (text "2026-01-01T00:00:00Z");
  ip_allowlist = none;
}

abbrev minted1 : Tables
minted1 = (create_token tokens_env owner1 (text "org") request1 no_tables).0

abbrev response1 : CreateTokenResponse
response1 = record {
  id = text "tok_ab";
  secret = text "kvl_prod_org_ab_12";
  name = text "sync";
  scope = text "org";
  role = text "editor";
  created_at = pos 50;
}

created1 :
    create_token tokens_env owner1 (text "org") request1 no_tables ≡ (minted1, created response1)
unfolding create_token mint denied has_role_at_least request_error any begin_bound bind_project
    insert_token emit hex
created1 = refl

create_token-IsAllOrNothing_example :
    IsAllOrNothing tokens_env owner1
      (text "org")
      request1
      no_tables
      (create_token tokens_env owner1 (text "org") request1 no_tables)
create_token-IsAllOrNothing_example =
    create_token-IsAllOrNothing tokens_env owner1 (text "org") request1 no_tables

create_token-authenticates_example :
    (p : Principal) × (verify_opaque host1 minted1.api_tokens response1.secret ≡ some p)
    × SpeaksFor (text "org") request1 (text "tok_ab") p
create_token-authenticates_example =
    create_token-authenticates tokens_env owner1 (text "org") request1 host1 no_tables created1 refl
      refl (record { has_pool = refl; begins = refl; binds = refl; selects = refl })
      (λ s h e. ground (arith, ==_refl s))

abbrev revoked1 : Tables
revoked1 = (revoke_token tokens_env owner1 (text "org") (text "tok_ab") minted1).0

revoked1_answer :
    revoke_token tokens_env owner1 (text "org") (text "tok_ab") minted1 ≡ (revoked1, no_content)
unfolding create_token mint denied has_role_at_least request_error any begin_bound bind_project
    insert_token emit hex revoke_token revoke_in set_revoked
revoked1_answer = refl

abbrev parsed_ab : ParsedOpaque
parsed_ab = record {
  env = text "prod";
  scope = text "org";
  id_short = text "ab";
  secret = text "12";
}

parsed1 : parse response1.secret ≡ ok parsed_ab
unfolding parse strip_prefix splitn split_once check_parts
parsed1 = refl

-- Another token is minted after the revocation.
abbrev env2 : Env
env2 = record tokens_env { id_bytes = 0xcd ∷ [] }

revoke_token-stays_example :
    verify_opaque host1
      (create_token env2 owner1 (text "org") request1 revoked1).0.api_tokens
      response1.secret
    ≡ none
unfolding db_id
revoke_token-stays_example =
    revoke_token-stays tokens_env owner1 (text "org") (text "tok_ab") host1 response1.secret
      parsed_ab (minted tokens_env owner1 (text "org") request1 here) revoked1_answer
      (minted env2 owner1 (text "org") request1 here) parsed1 refl
