-- ===== src/Auth/Jwt/Verifier.antt =====
-- src/auth/jwt.rs: the cache of key sets, and `JwtVerifier::verify`. A poisoned lock is left out.
pub mod Cache
pub mod Laws
use mathlib.Core.Option
use knievel.Base.{
  ltb, eqb, if◌then◌else◌, nat_eq, ◌==◌, int_eq, find, is_empty, Text, text, text_eq, ℕ, ◌-◌, ◌/◌,
  Bool, true, false, ◌&&◌, Option, none, some, List, [], ◌∷◌, ◌++◌,
}
use knievel.Base.Assoc.{Assoc, get, insert}
use knievel.Base.Result.{Result, ok, err, ok_or, ◌>>=◌}
use knievel.Auth.{Principal}
use knievel.Auth.Jwt.{
  JwtError, malformed, algorithm_rejected, missing_kid, signature, ClaimMappingRule, StandardClaims,
  JsonWebKey, Algorithm, hs256, hs384, hs512, es256, es384, rs256, rs384, rs512, ps256, ps384,
  ps512, ed_dsa, ErrorKind, invalid_audience, invalid_issuer, expired_signature, immature_signature,
  invalid_signature, rsa_failed_signing, invalid_algorithm, other, Validation, Crates, has_text,
  segments, field, as_text, authorize,
}

pub record JwtIssuerConfig : Type 0 where
  pub issuer : Text
  pub audience : Text
  pub algorithms : List Text
  pub jwks_url : Text
  pub claim : Text
  pub rules : List ClaimMappingRule

pub record CachedJwks : Type 0 where
  pub fetched_at_secs : ℕ
  pub keys : List JsonWebKey

abbrev pub JwksCache : Type 0
JwksCache = Assoc Text CachedJwks

pub data JwksError : Type 0 where
  discovery_failed fetch_failed parse_failed key_not_found : JwksError

abbrev pub ttl : ℕ
ttl = 3600

unfoldable pub get_keys : ℕ → JwksCache → Text → Option (List JsonWebKey)
get_keys now cache issuer = elim (get issuer cache) [
  | none ↦ none
  | some entry ↦ if ltb ttl (now - entry.fetched_at_secs) then none else some entry.keys
]

unfoldable pub insert_keys : ℕ → Text → List JsonWebKey → JwksCache → JwksCache
insert_keys now issuer keys cache =
    insert issuer (record { fetched_at_secs = now; keys = keys }) cache

-- `{:?}`
abbrev pub alg_name : Algorithm → Text
alg_name hs256 = text "HS256"
alg_name hs384 = text "HS384"
alg_name hs512 = text "HS512"
alg_name es256 = text "ES256"
alg_name es384 = text "ES384"
alg_name rs256 = text "RS256"
alg_name rs384 = text "RS384"
alg_name rs512 = text "RS512"
alg_name ps256 = text "PS256"
alg_name ps384 = text "PS384"
alg_name ps512 = text "PS512"
alg_name ed_dsa = text "EdDSA"

abbrev pub is_symmetric : Algorithm → Bool
is_symmetric hs256 = true
is_symmetric hs384 = true
is_symmetric hs512 = true
is_symmetric es256 = false
is_symmetric es384 = false
is_symmetric rs256 = false
is_symmetric rs384 = false
is_symmetric rs512 = false
is_symmetric ps256 = false
is_symmetric ps384 = false
is_symmetric ps512 = false
is_symmetric ed_dsa = false

-- How the kinds of jsonwebtoken's errors are answered.
abbrev pub error_of : ErrorKind → JwtError
error_of invalid_audience = JwtError.audience
error_of invalid_issuer = JwtError.issuer
error_of expired_signature = JwtError.expired
error_of immature_signature = JwtError.expired
error_of invalid_signature = signature
error_of rsa_failed_signing = signature
error_of invalid_algorithm = signature
error_of other = signature

-- `.trim_end_matches(c)`
unfoldable pub trim_end : ℕ → Text → Text
trim_end c [] = []
trim_end c (x ∷ xs) = let rest = trim_end c xs in if is_empty rest && eqb x c then [] else x ∷ rest

-- What is known of a token before any request is made.
pub record Chosen (J : Type 0) : Type 0 where
  pub alg : Algorithm
  pub kid : Text
  pub standard : StandardClaims J
  pub policy : JwtIssuerConfig

abbrev pub has_kid : Text → JsonWebKey → Bool
has_kid kid k = k.kid == kid

abbrev pub asymmetric : Algorithm × Option Text → Result JwtError (Algorithm × Option Text)
asymmetric header = if is_symmetric header.0 then err algorithm_rejected else ok header

abbrev pub validation_of : {J : Type 0} → Chosen J → Validation
validation_of c = record {
  alg = c.alg;
  issuer = c.policy.issuer;
  audience = c.policy.audience;
  leeway = 30;
}

abbrev pub decoded : {J : Type 0} → Result ErrorKind J → Result JwtError J
decoded (ok j) = ok j
decoded (err e) = err (error_of e)

module _ {J K : Type 0} (crates : Crates J K) where
  unfoldable pub discover : Text → Result JwksError Text
  discover issuer =
      ok_or (crates.get_json (trim_end 47 issuer ++ text "/.well-known/openid-configuration"))
        discovery_failed
      >>= λ cfg. ok_or (field crates cfg (text "jwks_uri")) discovery_failed >>= λ uri.
          ok_or (as_text crates uri) discovery_failed

  unfoldable pub fetch_jwks : Text → Text → Result JwksError (List JsonWebKey)
  fetch_jwks issuer configured =
      (if is_empty configured then discover issuer else ok configured) >>= λ jwks_url.
      ok_or (crates.get_json jwks_url) fetch_failed >>= λ body.
      ok_or (field crates body (text "keys")) parse_failed >>= λ keys_raw.
      ok_or (crates.keys_of keys_raw) parse_failed

  unfoldable pub cached_key : JwksCache → Text → Text → Option JsonWebKey
  cached_key cache issuer kid = elim (get_keys crates.now_at_get cache issuer) [
    | none ↦ none
    | some keys ↦ find (has_kid kid) keys
  ]

  unfoldable pub lookup_jwk :
      JwksCache → Text → Text → Text → JwksCache × Result JwksError JsonWebKey
  lookup_jwk cache issuer configured kid = elim (cached_key cache issuer kid) [
    | some k ↦ (cache, ok k)
    | none ↦ elim (fetch_jwks issuer configured) [
      | err e ↦ (cache, err e)
      | ok keys ↦ elim (find (has_kid kid) keys) [
        | none ↦ (cache, err key_not_found)
        | some k ↦ (insert_keys crates.now_at_insert issuer keys cache, ok k)
      ]
    ]
  ]

  unfoldable pub build_decoding_key : JsonWebKey → Option K
  build_decoding_key jwk =
      if jwk.kty == text "RSA"
      then elim jwk.n [
        | none ↦ none
        | some n ↦ elim jwk.e [ none ↦ none | some e ↦ crates.from_rsa_components n e ]
      ]
      else none

  unfoldable pub choose : List JwtIssuerConfig → Text → Result JwtError (Chosen J)
  choose policies token = ok_or (crates.decode_header token) malformed >>= λ parsed.
      asymmetric parsed >>= λ header. ok_or header.1 missing_kid >>= λ kid.
      ok_or (segments token) malformed >>= λ parts.
      ok_or (crates.decode64 parts.1) malformed >>= λ payload_bytes.
      ok_or (crates.claims_of payload_bytes) malformed >>= λ standard.
      ok_or (find (λ p. p.issuer == standard.iss) policies) JwtError.issuer >>= λ policy.
      if has_text policy.algorithms (alg_name header.0)
      then ok (record { alg = header.0; kid = kid; standard = standard; policy = policy })
      else err algorithm_rejected

  unfoldable pub check : Text → Chosen J → JsonWebKey → Result JwtError Principal
  check token c jwk = ok_or (build_decoding_key jwk) signature >>= λ key.
      decoded (crates.decode token key (validation_of c)) >>= λ claims.
      authorize crates claims c.policy.claim c.policy.rules c.standard.sub

  unfoldable pub verify :
      List JwtIssuerConfig → JwksCache → Text → JwksCache × Result JwtError Principal
  verify policies cache token = elim (choose policies token) [
    | err e ↦ (cache, err e)
    | ok c ↦
        let (cache', looked_up) = lookup_jwk cache c.policy.issuer c.policy.jwks_url c.kid in
        (cache', elim looked_up [ err e ↦ err signature | ok jwk ↦ check token c jwk ])
  ]
