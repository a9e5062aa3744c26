-- ===== src/Auth/Jwt.antt =====
-- src/auth/jwt.rs, with the issuers' part of src/config.rs: what a JWT is checked for, and `validate`.
-- Base64, serde and the crate jsonwebtoken are parameters: what they answer to the calls of one request.
-- `J` is a JSON value, `K` a decoding key.
pub mod Verifier
use mathlib.Core.Option
use knievel.Base.{
  leb, eqb, if◌then◌else◌, nat_eq, ◌==◌, ℤ, ◌+ℤ◌, ◌-ℤ◌, ltb_ℤ, int_eq, any, all, find, is_empty,
  Text, text, text_eq, splitn, pos, ℕ, ◌+◌, Bool, false, not, ◌&&◌, ◌||◌, Option, none, some, List,
  [], ◌∷◌, ◌++◌, map,
}
use knievel.Base.Result.{Result, ok, err, ok_or, ◌>>=◌}
use knievel.Auth.{Principal, Scope, TokenType, from_str}

pub data JwtError : Type 0 where
  malformed algorithm_rejected missing_kid signature issuer audience expired claim_missing
        claim_malformed :
      JwtError

pub record ClaimPrincipal : Type 0 where
  pub scope : Text
  pub org_id : Text
  pub project_id : Option Text
  pub role : Text

pub record ClaimMappingRule : Type 0 where
  pub match_claims : List (Text × Text)
  pub principal : ClaimPrincipal

pub record IssuerPolicy : Type 0 where
  pub issuer : Text
  pub audience : Text
  pub algorithms : List Text
  pub jwks_url : Option Text
  pub claim : Text
  pub rules : List ClaimMappingRule

pub record JwtHeader : Type 0 where
  pub alg : Text
  pub kid : Option Text
  pub typ : Option Text

pub record StandardClaims (J : Type 0) : Type 0 where
  pub iss : Text
  pub aud : J
  pub exp : Option ℤ
  pub nbf : Option ℤ
  pub iat : Option ℤ
  pub sub : Option Text

pub record KnievelClaim : Type 0 where
  pub scope : Text
  pub org_id : Text
  pub project_id : Option Text
  pub role : Text

pub record JsonWebKey : Type 0 where
  pub kid : Text
  pub kty : Text
  pub alg : Option Text
  pub n : Option Text
  pub e : Option Text

-- What a JSON value is, as far as the code asks.
pub data JsonView (J : Type 0) : Type 0 where
  string : Text → JsonView J
  array : List J → JsonView J
  object : (Text → Option J) → JsonView J
  scalar : JsonView J

pub data Algorithm : Type 0 where
  hs256 hs384 hs512 es256 es384 rs256 rs384 rs512 ps256 ps384 ps512 ed_dsa : Algorithm

-- The kinds of jsonwebtoken's errors that the code tells apart.
pub data ErrorKind : Type 0 where
  invalid_audience invalid_issuer expired_signature immature_signature invalid_signature
        rsa_failed_signing invalid_algorithm other :
      ErrorKind

pub record Validation : Type 0 where
  pub alg : Algorithm
  pub issuer : Text
  pub audience : Text
  pub leeway : ℕ

-- The two readings of the clock are those of the cache's `get` and of its `insert`.
pub record Crates (J K : Type 0) : Type 0 where
  pub view : J → JsonView J
  pub decode64 : Text → Option Text
  pub header_of : Text → Option JwtHeader
  pub claims_of : Text → Option (StandardClaims J)
  pub value_of : Text → Option J
  pub knievel_of : J → Option KnievelClaim
  pub keys_of : J → Option (List JsonWebKey)
  pub decode_header : Text → Option (Algorithm × Option Text)
  pub from_rsa_components : Text → Text → Option K
  pub decode : Text → K → Validation → Result ErrorKind J
  pub get_json : Text → Option J
  pub now_at_get : ℕ
  pub now_at_insert : ℕ

-- A rule or a claim as a principal.
unfoldable pub principal_of : ClaimPrincipal → Option Text → Result JwtError Principal
principal_of c sub =
    ok_or
      (if c.scope == text "org"
        then some Scope.org
        else if c.scope == text "project"
        then some Scope.project
        else none)
      claim_malformed
    >>= λ scope. ok_or (from_str c.role) claim_malformed >>= λ role. ok (record {
      token_type = TokenType.jwt;
      scope = scope;
      org_id = c.org_id;
      project_id = c.project_id;
      role = role;
      actor_id = text "jwt:" ++ Option.get_or sub [];
    })

abbrev pub principal_from_knievel_claim : KnievelClaim → Option Text → Result JwtError Principal
principal_from_knievel_claim c sub =
    principal_of
      (record { scope = c.scope; org_id = c.org_id; project_id = c.project_id; role = c.role }) sub

-- `.to_ascii_lowercase()`
abbrev pub lower : ℕ → ℕ
lower c = if leb 65 c && leb c 90 then c + 32 else c

-- `none` and `HS*`, in any case.
unfoldable pub is_refused : Text → Bool
is_refused alg =
    let low = map lower alg in
    low == text "none" || elim low [
      | [] ↦ false
      | a ∷ rest ↦ elim rest [ [] ↦ false | b ∷ others ↦ eqb a 104 && eqb b 115 ]
    ]

-- `.contains(x)`
abbrev pub has_text : List Text → Text → Bool
has_text xs x = any (λ y. y == x) xs

abbrev pub skew : ℤ
skew = pos 30

unfoldable pub out_of_time : {J : Type 0} → ℤ → StandardClaims J → Bool
out_of_time now c =
    elim c.exp [ none ↦ false | some exp ↦ ltb_ℤ exp (now -ℤ skew) ]
    || elim c.nbf [ none ↦ false | some nbf ↦ ltb_ℤ (now +ℤ skew) nbf ]
    || elim c.iat [ none ↦ false | some iat ↦ ltb_ℤ (now +ℤ skew) iat ]

-- The parts of `token.splitn(3, '.')`, if there are three.
abbrev pub three : List Text → Option (Text × Text × Text)
three (a ∷ b ∷ c ∷ []) = some (a, b, c)
three (a ∷ b ∷ c ∷ d ∷ rest) = none
three (a ∷ b ∷ []) = none
three (a ∷ []) = none
three [] = none

unfoldable pub segments : Text → Option (Text × Text × Text)
segments token = three (splitn 46 3 token)

module _ {J K : Type 0} (crates : Crates J K) where
  -- `.get(key)`
  unfoldable pub field : J → Text → Option J
  field j key = elim (crates.view j) [
    | string s ↦ none
    | array items ↦ none
    | object at ↦ at key
    | scalar ↦ none
  ]

  unfoldable pub as_text : J → Option Text
  as_text j = elim (crates.view j) [
    | string s ↦ some s
    | array items ↦ none
    | object at ↦ none
    | scalar ↦ none
  ]

  abbrev pub is_text : Text → J → Bool
  is_text want j = elim (as_text j) [ none ↦ false | some s ↦ s == want ]

  unfoldable pub audience_contains : J → Text → Bool
  audience_contains aud want = elim (crates.view aud) [
    | string s ↦ s == want
    | array items ↦ any (is_text want) items
    | object at ↦ false
    | scalar ↦ false
  ]

  unfoldable pub rule_matches : J → ClaimMappingRule → Bool
  rule_matches claims rule =
      all
        (λ (kv : Text × Text). elim (field claims kv.0) [ none ↦ false | some c ↦ is_text kv.1 c ])
        rule.match_claims

  unfoldable pub principal_from_claim_mapping :
      J → List ClaimMappingRule → Option Text → Result JwtError Principal
  principal_from_claim_mapping claims rules sub =
      ok_or (find (rule_matches claims) rules) claim_missing >>= λ rule.
      principal_of rule.principal sub

  -- The claim, or the rules where the token has none.
  unfoldable pub authorize :
      J → Text → List ClaimMappingRule → Option Text → Result JwtError Principal
  authorize payload claim rules sub = elim (field payload claim) [
    | some raw ↦
        ok_or (crates.knievel_of raw) claim_malformed >>= λ c. principal_from_knievel_claim c sub
    | none ↦
        if is_empty rules then err claim_missing else principal_from_claim_mapping payload rules sub
  ]

  unfoldable pub check_header : JwtHeader → Result JwtError JwtHeader
  check_header header =
      if is_refused header.alg
      then err algorithm_rejected
      else elim header.kid [ none ↦ err missing_kid | some kid ↦ ok header ]

  unfoldable pub check_claims :
      ℤ → JwtHeader → IssuerPolicy → StandardClaims J → Result JwtError IssuerPolicy
  check_claims now header policy standard =
      if not (has_text policy.algorithms header.alg)
      then err algorithm_rejected
      else if not (audience_contains standard.aud policy.audience)
      then err audience
      else if out_of_time now standard
      then err expired
      else ok policy

  unfoldable pub validate : Text → List IssuerPolicy → ℤ → Result JwtError Principal
  validate token policies now = ok_or (segments token) malformed >>= λ parts.
      ok_or (crates.decode64 parts.0) malformed >>= λ header_bytes.
      ok_or (crates.decode64 parts.1) malformed >>= λ payload_bytes.
      ok_or (crates.header_of header_bytes) malformed >>= λ parsed.
      check_header parsed >>= λ header.
      ok_or (crates.claims_of payload_bytes) malformed >>= λ standard.
      ok_or (find (λ p. p.issuer == standard.iss) policies) issuer >>= λ found.
      check_claims now header found standard >>= λ policy.
      ok_or (crates.value_of payload_bytes) malformed >>= λ payload.
      authorize payload policy.claim policy.rules standard.sub
