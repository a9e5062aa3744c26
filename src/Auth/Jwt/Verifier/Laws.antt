-- ===== src/Auth/Jwt/Verifier/Laws.antt =====
-- src/auth/jwt.rs: what stands behind a principal that `JwtVerifier::verify` gives.
use knievel.Base.{
  Bool-cases, Option-cases, nat_eq, ◌==◌, int_eq, In, any, find, is_empty, find-some, Text,
  eqb_text_iff, text_eq, ◌≡◌, sym, ap, ◌∙◌, subst, ◌⊎◌, inl, inr, true, false, Option, none, some,
  List, [], ◌∷◌, arith,
}
use knievel.Base.Result.{
  Result, ok, err, ok_or-bind-elim, bind-elim, Result-cases, err≢ok, ok-injective,
}
use knievel.Auth.{Principal}
use knievel.Auth.Jwt.{
  ClaimMappingRule, JsonWebKey, KnievelClaim, Algorithm, ErrorKind, Crates, segments, has_text,
  field, authorize, rule_matches, principal_of, principal_from_knievel_claim,
  principal_from_claim_mapping,
}
use knievel.Auth.Jwt.Verifier.{
  JwtIssuerConfig, JwksCache, JwksError, alg_name, is_symmetric, Chosen, choose, check,
  validation_of, build_decoding_key, decoded, lookup_jwk, verify, asymmetric,
}
use knievel.Auth.Jwt.Verifier.Cache.{IsFound, lookup_jwk-IsFound}

decoded-ok :
    {J : Type 0} (answer : Result ErrorKind J) {payload : J}
    → decoded answer ≡ ok payload
    → answer ≡ ok payload
decoded-ok (ok j) h = ap ok (ok-injective h)
decoded-ok (err e) h = err≢ok h

asymmetric-ok :
    (header : Algorithm × Option Text) {header' : Algorithm × Option Text}
    → asymmetric header ≡ ok header'
    → (header ≡ header') × (is_symmetric header'.0 ≡ false)
asymmetric-ok header h = elim (Bool-cases (is_symmetric header.0)) [
  | inl t ↦ err≢ok (rw t at h)
  | inr f ↦
      let e = ok-injective (rw f at h) in
      (e, subst (λ (x : Algorithm × Option Text). is_symmetric x.0 ≡ false) e f)
]

any-In : (xs : List Text) (x : Text) → has_text xs x ≡ true → In x xs
unfolding any
any-In [] x h = ground arith
any-In (y ∷ ys) x h = elim (Bool-cases (y == x)) [
  | inl t ↦ inl (sym ((eqb_text_iff y x).0 t))
  | inr f ↦ inr (any-In ys x (rw (f, any) at h))
]

module _ {J K : Type 0} (crates : Crates J K) where
  -- What the token says of itself, and the issuer that it is matched to.
  pub record IsChosen (policies : List JwtIssuerConfig) (token : Text) (c : Chosen J) : Type 0 where
    pub header : crates.decode_header token ≡ some (c.alg, some c.kid)
    pub not_symmetric : is_symmetric c.alg ≡ false
    pub trusted : In c.policy policies
    pub issuer_is : c.policy.issuer ≡ c.standard.iss
    pub alg_allowed : In (alg_name c.alg) c.policy.algorithms

  -- The claim of the token, or the first rule that matches where it has none.
  abbrev pub Grants : J → JwtIssuerConfig → Option Text → Principal → Type 0
  Grants payload policy sub p =
      ((raw : J) × (claim : KnievelClaim) × (field crates payload policy.claim ≡ some raw)
        × (crates.knievel_of raw ≡ some claim)
        × (principal_from_knievel_claim claim sub ≡ ok p))
      ⊎ ((rule : ClaimMappingRule) × (field crates payload policy.claim ≡ none)
          × (find (rule_matches crates payload) policy.rules ≡ some rule)
          × (principal_of rule.principal sub ≡ ok p))

  -- The token is signed by a key of its issuer with its key id, its decoded payload passed
  -- jsonwebtoken's checks for that issuer and audience, and the payload grants the principal.
  pub record IsVouched (policies : List JwtIssuerConfig) (cache cache' : JwksCache) (token : Text)
      (p : Principal) : Type 0 where
    pub chosen : Chosen J
    pub is_chosen : IsChosen policies token chosen
    pub jwk : JsonWebKey
    pub is_found :
        IsFound crates chosen.policy.issuer chosen.policy.jwks_url chosen.kid cache cache' jwk
    pub key : K
    pub is_built : build_decoding_key crates jwk ≡ some key
    pub payload : J
    pub is_signed : crates.decode token key (validation_of chosen) ≡ ok payload
    pub grants : Grants payload chosen.policy chosen.standard.sub p

  choose-IsChosen :
      (policies : List JwtIssuerConfig) (token : Text) {c : Chosen J}
      → choose crates policies token ≡ ok c
      → IsChosen policies token c
  unfolding choose
  choose-IsChosen policies token {c} h =
      ok_or-bind-elim (crates.decode_header token) _ _ h λ header d h1.
        bind-elim (asymmetric header) _ h1 λ header' a h2.
          ok_or-bind-elim header'.1 _ _ h2 λ kid k h3.
            ok_or-bind-elim (segments token) _ _ h3 λ parts _ h4.
              ok_or-bind-elim (crates.decode64 parts.1) _ _ h4 λ bytes _ h5.
                ok_or-bind-elim (crates.claims_of bytes) _ _ h5 λ standard _ h6.
                  ok_or-bind-elim
                    (find (λ (p : JwtIssuerConfig). p.issuer == standard.iss) policies) _ _ h6
                    λ policy f h7.
                      elim (Bool-cases (has_text policy.algorithms (alg_name header'.0))) [
                        | inr n ↦ err≢ok (rw n at h7)
                        | inl t ↦
                            let (same, apart) = asymmetric-ok header a in
                            let (stands, matches) =
                              find-some (λ (p : JwtIssuerConfig). p.issuer == standard.iss) policies
                                f in
                            subst (IsChosen policies token) (ok-injective (rw t at h7)) (record {
                              header = d ∙ ap some (same ∙ ap (λ k. (header'.0, k)) k);
                              not_symmetric = apart;
                              trusted = stands;
                              issuer_is = (eqb_text_iff policy.issuer standard.iss).0 matches;
                              alg_allowed = any-In policy.algorithms (alg_name header'.0) t;
                            })
                      ]

  authorize-Grants :
      (payload : J) (policy : JwtIssuerConfig) (sub : Option Text) {p : Principal}
      → authorize crates payload policy.claim policy.rules sub ≡ ok p
      → Grants payload policy sub p
  unfolding authorize principal_from_claim_mapping
  authorize-Grants payload policy sub {p} h =
      elim (Option-cases (field crates payload policy.claim)) [
        | inr (raw, f) ↦
            ok_or-bind-elim (crates.knievel_of raw) _ _ (simp (f, authorize) at h)
              λ claim k g. inl (raw, claim, f, k, g)
        | inl n ↦ elim (Bool-cases (is_empty policy.rules)) [
          | inl e ↦ err≢ok (simp (n, e, authorize) at h)
          | inr e ↦
              ok_or-bind-elim (find (rule_matches crates payload) policy.rules) _ _
                (simp (n, e, authorize, principal_from_claim_mapping) at h)
                λ rule f g. inr (rule, n, f, g)
        ]
      ]

  abbrev looked_up : Chosen J → JwksCache → JwksCache × Result JwksError JsonWebKey
  looked_up c cache = lookup_jwk crates cache c.policy.issuer c.policy.jwks_url c.kid

  -- A principal that the verifier gives is vouched for by a trusted issuer, under an algorithm that
  -- is allowed for it and never a symmetric one.
  pub verify-IsVouched :
      (policies : List JwtIssuerConfig) (cache : JwksCache) (token : Text) {cache' : JwksCache}
      {p : Principal}
      → verify crates policies cache token ≡ (cache', ok p)
      → IsVouched policies cache cache' token p
  unfolding verify check
  verify-IsVouched policies cache token {cache'} {p} h =
      elim (Result-cases (choose crates policies token)) [
        | inr (e, f) ↦ err≢ok (ap (λ r. r.1) (simp (f, verify) at h))
        | inl (c, f) ↦
            let h1 = simp (f, verify) at h in
            elim (Result-cases (looked_up c cache).1) [
              | inr (e, g) ↦ err≢ok (simp g at (ap (λ r. r.1) h1))
              | inl (jwk, g) ↦
                  let found : looked_up c cache ≡ (cache', ok jwk) =
                    λ i. (ap (λ r. r.0) h1 i, g i) in
                  let checked : check crates token c jwk ≡ ok p = simp g at (ap (λ r. r.1) h1) in
                  ok_or-bind-elim (build_decoding_key crates jwk) _ _ checked λ key b h2.
                    bind-elim (decoded (crates.decode token key (validation_of c))) _ h2
                      λ payload d h3. record {
                        chosen = c;
                        is_chosen = choose-IsChosen policies token f;
                        jwk = jwk;
                        is_found =
                            lookup_jwk-IsFound crates c.policy.issuer c.policy.jwks_url c.kid cache
                              found;
                        key = key;
                        is_built = b;
                        payload = payload;
                        is_signed = decoded-ok (crates.decode token key (validation_of c)) d;
                        grants = authorize-Grants payload c.policy c.standard.sub h3;
                      }
            ]
      ]
