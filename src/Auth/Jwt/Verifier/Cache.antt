-- ===== src/Auth/Jwt/Verifier/Cache.antt =====
-- src/auth/jwt.rs: what the cache of key sets is good for.
use knievel.Base.{
  Option-cases, nat_eq, ==_refl, int_eq, find, Text, eqb_text_iff, text_eq, ◌+◌, ◌≤◌, ◌≡◌, sym, ap,
  ◌∙◌, ◌≢◌, ◌⊎◌, inl, inr, none, some, List, arith,
}
use knievel.Base.Assoc.{get, get-insert}
use knievel.Base.Result.{ok, Result-cases, err≢ok, ok-injective, none≢some}
use knievel.Auth.Jwt.{JsonWebKey, Crates}
use knievel.Auth.Jwt.Verifier.{
  CachedJwks, JwksCache, ttl, get_keys, insert_keys, fetch_jwks, has_kid, cached_key, lookup_jwk,
}

module _ {J K : Type 0} (crates : Crates J K) (issuer configured kid : Text) where
  -- A key set in which the key is the first of its id: the cache's, which stays as it is, or the
  -- issuer's, which goes into the cache.
  abbrev pub IsFound : JwksCache → JwksCache → JsonWebKey → Type 0
  IsFound cache cache' k =
      (keys : List JsonWebKey) × (find (has_kid kid) keys ≡ some k)
      × (((get_keys crates.now_at_get cache issuer ≡ some keys) × (cache' ≡ cache))
          ⊎ ((cached_key crates cache issuer kid ≡ none)
              × (fetch_jwks crates issuer configured ≡ ok keys)
              × (cache' ≡ insert_keys crates.now_at_insert issuer keys cache)))

  cached_key-some :
      (cache : JwksCache) {k : JsonWebKey}
      → cached_key crates cache issuer kid ≡ some k
      → (keys : List JsonWebKey) × (get_keys crates.now_at_get cache issuer ≡ some keys)
        × (find (has_kid kid) keys ≡ some k)
  unfolding cached_key
  cached_key-some cache {k} h = elim (Option-cases (get_keys crates.now_at_get cache issuer)) [
    | inl n ↦ none≢some (simp (n, cached_key) at h)
    | inr (keys, s) ↦ (keys, s, simp (s, cached_key) at h)
  ]

  pub lookup_jwk-IsFound :
      (cache : JwksCache) {cache' : JwksCache} {k : JsonWebKey}
      → lookup_jwk crates cache issuer configured kid ≡ (cache', ok k)
      → IsFound cache cache' k
  unfolding lookup_jwk
  lookup_jwk-IsFound cache {cache'} {k} h =
      elim (Option-cases (cached_key crates cache issuer kid)) [
        | inr (j, c) ↦
            let e = simp (c, lookup_jwk) at h in
            let (keys, s, f) = cached_key-some cache c in
            (keys, f ∙ ap some (ok-injective (ap (λ p. p.1) e)), inl (s, sym (ap (λ p. p.0) e)))
        | inl c ↦ elim (Result-cases (fetch_jwks crates issuer configured)) [
          | inr (e, f) ↦ err≢ok (ap (λ p. p.1) (simp (c, f, lookup_jwk) at h))
          | inl (keys, f) ↦ elim (Option-cases (find (has_kid kid) keys)) [
            | inl n ↦ err≢ok (ap (λ p. p.1) (simp (c, f, n, lookup_jwk) at h))
            | inr (j, s) ↦
                let e = simp (c, f, s, lookup_jwk) at h in
                (
                  keys,
                  s ∙ ap some (ok-injective (ap (λ p. p.1) e)),
                  inr (c, f, sym (ap (λ p. p.0) e)),
                )
          ]
        ]
      ]

-- A key that had to be fetched is given again for an hour, whatever the issuer's server answers then,
-- and the entries of all other issuers stay.
lookup_jwk-again :
    {J K : Type 0} (crates later : Crates J K) (issuer configured kid : Text) (cache : JwksCache)
    {cache' : JwksCache} {k : JsonWebKey}
    → lookup_jwk crates cache issuer configured kid ≡ (cache', ok k)
    → cached_key crates cache issuer kid ≡ none
    → later.now_at_get ≤ crates.now_at_insert + ttl
    → (lookup_jwk later cache' issuer configured kid ≡ (cache', ok k))
      × ((other : Text) → other ≢ issuer → get other cache' ≡ get other cache)
unfolding lookup_jwk get_keys insert_keys cached_key
lookup_jwk-again crates later issuer configured kid cache {cache'} {k} h miss soon =
    let (keys, f, how) = lookup_jwk-IsFound crates issuer configured kid cache h in
    elim how [
      | inl (s, e) ↦ none≢some (sym (simp (s, f, cached_key) at miss))
      | inr (c, fetch, e) ↦
          let entry : CachedJwks = record { fetched_at_secs = crates.now_at_insert; keys = keys } in
          let stored : get issuer cache' ≡ some entry =
            ap (get issuer) e
            ∙ get-insert issuer issuer entry cache
            ∙ ground (arith, ==_refl issuer) in
          (
            ground (arith, stored, f),
            (λ other apart.
                ap (get other) e
                ∙ get-insert issuer other entry cache
                ∙ ground (arith, eqb_text_iff issuer other)),
          )
    ]
