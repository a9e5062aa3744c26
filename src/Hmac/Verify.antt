-- ===== src/Hmac/Verify.antt =====
-- Verification of a signed URL: what is accepted, and what becomes of a URL that was signed.
use knievel.Base.{
  ltb, if◌then◌else◌, Bool-cases, nat_eq, int_eq, length, Text, eqb_text_iff, text_eq, split_once,
  split_once-append, ℕ, ◌+◌, ◌-◌, ◌≤◌, ◌<◌, ◌≡◌, refl, sym, ap, ◌∙◌, ◌↔◌, ◌⊎◌, inl, inr, true, not,
  Option, none, some, List, ◌∷◌, ◌++◌, arith,
}
use knievel.Base.Result.{Result, ok, err, ok_or-bind-elim}
use knievel.Hmac.{
  Crypto, IsLawful, SignaturePayload, VerifyError, malformed, bad_signature, expired, packed,
  unpack_record, sign, mac_matches, any_secret_matches, verify,
}
use knievel.Hmac.Record.{IsWire, unpack-pack, packed-IsByte}

-- The tag is the HMAC of the record under the current secret, or under the previous one.
abbrev pub IsTag : Crypto → List ℕ → List ℕ → List ℕ → Option (List ℕ) → Type 0
IsTag c bytes tag current previous =
    (c.hmac_sha256 current bytes ≡ tag)
    ⊎ ((secret : List ℕ) × (previous ≡ some secret) × (c.hmac_sha256 secret bytes ≡ tag))

module _ (c : Crypto) where
  mac_matches_iff :
      (bytes tag secret : List ℕ)
      → (mac_matches c bytes tag secret ≡ true) ↔ (c.hmac_sha256 secret bytes ≡ tag)
  unfolding mac_matches
  mac_matches_iff bytes tag secret = eqb_text_iff (c.hmac_sha256 secret bytes) tag

  any_secret_matches→ :
      (bytes tag current : List ℕ) (previous : Option (List ℕ))
      → any_secret_matches c bytes tag current previous ≡ true
      → IsTag c bytes tag current previous
  unfolding any_secret_matches
  any_secret_matches→ bytes tag current none h = inl ((mac_matches_iff bytes tag current).0 h)
  any_secret_matches→ bytes tag current (some old) h =
      elim (Bool-cases (mac_matches c bytes tag current)) [
        | inl m ↦ inl ((mac_matches_iff bytes tag current).0 m)
        | inr n ↦ inr (old, refl, (mac_matches_iff bytes tag old).0 (rw n at h))
      ]

  →any_secret_matches :
      (bytes tag current : List ℕ) (previous : Option (List ℕ))
      → IsTag c bytes tag current previous
      → any_secret_matches c bytes tag current previous ≡ true
  unfolding any_secret_matches
  →any_secret_matches bytes tag current none (inl e) = (mac_matches_iff bytes tag current).1 e
  →any_secret_matches bytes tag current (some old) (inl e) =
      rw ((mac_matches_iff bytes tag current).1 e)
  →any_secret_matches bytes tag current none (inr (secret, p, e)) = cc
  →any_secret_matches bytes tag current (some old) (inr (secret, p, e)) =
      let q : old ≡ secret = cc in
      ground (arith, (mac_matches_iff bytes tag old).1 (ap (λ s. c.hmac_sha256 s bytes) q ∙ e))

  -- What a verdict of `ok` rests on.
  pub record IsAccepted (signed : Text) (current : List ℕ) (previous : Option (List ℕ))
      (now_secs ttl_secs : ℕ) (p : SignaturePayload) : Type 0 where
    pub record_b64 : Text
    pub mac_b64 : Text
    pub bytes : List ℕ
    pub tag : List ℕ
    pub parts : split_once b'.' signed ≡ some (record_b64, mac_b64)
    pub decoded : c.b64_decode record_b64 ≡ some bytes
    pub decoded_tag : c.b64_decode mac_b64 ≡ some tag
    pub parsed : unpack_record bytes ≡ some p
    pub authentic : IsTag c bytes tag current previous
    pub fresh : now_secs ≤ p.issued_at_secs + ttl_secs

  -- The two tests behind the parsing.
  verdict :
      List ℕ
      → List ℕ
      → List ℕ
      → Option (List ℕ)
      → ℕ
      → ℕ
      → SignaturePayload
      → Result VerifyError SignaturePayload
  verdict bytes tag current previous now_secs ttl_secs p =
      if not (any_secret_matches c bytes tag current previous)
      then err bad_signature
      else if ltb ttl_secs (now_secs - p.issued_at_secs)
      then err expired
      else ok p

  verdict-ok :
      (bytes tag current : List ℕ) (previous : Option (List ℕ)) (now_secs ttl_secs : ℕ)
      (q p : SignaturePayload)
      → verdict bytes tag current previous now_secs ttl_secs q ≡ ok p
      → (q ≡ p)
        × (any_secret_matches c bytes tag current previous ≡ true)
        × (now_secs ≤ p.issued_at_secs + ttl_secs)
  unfolding verdict
  verdict-ok bytes tag current previous now_secs ttl_secs q p h = ground arith

  module _ (signed : Text) (current : List ℕ) (previous : Option (List ℕ)) (now_secs ttl_secs : ℕ)
      (p : SignaturePayload) where
    verify-parsed :
        (r m : Text) (bytes tag : List ℕ)
        → split_once b'.' signed ≡ some (r, m)
        → c.b64_decode r ≡ some bytes
        → c.b64_decode m ≡ some tag
        → unpack_record bytes ≡ some p
        → verify c signed current previous now_secs ttl_secs
          ≡ verdict bytes tag current previous now_secs ttl_secs p
    unfolding verify verdict
    verify-parsed r m bytes tag e1 e2 e3 e4 = rw (e1, e2, e3, e4)

    accepted→ :
        verify c signed current previous now_secs ttl_secs ≡ ok p
        → IsAccepted signed current previous now_secs ttl_secs p
    unfolding verify verdict
    accepted→ h = ok_or-bind-elim (split_once b'.' signed) malformed _ h λ (r, m) parts h1.
        ok_or-bind-elim (c.b64_decode r) malformed _ h1 λ bytes decoded h2.
          ok_or-bind-elim (c.b64_decode m) malformed _ h2 λ tag decoded_tag h3.
            ok_or-bind-elim (unpack_record bytes) malformed _ h3 λ q parsed h4.
              let (same, matches, fresh) =
                verdict-ok bytes tag current previous now_secs ttl_secs q p h4 in
              record {
                record_b64 = r;
                mac_b64 = m;
                bytes = bytes;
                tag = tag;
                parts = parts;
                decoded = decoded;
                decoded_tag = decoded_tag;
                parsed = parsed ∙ ap some same;
                authentic = any_secret_matches→ bytes tag current previous matches;
                fresh = fresh;
              }

    →accepted :
        IsAccepted signed current previous now_secs ttl_secs p
        → verify c signed current previous now_secs ttl_secs ≡ ok p
    unfolding verdict
    →accepted a =
        verify-parsed a.record_b64 a.mac_b64 a.bytes a.tag a.parts a.decoded a.decoded_tag a.parsed
        ∙ rw (→any_secret_matches a.bytes a.tag current previous a.authentic)
            (let f : now_secs ≤ p.issued_at_secs + ttl_secs = a.fresh in ground arith)

  -- A URL is accepted exactly when both its parts decode, the record parses to the payload, the tag
  -- is the record's HMAC under the current or the previous secret, and it is not past its time.
  pub verify_iff :
      (signed : Text) (current : List ℕ) (previous : Option (List ℕ)) (now_secs ttl_secs : ℕ)
      (p : SignaturePayload)
      → (verify c signed current previous now_secs ttl_secs ≡ ok p)
        ↔ IsAccepted signed current previous now_secs ttl_secs p
  verify_iff signed current previous now_secs ttl_secs p = (
    accepted→ signed current previous now_secs ttl_secs p,
    →accepted signed current previous now_secs ttl_secs p,
  )

-- What becomes of a URL that `sign` made of a well-formed payload.
module _ (c : Crypto) (lawful : IsLawful c) (p : SignaturePayload) (wire : IsWire p)
    (short : length p.project_id ≤ 255) (secret : List ℕ) (signed : Text)
    (made : sign c p secret ≡ some signed) (current : List ℕ) (previous : Option (List ℕ))
    (now_secs ttl_secs : ℕ) where
  sign-parts :
      signed ≡ c.b64_encode (packed p) ++ b'.' ∷ c.b64_encode (c.hmac_sha256 secret (packed p))
  unfolding sign
  sign-parts = let packs = (unpack-pack p wire short).0 in cc (packs, made)

  known-IsTag :
      ((secret ≡ current) ⊎ (previous ≡ some secret))
      → any_secret_matches c (packed p) (c.hmac_sha256 secret (packed p)) current previous ≡ true
  known-IsTag known =
      →any_secret_matches c (packed p) (c.hmac_sha256 secret (packed p)) current previous
        (elim known [
          | inl e ↦ inl (ap (λ s. c.hmac_sha256 s (packed p)) (sym e))
          | inr e ↦ inr (secret, e, refl)
        ])

  verify-verdict :
      verify c signed current previous now_secs ttl_secs
      ≡ verdict c (packed p) (c.hmac_sha256 secret (packed p)) current previous now_secs ttl_secs p
  verify-verdict =
      verify-parsed c signed current previous now_secs ttl_secs p _ _ _ _
        (rw sign-parts (split_once-append b'.' _ _ (lawful.encode_no_dot (packed p))))
        (lawful.decode-encode (packed p) (packed-IsByte p wire short))
        (lawful.decode-encode _ (lawful.hmac-IsByte secret (packed p))) (unpack-pack p wire short).1

  -- It is accepted with its payload, under the secret that signed it or (in the overlap of a
  -- rotation) where that is the previous secret, until its time to live is over.
  pub verify-sign :
      ((secret ≡ current) ⊎ (previous ≡ some secret))
      → now_secs ≤ p.issued_at_secs + ttl_secs
      → verify c signed current previous now_secs ttl_secs ≡ ok p
  unfolding verdict
  verify-sign known fresh = verify-verdict ∙ rw (known-IsTag known) (ground arith)

  -- After that the verdict is `expired`.
  verify-sign_expired :
      ((secret ≡ current) ⊎ (previous ≡ some secret))
      → p.issued_at_secs + ttl_secs < now_secs
      → verify c signed current previous now_secs ttl_secs ≡ err expired
  unfolding verdict
  verify-sign_expired known stale = verify-verdict ∙ rw (known-IsTag known) (ground arith)

  -- Where its tag is the HMAC of its record neither under the current nor under the previous
  -- secret, the verdict is `bad_signature`, whatever the time.
  verify-sign_rejected :
      ¬ IsTag c (packed p) (c.hmac_sha256 secret (packed p)) current previous
      → verify c signed current previous now_secs ttl_secs ≡ err bad_signature
  unfolding verdict
  verify-sign_rejected unknown =
      verify-verdict
      ∙ elim (Bool-cases
          (any_secret_matches c (packed p) (c.hmac_sha256 secret (packed p)) current previous)) [
            | inl m ↦ absurd (unknown (any_secret_matches→ c _ _ current previous m))
            | inr n ↦ rw n
          ]
