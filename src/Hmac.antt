-- ===== src/Hmac.antt =====
-- src/hmac.rs: signed impression and click URLs. Base64 (URL-safe, no padding) and HMAC-SHA256 are
-- third-party crates and are parameters. A panic is `none`.
pub mod Keys
pub mod Record
pub mod Verify
use mathlib.Core.Option
use knievel.Base.{
  ltb, leb, if◌then◌else◌, ◌==◌, nat_eq, ℤ, int_eq, as_u64, as_i64, length, take, All, Text,
  text_eq, from_utf8, split_once, ℕ, ◌+◌, ◌-◌, ◌*◌, ◌≡◌, ◌≢◌, Bool, true, not, Option, none, some,
  List, [], ◌∷◌, ◌++◌, map,
}
use knievel.Base.Bytes.{IsByte, to_be_bytes, from_be_bytes, slice}
use knievel.Base.Result.{Result, ok, err, ok_or, ◌>>=◌}

-- The crates `base64` (`URL_SAFE_NO_PAD`), `hmac` and `sha2`. HMAC takes a key of any length.
pub record Crypto : Type 0 where
  pub b64_encode : List ℕ → Text
  pub b64_decode : Text → Option (List ℕ)
  pub hmac_sha256 : List ℕ → List ℕ → List ℕ
  pub sha256 : List ℕ → List ℕ

-- What is documented of them: encoding loses nothing, its alphabet has no '.', and an HMAC-SHA256
-- is 32 bytes.
pub record IsLawful (c : Crypto) : Type 0 where
  pub decode-encode : (bs : List ℕ) → All IsByte bs → c.b64_decode (c.b64_encode bs) ≡ some bs
  pub encode_no_dot : (bs : List ℕ) → All (λ x. x ≢ b'.') (c.b64_encode bs)
  pub length-hmac : (key message : List ℕ) → length (c.hmac_sha256 key message) ≡ 32
  pub hmac-IsByte : (key message : List ℕ) → All IsByte (c.hmac_sha256 key message)

abbrev pub default_ttl_secs : ℕ
default_ttl_secs = 24 * 60 * 60

pub data EventKind : Type 0 where
  impression click : EventKind

pub as_byte : EventKind → ℕ
as_byte impression = 1
as_byte click = 2

pub record SignaturePayload : Type 0 where
  pub project_id : Text
  pub ad_id : ℤ
  pub creative_id : ℤ
  pub placement_id_hash : List ℕ
  pub issued_at_secs : ℕ
  pub nonce : List ℕ

pub data VerifyError : Type 0 where
  malformed bad_signature expired : VerifyError

-- The record, past the assertion on the length of the project id.
unfoldable pub packed : SignaturePayload → List ℕ
packed p =
    length p.project_id
    ∷ (p.project_id
        ++ (to_be_bytes 8 (as_u64 p.ad_id)
            ++ (to_be_bytes 8 (as_u64 p.creative_id)
                ++ (p.placement_id_hash ++ (to_be_bytes 8 p.issued_at_secs ++ p.nonce)))))

unfoldable pub pack_record : SignaturePayload → Option (List ℕ)
unfolding packed
pack_record p = if leb (length p.project_id) 255 then some (packed p) else none

-- The fields behind the project id, which ends at `idx`.
unfoldable pub fields_at : List ℕ → ℕ → Text → SignaturePayload
fields_at buf idx project_id =
    let idx1 = idx + 8 in
    let idx2 = idx1 + 8 in
    let idx3 = idx2 + 16 in
    let idx4 = idx3 + 8 in
    record {
      project_id = project_id;
      ad_id = as_i64 (from_be_bytes (slice idx 8 buf));
      creative_id = as_i64 (from_be_bytes (slice idx1 8 buf));
      placement_id_hash = slice idx2 16 buf;
      issued_at_secs = from_be_bytes (slice idx3 8 buf);
      nonce = slice idx4 8 buf;
    }

unfoldable pub unpack_record : List ℕ → Option SignaturePayload
unfolding fields_at
unpack_record [] = none
unpack_record (pid_len ∷ rest) =
    let buf = pid_len ∷ rest in
    if ltb (length buf) (1 + pid_len + 8 + 8 + 16 + 8 + 8)
    then none
    else Option.map (fields_at buf (1 + pid_len)) (from_utf8 (slice 1 pid_len buf))

module _ (c : Crypto) where
  open c use {b64_encode, b64_decode, hmac_sha256}

  -- `<record>.<mac>`
  unfoldable pub sign : SignaturePayload → List ℕ → Option Text
  unfolding pack_record
  sign payload secret =
      Option.map (λ r. b64_encode r ++ b'.' ∷ b64_encode (hmac_sha256 secret r))
        (pack_record payload)

  -- `verify_slice` compares with the whole tag.
  unfoldable pub mac_matches : List ℕ → List ℕ → List ℕ → Bool
  mac_matches record_bytes expected secret = hmac_sha256 secret record_bytes == expected

  -- The current secret, and then the previous one where there is one.
  unfoldable pub any_secret_matches : List ℕ → List ℕ → List ℕ → Option (List ℕ) → Bool
  unfolding mac_matches
  any_secret_matches record_bytes mac current none = mac_matches record_bytes mac current
  any_secret_matches record_bytes mac current (some previous) =
      if mac_matches record_bytes mac current then true else mac_matches record_bytes mac previous

  unfoldable pub verify :
      Text → List ℕ → Option (List ℕ) → ℕ → ℕ → Result VerifyError SignaturePayload
  unfolding any_secret_matches unpack_record
  verify signed current previous now_secs ttl_secs = do
    (r_b64, m_b64) ← ok_or (split_once b'.' signed) malformed
    record_bytes ← ok_or (b64_decode r_b64) malformed
    mac_bytes ← ok_or (b64_decode m_b64) malformed
    payload ← ok_or (unpack_record record_bytes) malformed
    if not (any_secret_matches record_bytes mac_bytes current previous)
        then err bad_signature
        else if ltb ttl_secs (now_secs - payload.issued_at_secs)
        then err expired
        else ok payload

  pub dedup_key : Text → EventKind → List ℕ → List ℕ
  unfolding as_byte
  dedup_key project_id kind nonce = take 16 (hmac_sha256 project_id (as_byte kind ∷ nonce))

  pub placement_id_hash : Text → Text → List ℕ
  placement_id_hash project_id placement_id = take 16 (hmac_sha256 project_id placement_id)
