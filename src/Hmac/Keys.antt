-- ===== src/Hmac/Keys.antt =====
-- The 16-byte keys that are cut from an HMAC: the dedup key and the hash of a placement id.
use knievel.Base.{
  le→leb, nat_eq, int_eq, length, All, length-take, Text, text_eq, ℕ, ◌≤◌, ◌≡◌, refl, some, List,
  ◌∷◌, ◌++◌, arith,
}
use knievel.Base.Bytes.{IsByte, slice-IsByte}
use knievel.Hmac.{Crypto, IsLawful, SignaturePayload, packed, pack_record, sign, placement_id_hash}

module _ (c : Crypto) (lawful : IsLawful c) where
  pub length-placement_id_hash :
      (project_id placement_id : Text) → length (placement_id_hash c project_id placement_id) ≡ 16
  unfolding placement_id_hash
  length-placement_id_hash project_id placement_id = ground (
    arith,
    length-take 16 (c.hmac_sha256 project_id placement_id),
    lawful.length-hmac project_id placement_id,
  )

  pub placement_id_hash-IsByte :
      (project_id placement_id : Text) → All IsByte (placement_id_hash c project_id placement_id)
  unfolding placement_id_hash
  placement_id_hash-IsByte project_id placement_id =
      slice-IsByte (c.hmac_sha256 project_id placement_id) 0 16
        (lawful.hmac-IsByte project_id placement_id)

-- A payload whose project id fits the length byte is signed.
pub sign-total :
    (c : Crypto) (p : SignaturePayload)
    → length p.project_id ≤ 255
    → (secret : List ℕ) → (signed : Text) × (sign c p secret ≡ some signed)
unfolding sign pack_record
sign-total c p short secret = (
  c.b64_encode (packed p) ++ b'.' ∷ c.b64_encode (c.hmac_sha256 secret (packed p)),
  rw (le→leb (length p.project_id) 255 short) refl,
)
