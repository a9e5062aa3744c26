-- ===== src/Hmac/Record.antt =====
-- The record of a signed URL is parsed back exactly, and is the only record that parses so.
use knievel.Base.{
  nat_eq, ℤ, int_eq, IsI64, as_u64, as_i64, as_i64-as_u64, as_u64-lt, as_u64-as_i64, as_i64-IsI64,
  length, drop, All, length-append, All-append, Text, text_eq, is_utf8, from_utf8, ℕ, ◌+◌, ◌^◌, ◌≤◌,
  ◌<◌, ◌≡◌, refl, sym, ap, ◌∙◌, subst, true, some, List, [], ◌∷◌, ◌++◌, arith,
}
use mathlib.Core.List.{append-nil, append_assoc}
use knievel.Base.Bytes.{
  IsByte, to_be_bytes, from_be_bytes, slice, length-to_be_bytes, to_be_bytes-IsByte,
  from_be_bytes-to_be_bytes, to_be_bytes-from_be_bytes, from_be_bytes-lt, slice_at, drop-slice,
  length-slice, slice-IsByte,
}
use knievel.Hmac.{SignaturePayload, packed, pack_record, fields_at, unpack_record}

-- What the Rust types of a payload say of it.
pub record IsWire (p : SignaturePayload) : Type 0 where
  pub text : is_utf8 p.project_id ≡ true
  pub ad : IsI64 p.ad_id
  pub creative : IsI64 p.creative_id
  pub hash : length p.placement_id_hash ≡ 16
  pub issued : p.issued_at_secs < 2 ^ 64
  pub nonce : length p.nonce ≡ 8
  pub text_bytes : All IsByte p.project_id
  pub hash_bytes : All IsByte p.placement_id_hash
  pub nonce_bytes : All IsByte p.nonce

abbrev pub fields : SignaturePayload → List ℕ
fields p =
    to_be_bytes 8 (as_u64 p.ad_id)
    ++ (to_be_bytes 8 (as_u64 p.creative_id)
        ++ (p.placement_id_hash ++ (to_be_bytes 8 p.issued_at_secs ++ p.nonce)))

int_word : (a : ℤ) → IsI64 a → as_i64 (from_be_bytes (to_be_bytes 8 (as_u64 a))) ≡ a
int_word a h = ap as_i64 (from_be_bytes-to_be_bytes 8 (as_u64 a) (as_u64-lt a)) ∙ as_i64-as_u64 a h

-- The fields in a buffer that holds them from `idx` on.
fields_at-packed :
    (p : SignaturePayload) (buf : List ℕ) (idx : ℕ)
    → IsWire p
    → drop idx buf ≡ fields p
    → fields_at buf idx p.project_id ≡ p
unfolding fields_at
fields_at-packed p buf idx w e =
    let (ad, e1) = slice_at buf _ _ idx 8 e (length-to_be_bytes 8 (as_u64 p.ad_id)) in
    let (creative, e2) =
      slice_at buf _ _ (idx + 8) 8 e1 (length-to_be_bytes 8 (as_u64 p.creative_id)) in
    let (hash, e3) = slice_at buf _ _ (idx + 8 + 8) 16 e2 w.hash in
    let (issued, e4) =
      slice_at buf _ _ (idx + 8 + 8 + 16) 8 e3 (length-to_be_bytes 8 p.issued_at_secs) in
    let (nonce, _) =
      slice_at buf p.nonce [] (idx + 8 + 8 + 16 + 8) 8 (e4 ∙ sym (append-nil p.nonce)) w.nonce in
    let ad' = ap (λ bs. as_i64 (from_be_bytes bs)) ad ∙ int_word p.ad_id w.ad in
    let creative' =
      ap (λ bs. as_i64 (from_be_bytes bs)) creative ∙ int_word p.creative_id w.creative in
    let issued' = ap from_be_bytes issued ∙ from_be_bytes-to_be_bytes 8 p.issued_at_secs w.issued in
    λ i. record {
      project_id = p.project_id;
      ad_id = ad' i;
      creative_id = creative' i;
      placement_id_hash = hash i;
      issued_at_secs = issued' i;
      nonce = nonce i;
    }

length-fields : (p : SignaturePayload) → IsWire p → length (fields p) ≡ 48
length-fields p w = simp (length-append, length-to_be_bytes, w.hash, w.nonce)

module _ (pid_len : ℕ) (rest : List ℕ) where
  abbrev buf : List ℕ
  buf = pid_len ∷ rest

  unpack-eq :
      (pid : Text) (p : SignaturePayload)
      → pid_len + 49 ≤ length buf
      → slice 1 pid_len buf ≡ pid
      → is_utf8 pid ≡ true
      → fields_at buf (1 + pid_len) pid ≡ p
      → unpack_record buf ≡ some p
  unfolding unpack_record from_utf8
  unpack-eq pid p h s u e = rw s (ground (arith, u, e))

  unpack→ :
      (p : SignaturePayload)
      → unpack_record buf ≡ some p
      → (pid_len + 49 ≤ length buf)
        × (is_utf8 (slice 1 pid_len buf) ≡ true)
        × (fields_at buf (1 + pid_len) (slice 1 pid_len buf) ≡ p)
  unfolding unpack_record from_utf8
  unpack→ p e = ground arith

-- A well-formed payload whose project id fits the length byte is packed, and parsed back.
pub unpack-pack :
    (p : SignaturePayload)
    → IsWire p
    → length p.project_id ≤ 255
    → (pack_record p ≡ some (packed p)) × (unpack_record (packed p) ≡ some p)
unfolding pack_record packed
unpack-pack p w h =
    let buf : List ℕ = length p.project_id ∷ (p.project_id ++ fields p) in
    let (pid, e) = slice_at buf p.project_id (fields p) 1 (length p.project_id) refl refl in
    let size : length p.project_id + 49 ≤ length buf =
      omega (arith, length-append p.project_id (fields p), length-fields p w) in
    (
      ground arith,
      unpack-eq (length p.project_id) (p.project_id ++ fields p) p.project_id p size pid w.text
          (fields_at-packed p buf (1 + length p.project_id) w e),
    )

-- The fields that a buffer holds from `idx` on, packed again.
module _ (buf : List ℕ) (h : All IsByte buf) where
  word_at :
      (i n : ℕ) → i + n ≤ length buf → to_be_bytes n (from_be_bytes (slice i n buf)) ≡ slice i n buf
  word_at i n l =
      to_be_bytes-from_be_bytes n (slice i n buf) (length-slice buf i n l) (slice-IsByte buf i n h)

  word_at-lt : (i : ℕ) → i + 8 ≤ length buf → from_be_bytes (slice i 8 buf) < 2 ^ 64
  word_at-lt i l =
      subst (λ n. from_be_bytes (slice i 8 buf) < 256 ^ n) (length-slice buf i 8 l)
        (from_be_bytes-lt (slice i 8 buf) (slice-IsByte buf i 8 h))

  int_at :
      (i : ℕ)
      → i + 8 ≤ length buf
      → to_be_bytes 8 (as_u64 (as_i64 (from_be_bytes (slice i 8 buf)))) ≡ slice i 8 buf
  int_at i l = ap (to_be_bytes 8) (as_u64-as_i64 _ (word_at-lt i l)) ∙ word_at i 8 l

  fields_at-IsWire :
      (idx : ℕ) (pid : Text)
      → idx + 48 ≤ length buf
      → is_utf8 pid ≡ true
      → All IsByte pid
      → IsWire (fields_at buf idx pid)
  unfolding fields_at
  fields_at-IsWire idx pid l u b = record {
    text = u;
    ad = as_i64-IsI64 _ (word_at-lt idx (omega arith));
    creative = as_i64-IsI64 _ (word_at-lt (idx + 8) (omega arith));
    hash = length-slice buf (idx + 8 + 8) 16 (omega arith);
    issued = word_at-lt (idx + 8 + 8 + 16) (omega arith);
    nonce = length-slice buf (idx + 8 + 8 + 16 + 8) 8 (omega arith);
    text_bytes = b;
    hash_bytes = slice-IsByte buf (idx + 8 + 8) 16 h;
    nonce_bytes = slice-IsByte buf (idx + 8 + 8 + 16 + 8) 8 h;
  }

  fields-fields_at :
      (idx : ℕ) (pid : Text)
      → idx + 48 ≤ length buf
      → drop idx buf ≡ fields (fields_at buf idx pid) ++ drop (idx + 8 + 8 + 16 + 8 + 8) buf
  unfolding fields_at
  fields-fields_at idx pid l =
      let walk =
        drop-slice buf idx 8
        ∙ ap (◌++◌ (slice idx 8 buf)) (
            drop-slice buf (idx + 8) 8
            ∙ ap (◌++◌ (slice (idx + 8) 8 buf)) (
                drop-slice buf (idx + 8 + 8) 16
                ∙ ap (◌++◌ (slice (idx + 8 + 8) 16 buf)) (
                    drop-slice buf (idx + 8 + 8 + 16) 8
                    ∙ ap (◌++◌ (slice (idx + 8 + 8 + 16) 8 buf))
                        (drop-slice buf (idx + 8 + 8 + 16 + 8) 8)))) in
      rw
        (
          int_at idx (omega arith),
          int_at (idx + 8) (omega arith),
          word_at (idx + 8 + 8 + 16) 8 (omega arith),
        )
        (simp append_assoc walk)

-- The payload is well formed, and the bytes are its record, with nothing but bytes behind it.
abbrev pub Repacks : List ℕ → SignaturePayload → Type 0
Repacks bytes p =
    IsWire p × (length p.project_id ≤ 255) × ((rest : List ℕ) × (bytes ≡ packed p ++ rest))

-- What is parsed is well formed, and the record is the packed payload with nothing but further
-- bytes behind it.
pack-unpack :
    (bytes : List ℕ) (p : SignaturePayload)
    → All IsByte bytes
    → unpack_record bytes ≡ some p
    → Repacks bytes p
unfolding packed fields_at
pack-unpack [] p h e = unfold unpack_record in cc
pack-unpack (pid_len ∷ tail) p h e =
    let buf : List ℕ = pid_len ∷ tail in
    let (l, u, q) = unpack→ pid_len tail p e in
    let pid = slice 1 pid_len buf in
    let wire =
      fields_at-IsWire buf h (1 + pid_len) pid (omega arith) u (slice-IsByte buf 1 pid_len h) in
    let len : length pid ≡ pid_len = length-slice buf 1 pid_len (omega arith) in
    let back = fields-fields_at buf h (1 + pid_len) pid (omega arith) in
    let rest = drop (1 + pid_len + 8 + 8 + 16 + 8 + 8) buf in
    let front = fields (fields_at buf (1 + pid_len) pid) in
    let split : tail ≡ (pid ++ front) ++ rest =
      drop-slice buf 1 pid_len ∙ ap (◌++◌ pid) back ∙ sym (append_assoc pid front rest) in
    let whole : buf ≡ length pid ∷ ((pid ++ front) ++ rest) = rw len (ap (◌∷◌ pid_len) split) in
    let short : length pid ≤ 255 = omega (arith, h.0, len) in
    subst (Repacks buf) q (wire, short, (rest, whole))

pub packed-IsByte :
    (p : SignaturePayload) → IsWire p → length p.project_id ≤ 255 → All IsByte (packed p)
unfolding packed
packed-IsByte p w h =
    let after_issued =
      All-append IsByte (to_be_bytes 8 p.issued_at_secs) p.nonce
        (to_be_bytes-IsByte 8 p.issued_at_secs) w.nonce_bytes in
    let after_hash = All-append IsByte p.placement_id_hash _ w.hash_bytes after_issued in
    let after_creative =
      All-append IsByte (to_be_bytes 8 (as_u64 p.creative_id)) _
        (to_be_bytes-IsByte 8 (as_u64 p.creative_id)) after_hash in
    let after_ad =
      All-append IsByte (to_be_bytes 8 (as_u64 p.ad_id)) _ (to_be_bytes-IsByte 8 (as_u64 p.ad_id))
        after_creative in
    (omega arith, All-append IsByte p.project_id _ w.text_bytes after_ad)
