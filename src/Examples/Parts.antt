-- ===== src/Examples/Parts.antt =====
-- The theorems on the selection, the signed URLs and the tenancy, at a concrete input.
use knievel.Base.{
  nat_eq, int_eq, In, All, Text, text, text_eq, is_utf8, pos, negsuc, ℕ, ◌+◌, ◌%◌, ◌≡◌, refl, ap,
  ◌≢◌, ◌↔◌, inl, none, some, List, [], ◌∷◌, ◌++◌, map, arith,
}
use knievel.Base.Bytes.{IsByte}
use knievel.Base.Result.{ok}
use knievel.Selection.{filter_candidates, skips, ads_of, priority, weight_of, weighted_random, sum}
use knievel.Selection.Filter.{IsEligible, IsServed, filter_candidates_iff}
use knievel.Selection.Weighted.{Picked, weighted_random-Picked}
use knievel.Hmac.{SignaturePayload, packed, pack_record, unpack_record, sign, verify}
use knievel.Hmac.Record.{IsWire, packed-IsByte, unpack-pack}
use knievel.Hmac.Verify.{IsAccepted, verify_iff}
use knievel.Auth.{Role}
use knievel.Auth.Opaque.{ParsedOpaque, parse, render, IsIssued, parse_iff}
use knievel.Auth.Tenancy.{open_project_tx, visible}
use knievel.Auth.Tenancy.Laws.{
  IsUp, IsAllowed, HasKeys, bound_to, open_project_tx_iff, open_project_tx-Isolates,
}
use knievel.Examples.World.{
  toy_crypto, toy_rng, flight1, ad1, ad2, placement1, no_block, candidate1, reader1, database1,
}

filter_candidates_iff_example :
    In candidate1 (filter_candidates (flight1 ∷ []) (ad1 ∷ ad2 ∷ []) placement1 no_block (pos 5000))
    ↔ (In flight1 (flight1 ∷ [])
        × IsEligible flight1 placement1 no_block (pos 5000)
        × IsServed (ad1 ∷ ad2 ∷ []) candidate1)
filter_candidates_iff_example =
    filter_candidates_iff (ad1 ∷ ad2 ∷ []) placement1 no_block (pos 5000) (flight1 ∷ []) candidate1

weighted_random-Picked_example :
    Picked
      (candidate1 ∷ [])
      (map weight_of (candidate1 ∷ []))
      2
      (weighted_random toy_rng (candidate1 ∷ []) 2 5)
weighted_random-Picked_example = weighted_random-Picked toy_rng (candidate1 ∷ []) 2 5 (omega arith)

picks_candidate1 : In candidate1 (
    weighted_random toy_rng
      (priority (filter_candidates (flight1 ∷ []) (ad1 ∷ ad2 ∷ []) placement1 no_block (pos 5000)))
      2
      5)
unfolding weighted_random priority filter_candidates skips ads_of
picks_candidate1 = inl refl

abbrev payload1 : SignaturePayload
payload1 = record {
  project_id = text "pj";
  ad_id = pos 7;
  creative_id = negsuc 2;
  placement_id_hash = 1 ∷ 2 ∷ 3 ∷ 4 ∷ 5 ∷ 6 ∷ 7 ∷ 8 ∷ 9 ∷ 10 ∷ 11 ∷ 12 ∷ 13 ∷ 14 ∷ 15 ∷ 16 ∷ [];
  issued_at_secs = 1000;
  nonce = 1 ∷ 2 ∷ 3 ∷ 4 ∷ 5 ∷ 6 ∷ 7 ∷ 8 ∷ [];
}

payload1-IsWire : IsWire payload1
unfolding is_utf8
payload1-IsWire = record {
  text = refl;
  ad = omega arith;
  creative = omega arith;
  hash = refl;
  issued = omega arith;
  nonce = refl;
  text_bytes = ground arith;
  hash_bytes = ground arith;
  nonce_bytes = ground arith;
}

packed1-bytes : All IsByte (packed payload1)
packed1-bytes = packed-IsByte payload1 payload1-IsWire (omega arith)

unpacks1 : unpack_record (packed payload1) ≡ some payload1
unpacks1 = (unpack-pack payload1 payload1-IsWire (omega arith)).1

abbrev secret1 : List ℕ
secret1 = 1 ∷ 2 ∷ []

abbrev signed1 : Text
signed1 =
    toy_crypto.b64_encode (packed payload1)
    ++ b'.' ∷ toy_crypto.b64_encode (toy_crypto.hmac_sha256 secret1 (packed payload1))

signs1 : sign toy_crypto payload1 secret1 ≡ some signed1
unfolding sign pack_record
signs1 = refl

verify_iff_example :
    (verify toy_crypto signed1 secret1 none 1500 86400 ≡ ok payload1)
    ↔ IsAccepted toy_crypto signed1 secret1 none 1500 86400 payload1
verify_iff_example = verify_iff toy_crypto signed1 secret1 none 1500 86400 payload1

head_or : List ℕ → ℕ
head_or [] = 0
head_or (x ∷ xs) = x

tags_differ : (m : List ℕ) → toy_crypto.hmac_sha256 (9 ∷ []) m ≢ toy_crypto.hmac_sha256 secret1 m
unfolding head_or
tags_differ m e = let q : (9 + sum m) % 256 ≡ (3 + sum m) % 256 = ap head_or e in omega arith

-- The secret has underscores.
abbrev parsed1 : ParsedOpaque
parsed1 = record {
  env = text "dev";
  scope = text "project";
  id_short = text "aB12";
  secret = text "seg_with_underscores";
}

parse_iff_example :
    (parse (text "kvl_dev_project_aB12_seg_with_underscores") ≡ ok parsed1)
    ↔ ((text "kvl_dev_project_aB12_seg_with_underscores" ≡ render parsed1) × IsIssued parsed1)
parse_iff_example = parse_iff (text "kvl_dev_project_aB12_seg_with_underscores") parsed1

pub database1-IsUp : IsUp database1
database1-IsUp = record { begins = refl; binds_org = refl; selects = refl; binds_project = refl }

open_project_tx_iff_example :
    (open_project_tx database1 reader1 (text "pj") Role.reader ≡ ok (bound_to reader1 (text "pj")))
    ↔ IsAllowed database1 reader1 (text "pj") Role.reader
open_project_tx_iff_example =
    open_project_tx_iff database1 reader1 (text "pj") Role.reader database1-IsUp

database1-HasKeys : HasKeys database1
database1-HasKeys r s i j e = ground (arith, i, j, e)

opens1 :
    open_project_tx database1 reader1 (text "pj") Role.reader ≡ ok (bound_to reader1 (text "pj"))
opens1 = (open_project_tx_iff database1 reader1 (text "pj") Role.reader database1-IsUp).1 (record {
  role = omega arith;
  scope = λ e. cc;
  owned = (record { id = text "pj"; org_id = text "org" }, inl refl, refl, refl);
})

open_project_tx-Isolates_example : text "org" ≡ reader1.org_id
unfolding visible
open_project_tx-Isolates_example =
    open_project_tx-Isolates database1 reader1 (text "pj") Role.reader
      (bound_to reader1 (text "pj")) (record { id = text "pj"; org_id = text "org" })
      database1-HasKeys opens1 (inl refl) refl
