-- ===== src/Examples/Forced.antt =====
-- An override that serves an ad which the draw would never pick.
use knievel.Base.{
  Text, text, pos, int_eq, text_eq, find, In, length, ℕ, ◌≤◌, ◌≡◌, refl, true, none, some, [], ◌∷◌,
  ◌++◌,
}
use knievel.Base.Assoc.{get, insert}
use knievel.Base.Result.{ok}
use knievel.Selection.{Candidate, filter_candidates, skips, ads_of, priority, weighted_random}
use knievel.Hmac.{packed, pack_record, sign}
use knievel.Decisions.{DecisionPlacement, DecisionAd, DecideOutcome, Call}
use knievel.Decisions.Parts.{
  resolve_site, placement_of, build_block, clamp_count, forced_id, forced_candidate, ad_of,
}
use knievel.Decisions.Serve.{payload_of, creative_of_ad, serve}
use knievel.Decisions.Serve.Laws.{event_of}
use knievel.Decisions.Decide.{selection_seed, top_of, drawn, picks_of, place, places, decide_pure}
use knievel.Decisions.Decide.Forced.{Honors, decide_pure-Honors}
use knievel.Examples.World.{toy_crypto, toy_crates, flight1, ad2, asked, request1, call1}

abbrev forced_asked : DecisionPlacement
forced_asked = record asked {
  force =
      some
        (record { ad_id = some (pos 8); campaign_id = none; flight_id = none; creative_id = none });
}

abbrev forced_call : Call ℕ
forced_call = record call1 {
  req = record request1 { placements = forced_asked ∷ [] };
  force_active = true;
}

abbrev forced_pick : Candidate
forced_pick = record { ad = ad2; flight = flight1 }

abbrev forced_signed : Text
forced_signed =
    let record_bytes = packed (payload_of toy_crates forced_call forced_asked forced_pick) in
    toy_crypto.b64_encode record_bytes
    ++ b'.' ∷ toy_crypto.b64_encode (toy_crypto.hmac_sha256 (1 ∷ 2 ∷ []) record_bytes)

abbrev forced_ad : DecisionAd ℕ
forced_ad = ad_of (pos 4) forced_pick forced_signed none

abbrev forced_outcome : DecideOutcome ℕ
forced_outcome = record {
  response = record { snapshot_version = pos 9; decisions = (text "top", forced_ad ∷ []) ∷ [] };
  events = event_of toy_crates forced_call forced_asked (pos 4) forced_pick ∷ [];
}

forced_returned : decide_pure toy_crates 0 forced_call ≡ ok forced_outcome
unfolding decide_pure places place picks_of drawn top_of selection_seed clamp_count resolve_site
    placement_of build_block weighted_random priority filter_candidates skips ads_of serve sign
    pack_record creative_of_ad get insert payload_of find forced_id forced_candidate
forced_returned = refl

forced_found : get (text "top") forced_outcome.response.decisions ≡ some (forced_ad ∷ [])
unfolding get
forced_found = refl

decide_pure-Honors_example :
    (length (forced_ad ∷ []) ≤ 10)
    × ((a : DecisionAd ℕ) → In a (forced_ad ∷ []) → Honors toy_crates forced_call (text "top") a)
decide_pure-Honors_example =
    decide_pure-Honors toy_crates forced_call 0 forced_outcome forced_returned refl (text "top")
      (forced_ad ∷ []) forced_found
