-- ===== src/Examples/Flow.antt =====
-- The theorems on decisions, hits, the flusher and the snapshot, at a concrete input.
use knievel.Base.{
  nat_eq, int_eq, length, In, any, find, Text, text, text_eq, is_utf8, pos, ℕ, ◌≤◌, ◌≡◌, refl, ◌↔◌,
  inl, true, Option, none, some, List, [], ◌∷◌, ◌++◌, arith,
}
use knievel.Base.Assoc.{get, insert}
use knievel.Base.Result.{ok}
use knievel.Auth.{has_role_at_least}
use knievel.Auth.Tenancy.{
  open_project_tx, begin_bound, bind_project, select_project, addresses, visible,
}
use knievel.Selection.{filter_candidates, skips, ads_of, priority, weighted_random}
use knievel.Hmac.{packed, pack_record, sign}
use knievel.Snapshot.{SnapshotStore}
use knievel.Snapshot.Load.{LoaderRows}
use knievel.Events.{Event, try_send, sent, spawn, turn}
use knievel.Events.Flush.{IsBounded, turn-IsBounded, eventual, effect, turn-eventual}
use knievel.Decisions
use knievel.Decisions.{DecisionAd, DecideOutcome, html}
use knievel.Decisions.Parts.{ad_of, resolve_site, placement_of, build_block, clamp_count}
use knievel.Decisions.Serve.{payload_of, creative_of_ad, build_decision_creative, serve}
use knievel.Decisions.Serve.Laws.{event_of}
use knievel.Decisions.Decide.{selection_seed, top_of, drawn, picks_of, place, places, decide_pure}
use knievel.Decisions.Decide.Laws.{IsBacked}
use knievel.Decisions.Decide.Validation.{refusal, Decides, decide_pure-refusal}
use knievel.Decisions.Decide.Response.{
  IsChosen, IsVerifiable, IsNameable, decide_pure-IsBacked, decide_pure-Passes,
  decide_pure-IsVerifiable,
}
use knievel.Decisions.Handler.{
  responded, AppState, drain_to_sender, requests_force, deliver, decide_and_deliver, decide_with,
  decisions,
}
use knievel.Decisions.Handler.Laws.{IsAdmitted, decisions-IsAdmitted}
use knievel.Endpoints.{verify_against_snapshot}
use knievel.Endpoints.Laws.{IsVouched, verify_against_snapshot_iff}
use knievel.Examples.World.{
  toy_crypto, toy_crypto-IsLawful, toy_crates, flight1, ad1, candidate1, snapshot1, asked, request1,
  reader1, call1, channel1, state1,
}

abbrev signed_ad : Text
signed_ad =
    let record_bytes = packed (payload_of toy_crates call1 asked candidate1) in
    toy_crypto.b64_encode record_bytes
    ++ b'.' ∷ toy_crypto.b64_encode (toy_crypto.hmac_sha256 (1 ∷ 2 ∷ []) record_bytes)

abbrev served_ad : DecisionAd ℕ
served_ad = ad_of (pos 4) candidate1 signed_ad (
    some (
      html (record {
        body = some (text "<b>hi</b>");
        click_through_url = some (text "https://shop");
      })))

abbrev outcome1 : DecideOutcome ℕ
outcome1 = record {
  response = record { snapshot_version = pos 9; decisions = (text "top", served_ad ∷ []) ∷ [] };
  events = event_of toy_crates call1 asked (pos 4) candidate1 ∷ [];
}

returned1 : decide_pure toy_crates 0 call1 ≡ ok outcome1
unfolding decide_pure places place picks_of drawn top_of selection_seed clamp_count resolve_site
    placement_of build_block weighted_random priority filter_candidates skips ads_of serve sign
    pack_record creative_of_ad build_decision_creative get insert payload_of find
returned1 = refl

found1 : get (text "top") outcome1.response.decisions ≡ some (served_ad ∷ [])
unfolding get
found1 = refl

decide_pure-IsBacked_example :
    (length (served_ad ∷ []) ≤ 10)
    × ((a : DecisionAd ℕ)
        → In a (served_ad ∷ [])
        → IsBacked toy_crates call1 outcome1.events (text "top") a)
decide_pure-IsBacked_example =
    decide_pure-IsBacked toy_crates call1 0 outcome1 returned1 (text "top") (served_ad ∷ []) found1

decide_pure-Passes_example : IsChosen toy_crates call1 (text "top") served_ad
decide_pure-Passes_example =
    decide_pure-Passes toy_crates call1 0 outcome1 returned1 refl (text "top") (served_ad ∷ [])
      found1 served_ad (inl refl)

served_ad-IsNameable : IsNameable toy_crates call1 served_ad
unfolding is_utf8 ad_of
served_ad-IsNameable = record {
  text = refl;
  bytes = ground arith;
  short = omega arith;
  ad = omega arith;
  creative = omega arith;
}

decide_pure-IsVerifiable_example : IsVerifiable toy_crates call1 served_ad
decide_pure-IsVerifiable_example =
    decide_pure-IsVerifiable toy_crates call1 0 outcome1 returned1 toy_crypto-IsLawful (text "top")
      (served_ad ∷ []) found1 served_ad (inl refl) served_ad-IsNameable

decide_pure-refusal_example :
    Decides toy_crates call1 (refusal toy_crates call1) (decide_pure toy_crates 0 call1)
decide_pure-refusal_example = decide_pure-refusal toy_crates call1 0 (omega arith)

abbrev no_hash : Decisions.DecisionsRequest → Option (List ℕ)
no_hash req = none

abbrev state2 : AppState ℕ
state2 = record state1 { events = some (record channel1 { queue = outcome1.events }) }

delivered1 : decide_and_deliver toy_crates 0 state1 call1 ≡ (state2, responded outcome1.response)
unfolding decide_and_deliver deliver drain_to_sender try_send
delivered1 = rw (returned1, decide_and_deliver) refl

responds1 :
    decisions toy_crates no_hash 0 state1 reader1 (text "pj") request1 (pos 5000)
    ≡ (state2, responded outcome1.response)
unfolding decisions decide_with requests_force any get open_project_tx begin_bound bind_project
    select_project addresses has_role_at_least visible
responds1 = delivered1

decisions-IsAdmitted_example :
    IsAdmitted toy_crates no_hash state1 state2 reader1 (text "pj") request1
decisions-IsAdmitted_example =
    decisions-IsAdmitted toy_crates no_hash 0 state1 state2 reader1 (text "pj") request1 (pos 5000)
      outcome1.response responds1

verify_against_snapshot_iff_example :
    (verify_against_snapshot toy_crypto snapshot1 signed_ad 100
      ≡ ok (payload_of toy_crates call1 asked candidate1, (text "pj", text "org")))
    ↔ IsVouched toy_crypto snapshot1 signed_ad 100
        (payload_of toy_crates call1 asked candidate1)
        (text "pj")
        (text "org")
verify_against_snapshot_iff_example =
    verify_against_snapshot_iff toy_crypto snapshot1 signed_ad 100
      (payload_of toy_crates call1 asked candidate1) (text "pj") (text "org")

abbrev event1 : Event
event1 = event_of toy_crates call1 asked (pos 4) candidate1

turn-eventual_example :
    eventual (turn (sent event1) (spawn 3 [])) ≡ effect (sent event1) (spawn 3 [])
turn-eventual_example = turn-eventual (sent event1) (spawn 3 []) tt

spawn-IsBounded : IsBounded (spawn 3 [])
unfolding spawn
spawn-IsBounded = record { batch = omega arith; queue = omega arith }

turn-IsBounded_example : IsBounded (turn (sent event1) (spawn 3 []))
turn-IsBounded_example = turn-IsBounded (sent event1) (spawn 3 []) spawn-IsBounded

abbrev rows1 : LoaderRows ℕ
rows1 = record {
  config_version = pos 9;
  projects =
      record {
        id = text "pj";
        org_id = text "org";
        hmac_secret = 1 ∷ 2 ∷ [];
        allow_force_decision = true;
      }
      ∷ [];
  flights = (text "pj", flight1) ∷ (text "px", flight1) ∷ [];
  ads = (text "pj", ad1) ∷ [];
  sites = [];
  zones = [];
  clicks = (text "pj", (pos 7, text "https://shop")) ∷ [];
  creatives = [];
}

abbrev store1 : SnapshotStore ℕ
store1 = record { inner = snapshot1; bumped = 1 }
