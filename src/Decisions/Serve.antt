-- ===== src/Decisions/Serve.antt =====
-- src/decisions.rs and src/rendering.rs: the ads and the events of the picks of one placement.
pub mod Laws
use mathlib.Core.Option
use knievel.Base.{
  ltb, if◌then◌else◌, ◌==◌, nat_eq, ℤ, int_eq, length, get_elem?, Text, text, text_eq, pos, ℕ,
  Option, none, some, List, [], ◌∷◌, ◌++◌, map,
}
use knievel.Base.Assoc.{get}
use knievel.Base.Result.{Result, ok, ok_or, ◌>>=◌}
use knievel.Auth.{Principal}
use knievel.Selection.{Candidate}
use knievel.Hmac.{SignaturePayload, sign, placement_id_hash}
use knievel.Snapshot.{SnapshotCreative}
use knievel.Events.{Event, EventKind}
use knievel.Decisions.{
  DecisionContext, DecisionPlacement, DecisionCreative, image, html, native, templated, DecisionAd,
  Halt, panicked, RenderCtx, max_output_bytes, Crates, Call,
}
use knievel.Decisions.Parts.{now_secs, ad_of, referrer_host, mint_nonce}

-- `referrer_host` of the context, and the SHA-256 of its user agent.
context_referrer : Option DecisionContext → Option Text
unfolding referrer_host
context_referrer none = none
context_referrer (some c) = elim c.referrer [ none ↦ none | some r ↦ referrer_host r ]

module _ {J : Type 0} (crates : Crates J) where
  open crates use {crypto, to_object, parse, render}

  unfoldable pub ua_hash : Text → List ℕ
  ua_hash ua = crypto.sha256 ua

  context_ua : Option DecisionContext → Option (List ℕ)
  unfolding ua_hash
  context_ua none = none
  context_ua (some c) = Option.map ua_hash c.user_agent

  -- `none` is an error: of the values, of the source, of the rendering, or an output over the cap.
  unfoldable pub render_templated : Text → J → RenderCtx → Option Text
  render_templated source values ctx = elim (to_object values ctx) [
    | none ↦ none
    | some globals ↦ elim (parse source) [
      | none ↦ none
      | some template ↦ elim (render template globals) [
        | none ↦ none
        | some out ↦ if ltb max_output_bytes (length out) then none else some out
      ]
    ]
  ]

  build_templated : SnapshotCreative J → RenderCtx → Option (DecisionCreative J)
  unfolding render_templated
  build_templated c ctx = elim c.template_source [
    | none ↦ none
    | some source ↦
        Option.map
          (λ body. templated (record {
            template = c.template_name;
            values = c.values;
            body = body;
            click_through_url = c.click_through_url;
          }))
          (render_templated source c.values ctx)
  ]

  unfoldable pub build_decision_creative :
      SnapshotCreative J → RenderCtx → Option (DecisionCreative J)
  unfolding build_templated
  build_decision_creative c ctx =
      if c.kind == text "image"
      then some (
          image (record {
            image_url = c.image_url;
            width = c.width;
            height = c.height;
            alt = c.alt;
            click_through_url = c.click_through_url;
          }))
      else if c.kind == text "html"
      then some (html (record { body = c.body; click_through_url = c.click_through_url }))
      else if c.kind == text "native"
      then some (
          native (record {
            template = c.template_name;
            values = c.values;
            click_through_url = c.click_through_url;
          }))
      else if c.kind == text "templated"
      then build_templated c ctx
      else none

  unfoldable pub decision_event :
      Principal
      → Text
      → DecisionPlacement
      → ℤ
      → Candidate
      → List ℕ
      → ℤ
      → ℤ
      → Option DecisionContext
      → Event
  unfolding context_referrer context_ua
  decision_event principal project_id placement site_id cand nonce snapshot_version now_ms context =
      record {
        ts_ms = now_ms;
        org_id = principal.org_id;
        project_id = project_id;
        kind = EventKind.decision;
        placement_id = some placement.id;
        site_id = some site_id;
        zone_id = elim placement.zone_ids [ none ↦ none | some z ↦ get_elem? z 0 ];
        ad_id = some cand.ad.id;
        creative_id = cand.ad.creative_id;
        flight_id = some cand.flight.id;
        campaign_id = some cand.flight.campaign_id;
        advertiser_id = some cand.flight.advertiser_id;
        url = elim context [ none ↦ none | some c ↦ c.url ];
        referrer_host = context_referrer context;
        user_agent_hash = context_ua context;
        signature_nonce = some nonce;
        dedup_key = none;
        snapshot_version = some snapshot_version;
      }

  unfoldable pub payload_of : Call J → DecisionPlacement → Candidate → SignaturePayload
  unfolding mint_nonce now_secs
  payload_of call placement c = record {
    project_id = call.project_id;
    ad_id = c.ad.id;
    creative_id = Option.get_or c.ad.creative_id (pos 0);
    placement_id_hash = placement_id_hash crypto call.project_id placement.id;
    issued_at_secs = now_secs call.now_ms;
    nonce = mint_nonce call.now_ms c.ad.id;
  }

  -- The creative of an ad: the outer `none` is a render failure, which skips the ad.
  unfoldable pub creative_of_ad :
      Call J → DecisionPlacement → Candidate → Text → Option (Option (DecisionCreative J))
  unfolding build_decision_creative
  creative_of_ad call placement c signed = elim c.ad.creative_id [
    | none ↦ some none
    | some cid ↦ elim (get cid call.project.creatives) [
      | none ↦ some none
      | some sc ↦ Option.map some (
          build_decision_creative sc (record {
            ad_id = c.ad.id;
            click_url = text "/e/c/" ++ signed;
            impression_url = text "/e/i/" ++ signed;
            placement_id = placement.id;
            snapshot_version = call.snapshot_version;
          }))
    ]
  ]

  -- The loop over the picks of one placement: the ads and the events, in order.
  unfoldable pub serve :
      Call J
      → DecisionPlacement
      → ℤ
      → List Candidate
      → Result Halt (List (DecisionAd J) × List Event)
  unfolding payload_of creative_of_ad ad_of decision_event
  serve call placement resolved [] = ok ([], [])
  serve call placement resolved (c ∷ cs) = do
    signed ← ok_or (sign crypto (payload_of call placement c) call.project.hmac_secret) panicked
    (ads, events) ← serve call placement resolved cs
    let event =
        decision_event call.principal call.project_id placement resolved c
          (mint_nonce call.now_ms c.ad.id) call.snapshot_version call.now_ms call.req.context
    ok (elim (creative_of_ad call placement c signed) [
      | none ↦ (ads, events)
      | some creative ↦ (ad_of resolved c signed creative ∷ ads, event ∷ events)
    ])
