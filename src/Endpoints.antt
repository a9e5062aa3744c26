-- ===== src/Endpoints.antt =====
-- src/event_endpoints.rs: the impression and click endpoints. The clock is a parameter: milliseconds
-- since the epoch.
pub mod Peek
pub mod Laws
use mathlib.Core.Option
use knievel.Base.{
  ltb, if◌then◌else◌, ◌==◌, nat_eq, ℤ, int_eq, length, Text, text, text_eq, from_utf8, split_once,
  pos, ℕ, ◌+◌, ◌/◌, Bool, false, Option, none, some, List, [], ◌∷◌,
}
use knievel.Base.Assoc.{get}
use knievel.Base.Bytes.{slice}
use knievel.Base.Result.{Result, ok, err, ok_or, ◌>>=◌}
use knievel.Hmac
use knievel.Events
use knievel.Hmac.{
  Crypto, SignaturePayload, VerifyError, malformed, bad_signature, verify, dedup_key,
  default_ttl_secs,
}
use knievel.Snapshot.{Snapshot}
use knievel.Events.{Event, Channel, try_send}

-- What `emit_event` is called for, and the key of its deduplication.
pub hmac_kind : Events.EventKind → Option Hmac.EventKind
hmac_kind Events.decision = none
hmac_kind Events.impression = some Hmac.impression
hmac_kind Events.click = some Hmac.click

-- A response, as far as it depends on the request: `gif` is the 43 bytes of a transparent pixel.
pub data Response : Type 0 where
  no_content gif : Response
  bad_request : Response
  found : Text → Response

unfoldable pub project_id_of : List ℕ → Option Text
project_id_of [] = none
project_id_of (pid_len ∷ rest) =
    if ltb (length (pid_len ∷ rest)) (1 + pid_len)
    then none
    else from_utf8 (slice 1 pid_len (pid_len ∷ rest))

-- The override of the redirect is ignored.
pub resolve_redirect : {J : Type 0} → Snapshot J → Text → ℤ → Option Text → Text
resolve_redirect snap project_id ad_id signed_override = elim (get project_id snap.projects) [
  | none ↦ text "/"
  | some p ↦ Option.get_or (get ad_id p.click_through_urls) (text "/")
]

module _ (c : Crypto) where
  -- The project id at the head of the record, which nothing vouches for yet.
  unfoldable pub peek_project_id : Text → Option Text
  unfolding project_id_of
  peek_project_id signed = elim (split_once b'.' signed) [
    | none ↦ none
    | some parts ↦ elim (c.b64_decode parts.0) [ none ↦ none | some bytes ↦ project_id_of bytes ]
  ]

  unfoldable pub verify_against_snapshot :
      {J : Type 0} → Snapshot J → Text → ℕ → Result VerifyError (SignaturePayload × (Text × Text))
  verify_against_snapshot snap signed now_secs = do
    project_id ← ok_or (peek_project_id signed) malformed
    project ← ok_or (get project_id snap.projects) bad_signature
    payload ←
        verify c signed project.hmac_secret project.hmac_secret_previous now_secs default_ttl_secs
    ok (payload, (project_id, project.org_id_for_event))

  -- The row of a hit; only the payload's hash of the placement is on the wire.
  unfoldable pub ping_event :
      Events.EventKind → Hmac.EventKind → Text → Text → SignaturePayload → ℤ → ℤ → Event
  ping_event kind dedup_kind org_id project_id payload snapshot_version now_ms = record {
    ts_ms = now_ms;
    org_id = org_id;
    project_id = project_id;
    kind = kind;
    placement_id = none;
    site_id = none;
    zone_id = none;
    ad_id = some payload.ad_id;
    creative_id = if payload.creative_id == pos 0 then none else some payload.creative_id;
    flight_id = none;
    campaign_id = none;
    advertiser_id = none;
    url = none;
    referrer_host = none;
    user_agent_hash = none;
    signature_nonce = some payload.nonce;
    dedup_key = some (dedup_key c project_id dedup_kind payload.nonce);
    snapshot_version = some snapshot_version;
  }

  -- A full or closed channel drops the hit.
  unfoldable pub emit_event :
      Option Channel → Events.EventKind → Text → Text → SignaturePayload → ℤ → ℤ → Option Channel
  unfolding hmac_kind ping_event
  emit_event none kind org_id project_id payload snapshot_version now_ms = none
  emit_event (some ch) kind org_id project_id payload snapshot_version now_ms =
      elim (hmac_kind kind) [
        | none ↦ some ch
        | some dedup_kind ↦
            some
              (try_send ch
                (ping_event kind dedup_kind org_id project_id payload snapshot_version now_ms)).0
      ]

  module _ {J : Type 0} (snap : Snapshot J) (events : Option Channel) (now_ms : ℕ) where
    -- `fmt=gif` asks for the pixel. A hit that does not verify gets the same response.
    unfoldable pub impression : Text → Option Text → Option Channel × Response
    unfolding verify_against_snapshot emit_event
    impression signed fmt =
        let want_gif : Bool = elim fmt [ none ↦ false | some f ↦ f == text "gif" ] in
        let reply = if want_gif then gif else no_content in
        elim (verify_against_snapshot snap signed (now_ms / 1000)) [
          | err e ↦ (events, reply)
          | ok (payload, (project_id, org_id)) ↦ (
            emit_event events Events.impression org_id project_id payload snap.config_version
                (pos now_ms),
            reply,
          )
        ]

    unfoldable pub click : Text → Option Text → Option Channel × Response
    unfolding verify_against_snapshot emit_event resolve_redirect
    click signed u = elim (verify_against_snapshot snap signed (now_ms / 1000)) [
      | err e ↦ (events, bad_request)
      | ok (payload, (project_id, org_id)) ↦ (
        emit_event events Events.click org_id project_id payload snap.config_version (pos now_ms),
        found (resolve_redirect snap project_id payload.ad_id u),
      )
    ]
