-- ===== src/Decisions/Decide/Response.antt =====
-- What a response of `decide_pure` promises: where its ads come from, and that its URLs verify.
use mathlib.Core.Option
use knievel.Base.{
  nat_eq, ℤ, ◌≤ℤ◌, int_eq, IsI64, as_u64, as_u64-lt, div_trunc, length, In, All, Text, text,
  text_eq, is_utf8, pos, ℕ, ◌+◌, ◌*◌, ◌%◌, ◌^◌, ◌≤◌, ◌<◌, ◌≡◌, refl, sym, ap, ◌∙◌, subst, ◌⊎◌, true,
  false, Option, none, some, List, ◌++◌,
}
use knievel.Base.Assoc.{get}
use knievel.Base.Bytes.{IsByte, length-to_be_bytes, to_be_bytes-IsByte}
use knievel.Base.Result.{ok}
use knievel.Selection.{Candidate, tier, weight_of}
use knievel.Selection.Pipeline.{Passes, pick-Passes}
use knievel.Hmac.{IsLawful, SignaturePayload, verify}
use knievel.Hmac.Record.{IsWire}
use knievel.Hmac.Verify.{verify-sign}
use knievel.Hmac.Keys.{length-placement_id_hash, placement_id_hash-IsByte}
use knievel.Events.{Event, EventKind}
use knievel.Decisions.{DecisionPlacement, DecisionAd, DecideOutcome, Crates, Call}
use knievel.Decisions.Parts.{resolve_site, placement_of, build_block, mint_nonce, now_secs, ad_of}
use knievel.Decisions.Serve.{payload_of, decision_event}
use knievel.Decisions.Decide.{top_of, drawn, picks_of, decide_pure}
use knievel.Decisions.Decide.Laws.{IsBacked, decide_pure-Holds}

module _ {J : Type 0} (crates : Crates J) (call : Call J) where
  -- The selection behind an ad of the response to the placement `id`.
  pub record IsChosen (id : Text) (a : DecisionAd J) : Type 0 where
    pub placement : DecisionPlacement
    pub listed : In placement call.req.placements
    pub named : placement.id ≡ id
    pub site : resolve_site call.project placement ≡ some a.site_id
    pub candidate : Candidate
    pub ad : a.ad_id ≡ candidate.ad.id
    pub flight : a.flight_id ≡ candidate.flight.id
    pub weighty : 0 < weight_of candidate
    pub passes :
        Passes call.project.flights call.project.ads
          (placement_of placement a.site_id)
          (build_block call.req.block)
          call.now_ms
          candidate
    pub least :
        (d : Candidate)
        → Passes call.project.flights call.project.ads
            (placement_of placement a.site_id)
            (build_block call.req.block)
            call.now_ms
            d
        → tier candidate ≤ℤ tier d

  -- Both URLs of the ad carry one signed payload, which says the project, the ad and the creative,
  -- and verifies under the project's secret, current or previous, until its time to live is over.
  pub record IsVerifiable (a : DecisionAd J) : Type 0 where
    pub signed : Text
    pub payload : SignaturePayload
    pub click : a.click_url ≡ text "/e/c/" ++ signed
    pub impression : a.impression_url ≡ text "/e/i/" ++ signed
    pub project : payload.project_id ≡ call.project_id
    pub ad : payload.ad_id ≡ a.ad_id
    pub creative : payload.creative_id ≡ a.creative_id
    pub verifies :
        (current : List ℕ) (previous : Option (List ℕ)) (now ttl : ℕ)
        → (call.project.hmac_secret ≡ current) ⊎ (previous ≡ some call.project.hmac_secret)
        → now ≤ payload.issued_at_secs + ttl
        → verify crates.crypto signed current previous now ttl ≡ ok payload

  -- The ids of the path and of the ad, as their Rust types and the assertion in `pack_record` bound them.
  pub record IsNameable (a : DecisionAd J) : Type 0 where
    pub text : is_utf8 call.project_id ≡ true
    pub bytes : All IsByte call.project_id
    pub short : length call.project_id ≤ 255
    pub ad : IsI64 a.ad_id
    pub creative : IsI64 a.creative_id

module _ {J : Type 0} (crates : Crates J) (call : Call J) where
  picks_of-inactive :
      call.force_active ≡ false
      → (n : ℕ) (placement : DecisionPlacement) (resolved : ℤ)
      → picks_of crates call n placement resolved ≡ drawn crates call n placement resolved
  unfolding picks_of
  picks_of-inactive inactive n placement resolved = rw (inactive, picks_of) refl

  chosen :
      call.force_active ≡ false
      → (events : List Event) (id : Text) (a : DecisionAd J) → IsBacked crates call events id a
      → IsChosen crates call id a
  unfolding drawn top_of ad_of
  chosen inactive events id a w =
      let e : a.site_id ≡ w.resolved = ap DecisionAd.site_id w.built.made in
      let j =
        subst (In w.pick) (picks_of-inactive inactive w.seeded w.placement w.resolved) w.picked in
      let (c, positive, least) =
        pick-Passes call.project.flights call.project.ads (placement_of w.placement w.resolved)
          (build_block call.req.block) call.now_ms crates.rng _ _ w.pick j in
      record {
        placement = w.placement;
        listed = w.listed;
        named = w.named;
        site = w.site ∙ ap some (sym e);
        candidate = w.pick;
        ad = ap DecisionAd.ad_id w.built.made;
        flight = ap DecisionAd.flight_id w.built.made;
        weighty = positive;
        passes = rw e c;
        least = rw e least;
      }

payload-IsWire :
    {J : Type 0} (crates : Crates J) (call : Call J)
    → IsLawful crates.crypto
    → (placement : DecisionPlacement) (pick : Candidate) → is_utf8 call.project_id ≡ true
    → All IsByte call.project_id
    → IsI64 pick.ad.id
    → IsI64 (Option.get_or pick.ad.creative_id (pos 0))
    → IsWire (payload_of crates call placement pick)
unfolding payload_of mint_nonce now_secs
payload-IsWire crates call lawful placement pick utf8 bytes ad creative =
    let nonce = (as_u64 call.now_ms * 2654435761 + as_u64 pick.ad.id) % 2 ^ 64 in
    record {
      text = utf8;
      ad = ad;
      creative = creative;
      hash = length-placement_id_hash crates.crypto lawful call.project_id placement.id;
      issued = as_u64-lt (div_trunc call.now_ms 1000);
      nonce = length-to_be_bytes 8 nonce;
      text_bytes = bytes;
      hash_bytes = placement_id_hash-IsByte crates.crypto lawful call.project_id placement.id;
      nonce_bytes = to_be_bytes-IsByte 8 nonce;
    }

module _ {J : Type 0} (crates : Crates J) (call : Call J) (seeded : ℕ) (out : DecideOutcome J)
    (returned : decide_pure crates seeded call ≡ ok out) where
  -- A placement gets at most ten ads, and each goes back to a pick for a placement with that id,
  -- which also left its event.
  pub decide_pure-IsBacked :
      (id : Text) (ads : List (DecisionAd J))
      → get id out.response.decisions ≡ some ads
      → (length ads ≤ 10) × ((a : DecisionAd J) → In a ads → IsBacked crates call out.events id a)
  decide_pure-IsBacked id ads q =
      let (t, w, e, f) = decide_pure-Holds crates call seeded out returned in
      rw f (w.backed id ads (ap (get id) (sym e) ∙ q))

  -- Every event is a decision of the principal's org and the project of the call, at its time, and
  -- takes part in no deduplication.
  decide_pure-events :
      (e : Event)
      → In e out.events
      → (e.kind ≡ EventKind.decision)
        × (e.org_id ≡ call.principal.org_id)
        × (e.project_id ≡ call.project_id)
        × (e.ts_ms ≡ call.now_ms)
        × (e.dedup_key ≡ none)
  unfolding decision_event
  decide_pure-events e i =
      let (t, w, p, q) = decide_pure-Holds crates call seeded out returned in
      let (placement, j, (resolved, (pick, same))) = w.events e (rw (sym q) i) in
      (
        ap Event.kind same,
        ap Event.org_id same,
        ap Event.project_id same,
        ap Event.ts_ms same,
        ap Event.dedup_key same,
      )

  -- Without an override in force, each ad is of a candidate that passes the filter for its placement,
  -- has a positive weight, and stands in the best tier of all the candidates that pass it.
  pub decide_pure-Passes :
      call.force_active ≡ false
      → (id : Text) (ads : List (DecisionAd J)) → get id out.response.decisions ≡ some ads
      → (a : DecisionAd J) → In a ads
      → IsChosen crates call id a
  decide_pure-Passes inactive id ads q a i =
      let (n, k) = decide_pure-IsBacked id ads q in
      chosen crates call inactive out.events id a (k a i)

  -- With lawful crates, a project id that is UTF-8 of at most 255 bytes, and ids that are i64: both URLs
  -- of every ad carry one signed payload, which names the project, the ad and the creative, and which
  -- `verify` accepts under the secret that signed it, as the current or the previous one, until its time
  -- to live is over.
  pub decide_pure-IsVerifiable :
      IsLawful crates.crypto
      → (id : Text) (ads : List (DecisionAd J)) → get id out.response.decisions ≡ some ads
      → (a : DecisionAd J) → In a ads
      → IsNameable crates call a
      → IsVerifiable crates call a
  unfolding ad_of payload_of
  decide_pure-IsVerifiable lawful id ads q a i name =
      let (n, k) = decide_pure-IsBacked id ads q in
      let w = k a i in
      let b = w.built in
      record {
        signed = b.signed;
        payload = payload_of crates call w.placement w.pick;
        click = ap DecisionAd.click_url b.made;
        impression = ap DecisionAd.impression_url b.made;
        project = refl;
        ad = sym (ap DecisionAd.ad_id b.made);
        creative = sym (ap DecisionAd.creative_id b.made);
        verifies = λ current previous now ttl known fresh.
            verify-sign crates.crypto lawful (payload_of crates call w.placement w.pick)
              (payload-IsWire crates call lawful w.placement w.pick name.text name.bytes
                (subst IsI64 (ap DecisionAd.ad_id b.made) name.ad)
                (subst IsI64 (ap DecisionAd.creative_id b.made) name.creative))
              name.short call.project.hmac_secret b.signed b.signs current previous now ttl known
              fresh;
      }
