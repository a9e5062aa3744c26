-- ===== src/Decisions/Explain.antt =====
-- src/decisions.rs: the handler of `POST /v1/projects/:project_id/decisions:explain`. The texts of the
-- details and of the messages are left out.
pub mod Laws
use mathlib.Core.Option
use knievel.Base.{
  ltb, if◌then◌else◌, nat_eq, ◌==◌, ℤ, int_eq, length, any, find, is_empty, contains, Text, text,
  text_eq, pos, ℕ, suc, Bool, true, false, not, ◌||◌, Option, none, some, List, [], ◌∷◌, ◌++◌, map,
}
use knievel.Base.Assoc.{Assoc, get, insert}
use knievel.Base.Result.{ok, err}
use knievel.Selection.{
  Flight, Ad, Placement, BlockSet, Candidate, filter_candidates, priority, weighted_random,
}
use knievel.Auth.{Principal, Role}
use knievel.Auth.Tenancy.{open_project_tx}
use knievel.Decisions.{DecisionPlacement, DecisionsRequest, DecisionAd, Crates, Call}
use knievel.Decisions.Parts.{build_block, resolve_site, clamp_count, forced_candidate, force_gate}
use knievel.Decisions.Decide.{selection_seed}
use knievel.Decisions.Handler.{AppState, authz_code, requests_force}

pub record ExplainEvaluation : Type 0 where
  pub rule : Text
  pub result : Text

pub record ExplainCandidate : Type 0 where
  pub ad_id : ℤ
  pub creative_id : ℤ
  pub flight_id : ℤ
  pub campaign_id : ℤ
  pub advertiser_id : ℤ
  pub weight : ℤ
  pub evaluation : List ExplainEvaluation

pub record ExplainPlacement : Type 0 where
  pub priority_tier : Option ℤ
  pub selected_ad_id : Option ℤ
  pub candidates : List ExplainCandidate

pub record ExplainResponse (J : Type 0) : Type 0 where
  pub snapshot_version : ℤ
  pub decisions : Assoc Text (List (DecisionAd J))
  pub explanation : Assoc Text ExplainPlacement

pub data ExplainResp (J : Type 0) : Type 0 where
  explained : ExplainResponse J → ExplainResp J
  bad_request : Text → ExplainResp J
  forbidden : Text → ExplainResp J
  unavailable : Text → ExplainResp J

abbrev pub verdict : Text → Bool → ExplainEvaluation
verdict rule_name passes = record {
  rule = rule_name;
  result = if passes then text "pass" else text "fail";
}

abbrev pub site_matches : Flight → Option ℤ → Bool
site_matches flight none = false
site_matches flight (some s) = is_empty flight.site_ids || contains flight.site_ids s

abbrev pub ad_type_matches : Flight → DecisionPlacement → Bool
ad_type_matches flight placement =
    is_empty flight.ad_types || any (contains flight.ad_types) placement.ad_types

abbrev pub is_blocked : BlockSet → Flight → Bool
is_blocked block flight =
    contains block.advertiser_ids flight.advertiser_id
    || contains block.campaign_ids flight.campaign_id

-- The rules, in the order in which they are pushed.
unfoldable pub evaluate :
    BlockSet → DecisionPlacement → Option ℤ → Flight → Ad → List ExplainEvaluation
evaluate block placement resolved flight ad =
    verdict (text "flight_active") flight.is_active
    ∷ verdict (text "ad_active") ad.is_active
    ∷ verdict (text "site_match") (site_matches flight resolved)
    ∷ verdict (text "ad_type_match") (ad_type_matches flight placement)
    ∷ verdict (text "block_advertiser_or_campaign") (not (is_blocked block flight))
    ∷ []

abbrev pub explained_ad : BlockSet → DecisionPlacement → Option ℤ → Flight → Ad → ExplainCandidate
explained_ad block placement resolved flight ad = record {
  ad_id = ad.id;
  creative_id = Option.get_or ad.creative_id (pos 0);
  flight_id = flight.id;
  campaign_id = flight.campaign_id;
  advertiser_id = flight.advertiser_id;
  weight = ad.weight;
  evaluation = evaluate block placement resolved flight ad;
}

-- The walk over the ads: one without a flight is passed over.
unfoldable pub explain_ads :
    List Flight → BlockSet → DecisionPlacement → Option ℤ → List Ad → List ExplainCandidate
explain_ads flights block placement resolved [] = []
explain_ads flights block placement resolved (ad ∷ ads) =
    let rest = explain_ads flights block placement resolved ads in
    elim (find (λ (f : Flight). f.id == ad.flight_id) flights) [
      | none ↦ rest
      | some flight ↦ explained_ad block placement resolved flight ad ∷ rest
    ]

-- `.first()`
abbrev pub first : {A : Type 0} → List A → Option A
first [] = none
first (x ∷ xs) = some x

-- The mark on the candidates of the selected ad.
unfoldable pub mark_selected : Option ℤ → List ExplainCandidate → List ExplainCandidate
mark_selected none cs = cs
mark_selected (some sel) cs =
    map
      (λ (c : ExplainCandidate).
        if c.ad_id == sel
        then record c {
          evaluation =
              c.evaluation
              ++ record { rule = text "weighted_random"; result = text "selected" } ∷ [];
        }
        else c)
      cs

abbrev pub explained_placement : DecisionPlacement → ℤ → Placement
explained_placement placement resolved = record {
  site_id = resolved;
  zone_ids = Option.get_or placement.zone_ids [];
  ad_types = placement.ad_types;
  count = clamp_count placement.count;
}

module _ {J : Type 0} (crates : Crates J) where
  abbrev pub dummy_ad : ℤ → Candidate → DecisionAd J
  dummy_ad resolved c = record {
    ad_id = c.ad.id;
    creative_id = Option.get_or c.ad.creative_id (pos 0);
    flight_id = c.flight.id;
    campaign_id = c.flight.campaign_id;
    advertiser_id = c.flight.advertiser_id;
    priority_id = c.flight.priority_tier;
    site_id = resolved;
    click_url = text "/e/c/__explain_dummy__";
    impression_url = text "/e/i/__explain_dummy__";
    creative = none;
  }

  unfoldable pub explained_top : Call J → DecisionPlacement → ℤ → List Candidate
  explained_top call placement resolved = priority (
      filter_candidates call.project.flights call.project.ads
        (explained_placement placement resolved) (build_block call.req.block) call.now_ms)

  -- The picks, with the n-th seed.
  unfoldable pub explained_picks : Call J → ℕ → DecisionPlacement → ℤ → List Candidate
  explained_picks call n placement resolved =
      let picks =
        weighted_random crates.rng (explained_top call placement resolved)
          (clamp_count placement.count) (selection_seed crates n placement.id call.now_ms) in
      if not call.force_active then picks else elim placement.force [
        | none ↦ picks
        | some f ↦ elim f.ad_id [
          | none ↦ picks
          | some ad_id ↦ elim (forced_candidate call.project ad_id) [
            | some forced ↦ forced ∷ []
            | none ↦ []
          ]
        ]
      ]

  pub record Explained : Type 0 where
    pub seeds : ℕ
    pub decisions : Assoc Text (List (DecisionAd J))
    pub explanation : Assoc Text ExplainPlacement

  -- One round of the loop over the placements.
  unfoldable pub explain_place : Call J → DecisionPlacement → Explained → Explained
  explain_place call placement s =
      let resolved = resolve_site call.project placement in
      let candidates_out =
        explain_ads call.project.flights (build_block call.req.block) placement resolved
          call.project.ads in
      let unselected : Explained = record {
        seeds = s.seeds;
        decisions = insert placement.id [] s.decisions;
        explanation =
            insert placement.id
              (record { priority_tier = none; selected_ad_id = none; candidates = candidates_out })
              s.explanation;
      } in
      elim resolved [
        | none ↦ unselected
        | some site ↦
            if is_empty placement.ad_types
            then unselected
            else (let picks = explained_picks call s.seeds placement site in
                let selected = Option.map (λ (c : Candidate). c.ad.id) (first picks) in
                record {
                  seeds = suc s.seeds;
                  decisions = insert placement.id (map (dummy_ad site) picks) s.decisions;
                  explanation =
                      insert placement.id
                        (record {
                          priority_tier =
                              Option.map (λ (c : Candidate). c.flight.priority_tier)
                                (first (explained_top call placement site));
                          selected_ad_id = selected;
                          candidates = mark_selected selected candidates_out;
                        })
                        s.explanation;
                })
      ]

  unfoldable pub explain_places : Call J → List DecisionPlacement → Explained → Explained
  explain_places call [] s = s
  explain_places call (p ∷ ps) s = explain_places call ps (explain_place call p s)

  unfoldable pub explain_with : ℕ → ℤ → Call J → ExplainResp J
  explain_with seeded version call =
      let s =
        explain_places call call.req.placements
          (record { seeds = seeded; decisions = []; explanation = [] }) in
      explained (record {
        snapshot_version = version;
        decisions = s.decisions;
        explanation = s.explanation;
      })

  unfoldable pub explain : ℕ → AppState J → Principal → Text → DecisionsRequest → ℤ → ExplainResp J
  explain seeded state principal pj req now_ms = elim state.db [
    | none ↦ unavailable (text "no_db")
    | some db ↦ elim (open_project_tx db principal pj Role.reader) [
      | err e ↦ forbidden (authz_code e)
      | ok tx ↦ elim (get pj state.snapshot.projects) [
        | none ↦ unavailable (text "snapshot_cold")
        | some project ↦
            let call : Bool → Call J = λ force_active. record {
              project = project;
              snapshot_version = state.snapshot.config_version;
              principal = principal;
              project_id = pj;
              req = req;
              now_ms = now_ms;
              force_active = force_active;
            } in
            if is_empty req.placements
            then bad_request (text "placements_required")
            else if ltb 32 (length req.placements)
            then bad_request (text "too_many_placements")
            else if not (requests_force req)
            then explain_with seeded state.snapshot.config_version (call false)
            else if force_gate principal project state.force_overrides_enabled
            then explain_with seeded state.snapshot.config_version (call true)
            else forbidden (text "force_disabled")
      ]
    ]
  ]
