-- ===== src/Decisions/Explain/Laws.antt =====
-- src/decisions.rs: what the explainer says, against what the decision does.
use mathlib.Core.Option
use knievel.Base.{
  Option-cases, nat_eq, ℤ, int_eq, In, All, any, is_empty, contains, In-of_contains, contains_of_In,
  Text, text, text_eq, ℕ, ◌≡◌, refl, subst, ◌↔◌, inl, inr, Bool, true, false, not, ◌||◌, some, List,
  [], ◌∷◌, arith,
}
use knievel.Selection.{Flight, Ad, BlockSet, Candidate, filter_candidates}
use knievel.Selection.Filter.{
  InWindow, Meets, IsEligible, IsServed, filter_candidates_iff, misses, misses→, →misses,
}
use knievel.Decisions.{DecisionPlacement, Crates, Call}
use knievel.Decisions.Parts.{build_block, placement_of, forced_id}
use knievel.Decisions.Decide.{picks_of, drawn, top_of}
use knievel.Decisions.Explain.{
  ExplainEvaluation, verdict, site_matches, ad_type_matches, is_blocked, evaluate,
  explained_placement, explained_top, explained_picks,
}

-- No rule of the evaluation fails.
abbrev pub IsPassing : List ExplainEvaluation → Type 0
IsPassing evaluation = All (λ (e : ExplainEvaluation). e.result ≡ text "pass") evaluation

verdict_iff : (rule : Text) (b : Bool) → ((verdict rule b).result ≡ text "pass") ↔ (b ≡ true)
verdict_iff rule true = ((λ e. refl), (λ e. refl))
verdict_iff rule false = ground arith

targets_iff :
    (targets offered : List ℤ)
    → ((is_empty targets || any (contains targets) offered) ≡ true) ↔ Meets targets offered
unfolding misses
targets_iff targets offered = (
  (λ h. misses→ targets offered (ground arith)),
  (λ m. ground (arith, →misses targets offered m)),
)

contains_iff : (xs : List ℤ) (a : ℤ) → (contains xs a ≡ true) ↔ In a xs
contains_iff xs a = (In-of_contains xs a, contains_of_In xs a)

any-one : (test : ℤ → Bool) (s : ℤ) → any test (s ∷ []) ≡ test s
unfolding any
any-one test s = ground arith

unblocked :
    (b : BlockSet) (f : Flight)
    → ¬ In f.advertiser_id b.advertiser_ids
    → ¬ In f.campaign_id b.campaign_ids
    → not (is_blocked b f) ≡ true
unblocked b f no_advertiser no_campaign = ground (
  arith,
  In-of_contains b.advertiser_ids f.advertiser_id,
  In-of_contains b.campaign_ids f.campaign_id,
)

module _ (b : BlockSet) (p : DecisionPlacement) (site now_ms : ℤ) where
  site_iff : (f : Flight) → (site_matches f (some site) ≡ true) ↔ Meets f.site_ids (site ∷ [])
  site_iff f =
      subst (λ t. ((is_empty f.site_ids || t) ≡ true) ↔ Meets f.site_ids (site ∷ []))
        (any-one (contains f.site_ids) site) (targets_iff f.site_ids (site ∷ []))

  -- What the explainer evaluates, with what it does not: the dates and the zones of the flight.
  abbrev pub PassesAll : Flight → Ad → Type 0
  PassesAll f a =
      IsPassing (evaluate b p (some site) f a)
      × InWindow f now_ms
      × Meets f.zone_ids (Option.get_or p.zone_ids [])

  rules_iff :
      (f : Flight) (a : Ad)
      → a.is_active ≡ true
      → PassesAll f a ↔ IsEligible f (explained_placement p site) b now_ms
  unfolding evaluate
  rules_iff f a active = (
    (λ h.
        let (flight_active, (ad_active, (at_site, (at_type, (not_blocked, _))))) = h.0 in
        record {
          active = (verdict_iff (text "flight_active") f.is_active).0 flight_active;
          window = h.1;
          targeted = record {
            site =
                (site_iff f).0
                  ((verdict_iff (text "site_match") (site_matches f (some site))).0 at_site);
            zone = h.2;
            ad_type =
                (targets_iff f.ad_types p.ad_types).0
                  ((verdict_iff (text "ad_type_match") (ad_type_matches f p)).0 at_type);
          };
          advertiser_allowed = λ i. ground (
            arith,
            contains_of_In b.advertiser_ids f.advertiser_id i,
            (verdict_iff (text "block_advertiser_or_campaign") (not (is_blocked b f))).0
                not_blocked,
          );
          campaign_allowed = λ i. ground (
            arith,
            contains_of_In b.campaign_ids f.campaign_id i,
            (verdict_iff (text "block_advertiser_or_campaign") (not (is_blocked b f))).0
                not_blocked,
          );
        }),
    (λ e. (
      (
        (verdict_iff (text "flight_active") f.is_active).1 e.active,
        (
          (verdict_iff (text "ad_active") a.is_active).1 active,
          (
            (verdict_iff (text "site_match") (site_matches f (some site))).1
                ((site_iff f).1 e.targeted.site),
            (
              (verdict_iff (text "ad_type_match") (ad_type_matches f p)).1
                  ((targets_iff f.ad_types p.ad_types).1 e.targeted.ad_type),
              (
                (verdict_iff (text "block_advertiser_or_campaign") (not (is_blocked b f))).1
                    (unblocked b f e.advertiser_allowed e.campaign_allowed),
                tt,
              ),
            ),
          ),
        ),
      ),
      e.window,
      e.targeted.zone,
    )),
  )

module _ {J : Type 0} (crates : Crates J) where
  -- The picks of the explainer are those of the decision.
  explained_picks-same :
      (call : Call J) (n : ℕ) (placement : DecisionPlacement) (site : ℤ)
      → explained_picks crates call n placement site ≡ picks_of crates call n placement site
  unfolding explained_picks explained_top picks_of drawn top_of placement_of forced_id
  explained_picks-same call n placement site = elim (Option-cases placement.force) [
    | inl n ↦ rw n refl
    | inr (f, e) ↦ rw e (elim (Option-cases f.ad_id) [ inl m ↦ rw m refl | inr (i, q) ↦ rw q refl ])
  ]

  -- With the same seed the explainer picks what the decision picks. A candidate passes the filter of
  -- the decision exactly when its flight and its active ad are listed together, no rule that the
  -- explainer evaluates fails, and it passes the two that the explainer leaves out: the dates of the
  -- flight, and its zones.
  pub explained_picks-Agree :
      (call : Call J) (n : ℕ) (placement : DecisionPlacement) (site : ℤ) (c : Candidate)
      → (explained_picks crates call n placement site ≡ picks_of crates call n placement site)
        × (In c (
              filter_candidates call.project.flights call.project.ads
                (explained_placement placement site)
                (build_block call.req.block)
                call.now_ms)
            ↔ (In c.flight call.project.flights
                × IsServed call.project.ads c
                × PassesAll (build_block call.req.block) placement site call.now_ms c.flight c.ad))
  explained_picks-Agree call n placement site c =
      let filtered =
        filter_candidates_iff call.project.ads (explained_placement placement site)
          (build_block call.req.block) call.now_ms call.project.flights c in
      let passing =
        rules_iff (build_block call.req.block) placement site call.now_ms c.flight c.ad in
      (
        explained_picks-same call n placement site,
        (
          (λ i.
              let (listed, eligible, served) = filtered.0 i in
              (listed, served, (passing served.active).1 eligible)),
          (λ h.
              let (listed, served, passes) = h in
              filtered.1 (listed, (passing served.active).0 passes, served)),
        ),
      )
