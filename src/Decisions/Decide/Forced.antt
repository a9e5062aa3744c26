-- ===== src/Decisions/Decide/Forced.antt =====
-- The overrides of a request.
use knievel.Base.{
  Option-cases, nat_eq, ◌==◌, eq_of_==, ℤ, int_eq, length, In, find, find-some, Text, text_eq, ℕ,
  ◌≤◌, ◌≡◌, sym, ap, ◌∙◌, subst, ◌⊎◌, inl, inr, true, none, some, List,
}
use knievel.Base.Assoc.{get}
use knievel.Base.Result.{ok, none≢some}
use knievel.Selection.{Flight, Ad, Candidate}
use knievel.Decisions.{DecisionPlacement, DecisionAd, DecideOutcome, Crates, Call}
use knievel.Decisions.Parts.{forced_id, forced_candidate, ad_of}
use knievel.Decisions.Decide.{picks_of, decide_pure}
use knievel.Decisions.Decide.Response.{decide_pure-IsBacked}

module _ {J : Type 0} (crates : Crates J) (call : Call J) where
  -- The candidate is the ad with the id, and the flight of that ad.
  pub record IsForced (ad_id : ℤ) (c : Candidate) : Type 0 where
    pub named : c.ad.id ≡ ad_id
    pub ad : In c.ad call.project.ads
    pub flight : In c.flight call.project.flights
    pub owned : c.flight.id ≡ c.ad.flight_id

  forced_candidate-IsForced :
      (ad_id : ℤ) (c : Candidate) → forced_candidate call.project ad_id ≡ some c → IsForced ad_id c
  unfolding forced_candidate
  forced_candidate-IsForced ad_id c h =
      elim (Option-cases (find (λ (a : Ad). a.id == ad_id) call.project.ads)) [
        | inl e ↦ none≢some (rw (e, forced_candidate) at h)
        | inr (ad, e) ↦
            let h1 = rw (e, forced_candidate) at h in
            elim (Option-cases (find (λ (f : Flight). f.id == ad.flight_id) call.project.flights)) [
              | inl f ↦ none≢some (rw f at h1)
              | inr (flight, f) ↦
                  let h2 : some (record { ad = ad; flight = flight }) ≡ some c = rw f at h1 in
                  let same : record { ad = ad; flight = flight } ≡ c = cc in
                  let (i, t) = find-some (λ (a : Ad). a.id == ad_id) call.project.ads e in
                  let (j, u) =
                    find-some (λ (f : Flight). f.id == ad.flight_id) call.project.flights f in
                  subst (IsForced ad_id) same (record {
                    named = eq_of_== ad.id ad_id t;
                    ad = i;
                    flight = j;
                    owned = eq_of_== flight.id ad.flight_id u;
                  })
            ]
      ]

  forced-picks :
      (n : ℕ) (placement : DecisionPlacement) (resolved ad_id : ℤ) (c : Candidate)
      → call.force_active ≡ true
      → forced_id placement ≡ some ad_id
      → In c (picks_of crates call n placement resolved)
      → forced_candidate call.project ad_id ≡ some c
  unfolding picks_of
  forced-picks n placement resolved ad_id c active e i =
      let i1 = rw (active, picks_of) at i in
      let i2 = rw e at i1 in
      elim (Option-cases (forced_candidate call.project ad_id)) [
        | inl f ↦ elim (rw f at i2) [ ]
        | inr (d, f) ↦ elim (rw f at i2) [ inl q ↦ f ∙ ap some (sym q) | inr j ↦ elim j [ ] ]
      ]

  -- The ad of a response goes back to a placement of the request with that id; where the placement
  -- forces an ad, it is that ad, with its own flight.
  pub record Honors (id : Text) (a : DecisionAd J) : Type 0 where
    pub placement : DecisionPlacement
    pub listed : In placement call.req.placements
    pub named : placement.id ≡ id
    pub choice :
        (forced_id placement ≡ none)
        ⊎ ((ad_id : ℤ) × (forced_id placement ≡ some ad_id)
            × ((c : Candidate) × IsForced ad_id c
                × (a.ad_id ≡ ad_id)
                × (a.flight_id ≡ c.flight.id)))

  -- When overrides are in force, a placement that forces an ad is answered with that ad or with none,
  -- whatever the filter says of it.
  pub decide_pure-Honors :
      (seeded : ℕ) (out : DecideOutcome J)
      → decide_pure crates seeded call ≡ ok out
      → call.force_active ≡ true
      → (id : Text) (ads : List (DecisionAd J)) → get id out.response.decisions ≡ some ads
      → (length ads ≤ 10) × ((a : DecisionAd J) → In a ads → Honors id a)
  unfolding ad_of
  decide_pure-Honors seeded out returned active id ads q =
      let (n, k) = decide_pure-IsBacked crates call seeded out returned id ads q in
      (
        n,
        λ a i.
            let w = k a i in
            record {
              placement = w.placement;
              listed = w.listed;
              named = w.named;
              choice = elim (Option-cases (forced_id w.placement)) [
                | inl e ↦ inl e
                | inr (ad_id, e) ↦
                    let f = forced_candidate-IsForced ad_id w.pick (
                      forced-picks w.seeded w.placement w.resolved ad_id w.pick active e
                        w.picked) in
                    inr (
                      ad_id,
                      e,
                      (
                        w.pick,
                        f,
                        ap DecisionAd.ad_id w.built.made ∙ f.named,
                        ap DecisionAd.flight_id w.built.made,
                      ),
                    )
              ];
            },
      )
