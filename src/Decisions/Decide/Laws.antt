-- ===== src/Decisions/Decide/Laws.antt =====
-- What stands in the response of `decide_pure`.
use knievel.Base.{
  ltb, Bool-cases, Option-cases, ◌==◌, nat_eq, eq_of_==, ℤ, int_eq, length, In, All, is_empty,
  In-append_left, In-append_right, In-append, All-of_In, Text, text_eq, ℕ, suc, ◌≤◌, ◌≡◌, refl, sym,
  ◌∙◌, subst, inl, inr, false, Option, some, List, [], ◌∷◌, ◌++◌, arith,
}
use knievel.Base.Assoc.{Assoc, get, insert, get-insert}
use knievel.Base.Result.{ok, bind-elim, ok-injective, err≢ok, none≢some}
use knievel.Selection.{Candidate}
use knievel.Selection.Weighted.{weighted_random-length}
use knievel.Events.{Event}
use knievel.Decisions.{DecisionPlacement, DecisionAd, DecideOutcome, Crates, Call, Progress}
use knievel.Decisions.Parts.{resolve_site, clamp_count}
use knievel.Decisions.Serve.{serve}
use knievel.Decisions.Serve.Laws.{IsBuilt, event_of, Serves, serve-Serves}
use knievel.Decisions.Decide.Steps.{place-unresolved, place-untyped, place-served}
use knievel.Decisions.Decide.{top_of, drawn, picks_of, place, places, decide_pure, selection_seed}

module _ {J : Type 0} (crates : Crates J) (call : Call J) where
  -- What an ad of the response to the placement `id` goes back to: a placement of the request with
  -- that id, its site, a pick for it, and the event of the pick.
  pub record IsBacked (events : List Event) (id : Text) (a : DecisionAd J) : Type 0 where
    pub placement : DecisionPlacement
    pub listed : In placement call.req.placements
    pub named : placement.id ≡ id
    pub resolved : ℤ
    pub site : resolve_site call.project placement ≡ some resolved
    pub typed : is_empty placement.ad_types ≡ false
    pub seeded : ℕ
    pub pick : Candidate
    pub picked : In pick (picks_of crates call seeded placement resolved)
    pub built : IsBuilt crates call placement resolved pick a
    pub logged : In (event_of crates call placement resolved pick) events

  clamp_count-bounds : (count : Option ℤ) → (1 ≤ clamp_count count) × (clamp_count count ≤ 10)
  unfolding clamp_count
  clamp_count-bounds count = (ground arith, ground arith)

  length-picks :
      (seeded : ℕ) (placement : DecisionPlacement) (resolved : ℤ)
      → length (picks_of crates call seeded placement resolved) ≤ 10
  unfolding picks_of drawn
  length-picks seeded placement resolved =
      let (low, high) = clamp_count-bounds placement.count in
      let h =
        weighted_random-length crates.rng (top_of crates call placement resolved)
          (clamp_count placement.count) (selection_seed crates seeded placement.id call.now_ms) in
      ground (arith, h, high)

  abbrev pub IsAllBacked : List Event → Assoc Text (List (DecisionAd J)) → Type 0
  IsAllBacked events m =
      (id : Text) (ads : List (DecisionAd J))
      → get id m ≡ some ads
      → (length ads ≤ 10) × ((a : DecisionAd J) → In a ads → IsBacked events id a)

  abbrev pub IsEventOfCall : Event → Type 0
  IsEventOfCall e =
      (placement : DecisionPlacement) × In placement call.req.placements
      × ((resolved : ℤ) × ((pick : Candidate) × (e ≡ event_of crates call placement resolved pick)))

  pub record Holds (s : Progress J) : Type 0 where
    pub backed : IsAllBacked s.events s.decisions
    pub events : (e : Event) → In e s.events → IsEventOfCall e

  weaken-IsBacked :
      (old new : List Event) (id : Text) (a : DecisionAd J)
      → IsBacked old id a
      → IsBacked (old ++ new) id a
  weaken-IsBacked old new id a w = record {
    placement = w.placement;
    listed = w.listed;
    named = w.named;
    resolved = w.resolved;
    site = w.site;
    typed = w.typed;
    seeded = w.seeded;
    pick = w.pick;
    picked = w.picked;
    built = w.built;
    logged = In-append_left _ old new w.logged;
  }

  insert-IsAllBacked :
      (events : List Event) (m : Assoc Text (List (DecisionAd J))) (placement : DecisionPlacement)
      (ads : List (DecisionAd J))
      → IsAllBacked events m
      → (length ads ≤ 10) × ((a : DecisionAd J) → In a ads → IsBacked events placement.id a)
      → IsAllBacked events (insert placement.id ads m)
  insert-IsAllBacked events m placement ads h k id bs q =
      let found = sym (get-insert placement.id id ads m) ∙ q in
      elim (Bool-cases (placement.id == id)) [
        | inl y ↦
            let at : placement.id ≡ id = eq_of_== placement.id id y in
            let same : ads ≡ bs = (let r = rw y at found in cc) in
            subst (λ cs. (length cs ≤ 10) × ((a : DecisionAd J) → In a cs → IsBacked events id a))
              same
              (subst
                (λ i. (length ads ≤ 10) × ((a : DecisionAd J) → In a ads → IsBacked events i a)) at
                k)
        | inr n ↦ h id bs (rw n at found)
      ]

  served :
      (placement : DecisionPlacement) (resolved : ℤ) (seeded : ℕ) (old : List Event)
      → In placement call.req.placements
      → resolve_site call.project placement ≡ some resolved
      → is_empty placement.ad_types ≡ false
      → (ads : List (DecisionAd J)) (events : List Event)
      → Serves crates call placement resolved
          (picks_of crates call seeded placement resolved)
          ads
          events
      → (length ads ≤ 10)
        × ((a : DecisionAd J) → In a ads → IsBacked (old ++ events) placement.id a)
  served placement resolved seeded old i site typed ads events w = (
    (let h = w.bounded in omega (arith, h, length-picks seeded placement resolved)),
    λ a j.
        let (c, k, built, logged) = w.built a j in
        record {
          placement = placement;
          listed = i;
          named = refl;
          resolved = resolved;
          site = site;
          typed = typed;
          seeded = seeded;
          pick = c;
          picked = k;
          built = built;
          logged = In-append_right _ old events logged;
        },
  )

  unresolved-Holds :
      (placement : DecisionPlacement) (s : Progress J)
      → Holds s
      → Holds (record s { decisions = insert placement.id [] s.decisions })
  unresolved-Holds placement s w = record {
    backed =
        insert-IsAllBacked s.events s.decisions placement [] w.backed
          (omega arith, λ a j. elim j [ ]);
    events = w.events;
  }

  serve-Holds :
      (placement : DecisionPlacement)
      → In placement call.req.placements
      → (s : Progress J) → Holds s
      → (resolved : ℤ) → resolve_site call.project placement ≡ some resolved
      → is_empty placement.ad_types ≡ false
      → (ads : List (DecisionAd J)) (events : List Event)
      → Serves crates call placement resolved
          (picks_of crates call s.seeded placement resolved)
          ads
          events
      → Holds (record {
        seeded = suc s.seeded;
        decisions = insert placement.id ads s.decisions;
        events = s.events ++ events;
      })
  serve-Holds placement i s w resolved site typed ads events v = record {
    backed =
        insert-IsAllBacked (s.events ++ events) s.decisions placement ads
          (λ id bs q.
            let (n, k) = w.backed id bs q in
            (n, λ a j. weaken-IsBacked s.events events id a (k a j)))
          (served placement resolved s.seeded s.events i site typed ads events v);
    events = λ e j. elim (In-append e s.events events j) [
      | inl l ↦ w.events e l
      | inr r ↦ let (c, k, q, more) = v.logged e r in (placement, i, (resolved, (c, q)))
    ];
  }

  place-Holds :
      (placement : DecisionPlacement)
      → In placement call.req.placements
      → (s t : Progress J) → Holds s
      → place crates call placement s ≡ ok t
      → Holds t
  place-Holds placement i s t w h = elim (Option-cases (resolve_site call.project placement)) [
    | inl none_found ↦
        subst Holds (ok-injective (sym (place-unresolved crates call placement s none_found) ∙ h))
          (unresolved-Holds placement s w)
    | inr (resolved, site) ↦ elim (Bool-cases (is_empty placement.ad_types)) [
      | inl e ↦ err≢ok (sym (place-untyped crates call placement s resolved site e) ∙ h)
      | inr typed ↦
          bind-elim
            (serve crates call placement resolved
              (picks_of crates call s.seeded placement resolved))
            _ (sym (place-served crates call placement s resolved site typed) ∙ h)
            λ (ads, events) r q. subst Holds (ok-injective q) (
              serve-Holds placement i s w resolved site typed ads events (
                serve-Serves crates call placement resolved
                  (picks_of crates call s.seeded placement resolved) ads events r))
    ]
  ]

  places-Holds :
      (ps : List DecisionPlacement)
      → All (λ p. In p call.req.placements) ps
      → (s t : Progress J) → Holds s
      → places crates call ps s ≡ ok t
      → Holds t
  unfolding places
  places-Holds [] i s t w h = subst Holds (cc) w
  places-Holds (p ∷ ps) i s t w h =
      bind-elim (place crates call p s) _ h
        λ u q r. places-Holds ps i.1 u t (place-Holds p i.0 s u w q) r

  -- The outcome of a call that is not refused.
  pub decide_pure-Holds :
      (seeded : ℕ) (out : DecideOutcome J)
      → decide_pure crates seeded call ≡ ok out
      → (t : Progress J) × Holds t
        × (out.response.decisions ≡ t.decisions)
        × (out.events ≡ t.events)
  unfolding decide_pure get
  decide_pure-Holds seeded out h =
      let start : Progress J = record { seeded = seeded; decisions = []; events = [] } in
      let holds : Holds start = record {
        backed = λ id ads q. none≢some q;
        events = λ e i. elim i [ ];
      } in
      elim (Bool-cases (is_empty call.req.placements)) [
        | inl e ↦ let q = rw (e, decide_pure) at h in cc
        | inr some_placements ↦
            let q = rw (some_placements, decide_pure) at h in
            elim (Bool-cases (ltb 32 (length call.req.placements))) [
              | inl e ↦ let r = rw e at q in cc
              | inr few ↦
                  let r = rw few at q in
                  bind-elim (places crates call call.req.placements start) _ r λ t u v. (
                    t,
                    places-Holds call.req.placements (All-of_In _ call.req.placements (λ p i. i))
                        start t holds u,
                    (cc),
                    (cc),
                  )
            ]
      ]
