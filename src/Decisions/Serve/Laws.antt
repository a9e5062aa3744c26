-- ===== src/Decisions/Serve/Laws.antt =====
-- What the loop over the picks of a placement returns.
use knievel.Base.{
  nat_eq, ℤ, int_eq, length, In, Text, text_eq, suc, ◌≤◌, ◌≡◌, refl, sym, ap, subst, inl, inr,
  Option, none, some, List, [], ◌∷◌, arith,
}
use knievel.Base.Result.{ok, ok_or-bind-elim, bind-elim}
use knievel.Selection.{Candidate}
use knievel.Hmac.{sign}
use knievel.Events.{Event}
use knievel.Decisions.{DecisionPlacement, DecisionCreative, DecisionAd, panicked, Crates, Call}
use knievel.Decisions.Parts.{mint_nonce, ad_of}
use knievel.Decisions.Serve.{payload_of, creative_of_ad, decision_event, serve}

module _ {J : Type 0} (crates : Crates J) (call : Call J) (placement : DecisionPlacement)
    (resolved : ℤ) where
  -- The event of a pick.
  abbrev pub event_of : Candidate → Event
  event_of c =
      decision_event crates call.principal call.project_id placement resolved c
        (mint_nonce call.now_ms c.ad.id) call.snapshot_version call.now_ms call.req.context

  -- The ad is built of the pick: its URLs carry the pick's signed payload, and its creative is the
  -- one of the snapshot.
  pub record IsBuilt (c : Candidate) (a : DecisionAd J) : Type 0 where
    pub signed : Text
    pub signs :
        sign crates.crypto (payload_of crates call placement c) call.project.hmac_secret
        ≡ some signed
    pub creative : Option (DecisionCreative J)
    pub found : creative_of_ad crates call placement c signed ≡ some creative
    pub made : a ≡ ad_of resolved c signed creative

  -- What is said of the ads and the events of some picks.
  pub record Serves (cs : List Candidate) (ads : List (DecisionAd J)) (events : List Event)
      : Type 0 where
    pub built :
        (a : DecisionAd J)
        → In a ads
        → (c : Candidate) × In c cs × IsBuilt c a × In (event_of c) events
    pub logged :
        (e : Event)
        → In e events
        → (c : Candidate) × In c cs
          × (e ≡ event_of c)
          × ((a : DecisionAd J) × In a ads × IsBuilt c a)
    pub counted : length ads ≡ length events
    pub bounded : length ads ≤ length cs

  abbrev Output : Type 0
  Output = List (DecisionAd J) × List Event

  -- The end of one round, and what it returns.
  abbrev finish : Candidate → Text → Output → Option (Option (DecisionCreative J)) → Output
  finish c signed (ads, events) creative = elim creative [
    | none ↦ (ads, events)
    | some q ↦ (ad_of resolved c signed q ∷ ads, event_of c ∷ events)
  ]

  skip-Serves :
      (c : Candidate) (cs : List Candidate) (ads : List (DecisionAd J)) (events : List Event)
      → Serves cs ads events
      → Serves (c ∷ cs) ads events
  skip-Serves c cs ads events w = record {
    built = λ a i. let (d, j, b, l) = w.built a i in (d, inr j, b, l);
    logged = λ e i. let (d, j, q, b) = w.logged e i in (d, inr j, q, b);
    counted = w.counted;
    bounded = let h = w.bounded in omega arith;
  }

  push-Serves :
      (c : Candidate) (cs : List Candidate) (ads : List (DecisionAd J)) (events : List Event)
      (a : DecisionAd J)
      → IsBuilt c a
      → Serves cs ads events
      → Serves (c ∷ cs) (a ∷ ads) (event_of c ∷ events)
  push-Serves c cs ads events a built w = record {
    built = λ b i. elim i [
      | inl e ↦ (c, inl refl, subst (IsBuilt c) (sym e) built, inl refl)
      | inr j ↦ let (d, k, m, l) = w.built b j in (d, inr k, m, inr l)
    ];
    logged = λ e i. elim i [
      | inl q ↦ (c, inl refl, q, (a, inl refl, built))
      | inr j ↦ let (d, k, q, (b, l, m)) = w.logged e j in (d, inr k, q, (b, inr l, m))
    ];
    counted = ap suc w.counted;
    bounded = let h = w.bounded in omega arith;
  }

  none_served : Serves [] [] []
  none_served = record {
    built = λ a i. elim i [ ];
    logged = λ e i. elim i [ ];
    counted = refl;
    bounded = omega arith;
  }

  finish-Serves :
      (c : Candidate) (cs : List Candidate) (signed : Text)
      → sign crates.crypto (payload_of crates call placement c) call.project.hmac_secret
        ≡ some signed
      → (ads : List (DecisionAd J)) (events : List Event) → Serves cs ads events
      → (creative : Option (Option (DecisionCreative J)))
      → creative_of_ad crates call placement c signed ≡ creative
      → (o : Output) → o ≡ finish c signed (ads, events) creative
      → Serves (c ∷ cs) o.0 o.1
  finish-Serves c cs signed signs ads events w none q o e =
      subst (λ (o : Output). Serves (c ∷ cs) o.0 o.1) (sym e) (skip-Serves c cs ads events w)
  finish-Serves c cs signed signs ads events w (some creative) q o e =
      let b : IsBuilt c (ad_of resolved c signed creative) = record {
        signed = signed;
        signs = signs;
        creative = creative;
        found = q;
        made = refl;
      } in
      subst (λ (o : Output). Serves (c ∷ cs) o.0 o.1) (sym e)
        (push-Serves c cs ads events (ad_of resolved c signed creative) b w)

  pub serve-Serves :
      (cs : List Candidate) (ads : List (DecisionAd J)) (events : List Event)
      → serve crates call placement resolved cs ≡ ok (ads, events)
      → Serves cs ads events
  unfolding serve
  serve-Serves [] ads events h =
      let empty : ([], []) ≡ (ads, events) = cc in
      subst (λ (o : Output). Serves [] o.0 o.1) empty none_served
  serve-Serves (c ∷ cs) ads events h =
      ok_or-bind-elim
        (sign crates.crypto (payload_of crates call placement c) call.project.hmac_secret) panicked
        _ h
        λ signed signs h1.
          bind-elim (serve crates call placement resolved cs) _ h1 λ (bs, es) rest h2.
            finish-Serves c cs signed signs bs es (serve-Serves cs bs es rest)
              (creative_of_ad crates call placement c signed) refl (ads, events)
              (let q : ok (finish c signed (bs, es) (creative_of_ad crates call placement c signed))
                    ≡ ok (ads, events) =
                  h2 in
                cc)
