-- ===== src/Selection/Filter.antt =====
-- Which candidates steps 1, 2 and 4 keep.
use knievel.Base.{
  Bool-cases, ◌==◌, nat_eq, ℤ, ◌≤ℤ◌, eqb_ℤ_iff, int_eq, In, filter, any, is_empty, In-append_left,
  In-append_right, In-append, In-filter, filter-In, In-of_any, any_of_In, map-In, In-map, contains,
  In-of_contains, contains_of_In, text_eq, ◌≡◌, refl, subst, ◌↔◌, ◌⊎◌, inl, inr, Bool, true, false,
  not, ◌&&◌, ◌||◌, Option, none, some, List, [], ◌∷◌, arith,
}
use knievel.Selection.{
  Flight, Ad, Placement, BlockSet, Candidate, active_at, targets_placement, skips, ads_of,
  filter_candidates, after_start, before_end,
}

-- The date window holds the time.
pub record InWindow (f : Flight) (now_ms : ℤ) : Type 0 where
  pub started : (start : ℤ) → f.start_ms ≡ some start → start ≤ℤ now_ms
  pub not_over : (end : ℤ) → f.end_ms ≡ some end → now_ms ≤ℤ end

-- A list of the flight that is not empty has an entry among those of the placement.
abbrev pub Meets : List ℤ → List ℤ → Type 0
Meets targets offered = (targets ≡ []) ⊎ ((a : ℤ) × In a targets × In a offered)

pub record Targets (f : Flight) (p : Placement) : Type 0 where
  pub site : Meets f.site_ids (p.site_id ∷ [])
  pub zone : Meets f.zone_ids p.zone_ids
  pub ad_type : Meets f.ad_types p.ad_types

pub record IsEligible (f : Flight) (p : Placement) (b : BlockSet) (now_ms : ℤ) : Type 0 where
  pub active : f.is_active ≡ true
  pub window : InWindow f now_ms
  pub targeted : Targets f p
  pub advertiser_allowed : ¬ In f.advertiser_id b.advertiser_ids
  pub campaign_allowed : ¬ In f.campaign_id b.campaign_ids

active_at→ : (f : Flight) (now_ms : ℤ) → active_at f now_ms ≡ true → InWindow f now_ms
unfolding active_at
active_at→ f now_ms h = record {
  started = λ start e. ground arith;
  not_over = λ end e. ground arith;
}

→after_start :
    (s : Option ℤ) (now_ms : ℤ)
    → ((start : ℤ) → s ≡ some start → start ≤ℤ now_ms)
    → after_start s now_ms ≡ true
unfolding after_start
→after_start none now_ms h = refl
→after_start (some start) now_ms h = ground (arith, h start refl)

→before_end :
    (s : Option ℤ) (now_ms : ℤ)
    → ((end : ℤ) → s ≡ some end → now_ms ≤ℤ end)
    → before_end s now_ms ≡ true
unfolding before_end
→before_end none now_ms h = refl
→before_end (some end) now_ms h = ground (arith, h end refl)

→active_at : (f : Flight) (now_ms : ℤ) → InWindow f now_ms → active_at f now_ms ≡ true
unfolding active_at
→active_at f now_ms w =
    rw (→after_start f.start_ms now_ms w.started) (→before_end f.end_ms now_ms w.not_over)

-- The test of one list in `targets_placement`.
unfoldable pub misses : List ℤ → List ℤ → Bool
misses targets offered = not (is_empty targets) && not (any (contains targets) offered)

pub misses→ : (targets offered : List ℤ) → misses targets offered ≡ false → Meets targets offered
unfolding misses
misses→ [] offered h = inl refl
misses→ (t ∷ ts) offered h =
    let (a, i, c) = In-of_any (contains (t ∷ ts)) offered (ground arith) in
    inr (a, In-of_contains (t ∷ ts) a c, i)

pub →misses : (targets offered : List ℤ) → Meets targets offered → misses targets offered ≡ false
unfolding misses
→misses targets offered (inl e) = rw e refl
→misses targets offered (inr (a, i, j)) =
    ground (arith, any_of_In (contains targets) a offered j (contains_of_In targets a i))

targets_placement_lem :
    (f : Flight) (p : Placement)
    → targets_placement f p
      ≡ not (
          misses f.site_ids (p.site_id ∷ [])
          || misses f.zone_ids p.zone_ids
          || misses f.ad_types p.ad_types)
unfolding targets_placement misses
targets_placement_lem f p = ground arith

skips→ :
    (f : Flight) (p : Placement) (b : BlockSet) (now_ms : ℤ)
    → skips f p b now_ms ≡ false
    → IsEligible f p b now_ms
unfolding skips
skips→ f p b now_ms h = record {
  active = ground arith;
  window = active_at→ f now_ms (ground arith);
  targeted = record {
    site = misses→ f.site_ids (p.site_id ∷ []) (ground (arith, targets_placement_lem f p));
    zone = misses→ f.zone_ids p.zone_ids (ground (arith, targets_placement_lem f p));
    ad_type = misses→ f.ad_types p.ad_types (ground (arith, targets_placement_lem f p));
  };
  advertiser_allowed = λ i. ground (arith, contains_of_In b.advertiser_ids f.advertiser_id i);
  campaign_allowed = λ i. ground (arith, contains_of_In b.campaign_ids f.campaign_id i);
}

→skips :
    (f : Flight) (p : Placement) (b : BlockSet) (now_ms : ℤ)
    → IsEligible f p b now_ms
    → skips f p b now_ms ≡ false
unfolding skips
→skips f p b now_ms h = ground (
  arith,
  →active_at f now_ms h.window,
  targets_placement_lem f p,
  →misses f.site_ids (p.site_id ∷ []) h.targeted.site,
  →misses f.zone_ids p.zone_ids h.targeted.zone,
  →misses f.ad_types p.ad_types h.targeted.ad_type,
  In-of_contains b.advertiser_ids f.advertiser_id,
  In-of_contains b.campaign_ids f.campaign_id,
)

-- The ad belongs to the flight and both are served.
pub record IsServed (ads : List Ad) (c : Candidate) : Type 0 where
  pub listed : In c.ad ads
  pub active : c.ad.is_active ≡ true
  pub owned : c.ad.flight_id ≡ c.flight.id

abbrev is_served_by : Flight → Ad → Bool
is_served_by f a = a.is_active && a.flight_id == f.id

ads_of→ :
    (f : Flight) (ads : List Ad) (c : Candidate)
    → In c (ads_of f ads)
    → (c.flight ≡ f) × IsServed ads c
unfolding ads_of
ads_of→ f ads c i =
    let (a, j, e) =
      In-map (λ (a : Ad). record { ad = a; flight = f }) c (filter (is_served_by f) ads) i in
    let (listed, served) = In-filter (is_served_by f) a ads j in
    rw e (
      refl,
      record {
        listed = listed;
        active = ground arith;
        owned = ground (arith, eqb_ℤ_iff a.flight_id f.id);
      },
    )

→ads_of :
    (f : Flight) (ads : List Ad) (c : Candidate)
    → c.flight ≡ f
    → IsServed ads c
    → In c (ads_of f ads)
unfolding ads_of
→ads_of f ads c q h =
    subst (λ g. In c (ads_of g ads)) q
      (map-In (λ (a : Ad). record { ad = a; flight = c.flight }) c.ad
        (filter (is_served_by c.flight) ads)
        (filter-In (is_served_by c.flight) c.ad ads h.listed
          (ground (arith, eqb_ℤ_iff c.ad.flight_id c.flight.id))))

module _ (ads : List Ad) (p : Placement) (b : BlockSet) (now_ms : ℤ) where
  filter_candidates→ :
      (flights : List Flight) (c : Candidate)
      → In c (filter_candidates flights ads p b now_ms)
      → In c.flight flights × IsEligible c.flight p b now_ms × IsServed ads c
  unfolding filter_candidates
  filter_candidates→ [] c i = elim i [ ]
  filter_candidates→ (f ∷ flights) c i = elim (Bool-cases (skips f p b now_ms)) [
    | inl s ↦ let (l, e, v) = filter_candidates→ flights c (rw s at i) in (inr l, e, v)
    | inr s ↦
        elim (In-append c (ads_of f ads) (filter_candidates flights ads p b now_ms) (rw s at i)) [
          | inl j ↦ let (e, v) = ads_of→ f ads c j in (inl e, rw e (skips→ f p b now_ms s), v)
          | inr j ↦ let (l, e, v) = filter_candidates→ flights c j in (inr l, e, v)
        ]
  ]

  →filter_candidates :
      (flights : List Flight) (c : Candidate)
      → In c.flight flights
      → IsEligible c.flight p b now_ms
      → IsServed ads c
      → In c (filter_candidates flights ads p b now_ms)
  unfolding filter_candidates
  →filter_candidates [] c i e v = elim i [ ]
  →filter_candidates (f ∷ flights) c (inl q) e v =
      rw (subst (λ g. skips g p b now_ms ≡ false) q (→skips c.flight p b now_ms e))
        (In-append_left c (ads_of f ads) _ (→ads_of f ads c q v))
  →filter_candidates (f ∷ flights) c (inr i) e v = elim (Bool-cases (skips f p b now_ms)) [
    | inl s ↦ rw s (→filter_candidates flights c i e v)
    | inr s ↦ rw s (In-append_right c (ads_of f ads) _ (→filter_candidates flights c i e v))
  ]

  -- A candidate comes out of the filter exactly when its flight is in the snapshot and eligible (it
  -- is active, its window holds the time, it targets the placement, and neither its advertiser nor
  -- its campaign is blocked), and its ad is in the snapshot, active, and of that flight.
  pub filter_candidates_iff :
      (flights : List Flight) (c : Candidate)
      → In c (filter_candidates flights ads p b now_ms)
        ↔ (In c.flight flights × IsEligible c.flight p b now_ms × IsServed ads c)
  filter_candidates_iff flights c =
      (filter_candidates→ flights c, λ h. →filter_candidates flights c h.0 h.1 h.2)
