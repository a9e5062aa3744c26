-- ===== src/Selection.antt =====
-- src/selection.rs: the ad selection algorithm over the in-memory snapshot. The random number
-- generator (`rand::rngs::StdRng`) is a parameter.
pub mod Filter
pub mod Priority
pub mod Weighted
pub mod Pipeline
use knievel.Base.{
  ltb, if◌then◌else◌, ◌==◌, nat_eq, ℤ, pos_part, ltb_ℤ, int_eq, length, get_elem?, set, filter, any,
  is_empty, contains, text_eq, ℕ, zero, suc, ◌+◌, ◌-◌, ◌%◌, ◌^◌, ◌<◌, min, Bool, true, false, not,
  ◌&&◌, ◌||◌, Option, none, some, List, [], ◌∷◌, ◌++◌, map,
}

pub record Flight : Type 0 where
  pub id : ℤ
  pub campaign_id : ℤ
  pub advertiser_id : ℤ
  pub priority_tier : ℤ
  pub start_ms : Option ℤ
  pub end_ms : Option ℤ
  pub site_ids : List ℤ
  pub zone_ids : List ℤ
  pub ad_types : List ℤ
  pub is_active : Bool

pub record Ad : Type 0 where
  pub id : ℤ
  pub flight_id : ℤ
  pub creative_id : Option ℤ
  pub weight : ℤ
  pub is_active : Bool

pub record Placement : Type 0 where
  pub site_id : ℤ
  pub zone_ids : List ℤ
  pub ad_types : List ℤ
  pub count : ℕ

pub record BlockSet : Type 0 where
  pub creative_ids : List ℤ
  pub advertiser_ids : List ℤ
  pub campaign_ids : List ℤ

pub record Candidate : Type 0 where
  pub ad : Ad
  pub flight : Flight

after_start : Option ℤ → ℤ → Bool
after_start none now_ms = true
after_start (some start) now_ms = not (ltb_ℤ now_ms start)

before_end : Option ℤ → ℤ → Bool
before_end none now_ms = true
before_end (some end) now_ms = not (ltb_ℤ end now_ms)

-- Both ends of the window are inclusive.
pub active_at : Flight → ℤ → Bool
unfolding after_start before_end
active_at f now_ms = after_start f.start_ms now_ms && before_end f.end_ms now_ms

-- An empty list of the flight targets everything.
pub targets_placement : Flight → Placement → Bool
unfolding any contains
targets_placement f p =
    if not (is_empty f.site_ids) && not (contains f.site_ids p.site_id)
    then false
    else if not (is_empty f.zone_ids) && not (any (contains f.zone_ids) p.zone_ids)
    then false
    else if not (is_empty f.ad_types) && not (any (contains f.ad_types) p.ad_types)
    then false
    else true

-- The guards of the loop over the flights, in its order.
unfoldable pub skips : Flight → Placement → BlockSet → ℤ → Bool
unfolding active_at targets_placement contains
skips f placement block now_ms =
    if not f.is_active
    then true
    else if not (active_at f now_ms)
    then true
    else if not (targets_placement f placement)
    then true
    else if contains block.advertiser_ids f.advertiser_id
    then true
    else contains block.campaign_ids f.campaign_id

-- The inner loop: the active ads of one flight.
unfoldable pub ads_of : Flight → List Ad → List Candidate
unfolding filter
ads_of f ads =
    map (λ ad. record { ad = ad; flight = f })
      (filter (λ (a : Ad). a.is_active && a.flight_id == f.id) ads)

unfoldable pub filter_candidates : List Flight → List Ad → Placement → BlockSet → ℤ → List Candidate
filter_candidates [] ads placement block now_ms = []
filter_candidates (f ∷ flights) ads placement block now_ms =
    let rest = filter_candidates flights ads placement block now_ms in
    if skips f placement block now_ms then rest else ads_of f ads ++ rest

abbrev pub tier : Candidate → ℤ
tier c = c.flight.priority_tier

-- `Iterator::min` over the tiers that are left, from the least one so far.
min_from : ℤ → List Candidate → ℤ
min_from top [] = top
min_from top (c ∷ cs) = min_from (if ltb_ℤ (tier c) top then tier c else top) cs

unfoldable pub priority : List Candidate → List Candidate
unfolding min_from filter
priority [] = []
priority (c ∷ cs) = filter (λ d. tier d == min_from (tier c) cs) (c ∷ cs)

-- `rand::rngs::StdRng`, with the one law of `gen_range` that the code relies on.
pub record Rng : Type 1 where
  pub State : Type 0
  pub seed_from_u64 : ℕ → State
  pub gen_range : State → ℕ → ℕ × State
  pub gen_range-lt : (s : State) (high : ℕ) → 0 < high → (gen_range s high).0 < high

abbrev pub sum : List ℕ → ℕ
sum [] = 0
sum (w ∷ ws) = w + sum ws

-- The scan for the slot that `roll` falls in: exhausted slots have weight 0 and are passed over.
scan : List ℕ → ℕ → ℕ → Option ℕ
scan [] i roll = none
scan (w ∷ ws) i roll =
    let skip = scan ws (suc i) roll in
    let rest = scan ws (suc i) (roll - w) in
    if w == 0 then skip else if ltb roll w then some i else rest

-- Weights are at least 0 and are kept as numbers.
unfoldable pub weight_of : Candidate → ℕ
weight_of c = pos_part c.ad.weight

module _ (rng : Rng) where
  open rng use {State, seed_from_u64, gen_range}

  -- The rounds of the sampling loop. An index past the end (the source would panic) ends the loop;
  -- `scan` gives none.
  draw : List Candidate → ℕ → State → List ℕ → List Candidate → List Candidate
  unfolding scan
  draw candidates zero s weights picks = picks
  draw candidates (suc rounds) s weights picks =
      let total = sum weights in
      let (roll, s') = gen_range s total in
      let next : List Candidate = elim (scan weights 0 roll) [
        | none ↦ picks
        | some i ↦ elim (get_elem? candidates i) [
          | none ↦ picks
          | some c ↦ draw candidates rounds s' (set weights i 0) (picks ++ c ∷ [])
        ]
      ] in
      if total == 0 then picks else next

  -- `count.min(candidates.len() as u32)` rounds at most.
  unfoldable pub weighted_random : List Candidate → ℕ → ℕ → List Candidate
  unfolding draw weight_of
  weighted_random candidates count seed =
      if is_empty candidates || count == 0
      then []
      else draw candidates (min count (length candidates % 2 ^ 32)) (seed_from_u64 seed)
          (map weight_of candidates) []
