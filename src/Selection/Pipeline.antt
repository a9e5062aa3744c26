-- ===== src/Selection/Pipeline.antt =====
-- Steps 1 to 6 together: what an ad that is picked satisfies.
use knievel.Base.{nat_eq, ℤ, ◌≤ℤ◌, int_eq, In, text_eq, ℕ, ◌<◌, List}
use knievel.Selection.{
  Flight, Ad, Placement, BlockSet, Candidate, Rng, tier, filter_candidates, priority, weight_of,
  weighted_random,
}
use knievel.Selection.Filter.{IsEligible, IsServed, filter_candidates_iff}
use knievel.Selection.Priority.{priority_iff}
use knievel.Selection.Weighted.{weighted_random-In}

-- The flight and the ad of a candidate pass the filter.
pub record Passes (flights : List Flight) (ads : List Ad) (p : Placement) (b : BlockSet)
    (now_ms : ℤ) (c : Candidate) : Type 0 where
  pub listed : In c.flight flights
  pub eligible : IsEligible c.flight p b now_ms
  pub served : IsServed ads c

module _ (flights : List Flight) (ads : List Ad) (p : Placement) (b : BlockSet) (now_ms : ℤ) where
  -- A pick passes the filter, has a positive weight, and no candidate that passes the filter has a
  -- lower tier, whatever its weight.
  pub pick-Passes :
      (rng : Rng) (count seed : ℕ) (c : Candidate)
      → In c (weighted_random rng (priority (filter_candidates flights ads p b now_ms)) count seed)
      → Passes flights ads p b now_ms c
        × (0 < weight_of c)
        × ((d : Candidate) → Passes flights ads p b now_ms d → tier c ≤ℤ tier d)
  pick-Passes rng count seed c i =
      let cands = filter_candidates flights ads p b now_ms in
      let (kept, positive) = weighted_random-In rng (priority cands) count seed c i in
      let (passed, least) = ((priority_iff cands).0 c).0 kept in
      let (l, e, s) = (filter_candidates_iff ads p b now_ms flights c).0 passed in
      (
        record { listed = l; eligible = e; served = s },
        positive,
        λ d q.
            least d
              ((filter_candidates_iff ads p b now_ms flights d).1 (q.listed, q.eligible, q.served)),
      )
