-- ===== src/Decisions/Decide.antt =====
-- src/decisions.rs: `decide_pure`, the selection for every placement of a request.
pub mod Steps
pub mod Laws
pub mod Response
pub mod Forced
pub mod Validation
use mathlib.Core.Option
use knievel.Base.{
  ltb, if◌then◌else◌, nat_eq, ℤ, int_eq, length, is_empty, Text, text_eq, ℕ, suc, not, Option, none,
  some, List, [], ◌∷◌, ◌++◌,
}
use knievel.Base.Assoc.{insert}
use knievel.Base.Result.{Result, ok, err, ◌>>=◌}
use knievel.Selection.{Candidate, filter_candidates, priority, weighted_random}
use knievel.Decisions.{
  DecisionPlacement, DecideOutcome, placements_required, too_many_placements, ad_types_required,
  Halt, refused, Crates, Call, Progress,
}
use knievel.Decisions.Parts.{
  forced_candidate, build_block, resolve_site, placement_of, forced_id, clamp_count,
}
use knievel.Decisions.Serve.{serve}

module _ {J : Type 0} (crates : Crates J) where
  open crates use {rng, hash_of}

  -- The seed of the n-th call: each one makes a hash builder with keys of its own.
  unfoldable pub selection_seed : ℕ → Text → ℤ → ℕ
  selection_seed n placement_id now_ms = hash_of n placement_id now_ms

  -- The candidates of the top tier.
  unfoldable pub top_of : Call J → DecisionPlacement → ℤ → List Candidate
  unfolding placement_of build_block
  top_of call placement resolved = priority (
      filter_candidates call.project.flights call.project.ads (placement_of placement resolved)
        (build_block call.req.block) call.now_ms)

  -- The picks of the selection, drawn with the n-th seed.
  unfoldable pub drawn : Call J → ℕ → DecisionPlacement → ℤ → List Candidate
  unfolding top_of selection_seed
  drawn call n placement resolved =
      weighted_random rng (top_of call placement resolved) (clamp_count placement.count)
        (selection_seed n placement.id call.now_ms)

  -- An override that is honored replaces the picks by its ad, or by nothing.
  unfoldable pub picks_of : Call J → ℕ → DecisionPlacement → ℤ → List Candidate
  unfolding drawn forced_id forced_candidate
  picks_of call n placement resolved =
      let picks = drawn call n placement resolved in
      if not call.force_active then picks else elim (forced_id placement) [
        | none ↦ picks
        | some ad_id ↦ elim (forced_candidate call.project ad_id) [ none ↦ [] | some c ↦ c ∷ [] ]
      ]

  -- One round of the loop over the placements.
  unfoldable pub place : Call J → DecisionPlacement → Progress J → Result Halt (Progress J)
  unfolding picks_of serve resolve_site
  place call placement s = elim (resolve_site call.project placement) [
    | none ↦ ok (record s { decisions = insert placement.id [] s.decisions })
    | some resolved ↦ if is_empty placement.ad_types then err (refused ad_types_required) else do
      (ads, events) ←
          serve crates call placement resolved (picks_of call s.seeded placement resolved)
      ok (record {
        seeded = suc s.seeded;
        decisions = insert placement.id ads s.decisions;
        events = s.events ++ events;
      })
  ]

  unfoldable pub places : Call J → List DecisionPlacement → Progress J → Result Halt (Progress J)
  unfolding place
  places call [] s = ok s
  places call (p ∷ ps) s = do s' ← place call p s; places call ps s'

  -- `seeded` hash builders were made before.
  unfoldable pub decide_pure : ℕ → Call J → Result Halt (DecideOutcome J)
  unfolding places
  decide_pure seeded call =
      if is_empty call.req.placements
      then err (refused placements_required)
      else if ltb 32 (length call.req.placements)
      then err (refused too_many_placements)
      else do
        s ←
            places call call.req.placements
              (record { seeded = seeded; decisions = []; events = [] })
        ok (record {
          response = record { snapshot_version = call.snapshot_version; decisions = s.decisions };
          events = s.events;
        })
