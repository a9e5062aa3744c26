-- ===== src/Decisions/Decide/Steps.antt =====
-- The three ways a round of `decide_pure` goes.
use knievel.Base.{
  nat_eq, ℤ, int_eq, is_empty, text_eq, suc, ◌≡◌, refl, true, false, none, some, List, [], ◌++◌,
}
use knievel.Base.Assoc.{insert}
use knievel.Base.Result.{Result, ok, err, ◌>>=◌}
use knievel.Events.{Event}
use knievel.Decisions.{
  DecisionPlacement, DecisionAd, Halt, refused, ad_types_required, Crates, Call, Progress,
}
use knievel.Decisions.Parts.{resolve_site}
use knievel.Decisions.Serve.{serve}
use knievel.Decisions.Decide.{picks_of, place}

module _ {J : Type 0} (crates : Crates J) (call : Call J) (placement : DecisionPlacement)
    (s : Progress J) where
  pub place-unresolved :
      resolve_site call.project placement ≡ none
      → place crates call placement s
        ≡ ok (record s { decisions = insert placement.id [] s.decisions })
  unfolding place
  place-unresolved e = rw (e, place) refl

  pub place-untyped :
      (resolved : ℤ)
      → resolve_site call.project placement ≡ some resolved
      → is_empty placement.ad_types ≡ true
      → place crates call placement s ≡ err (refused ad_types_required)
  unfolding place
  place-untyped resolved e f = rw (e, place) (rw f refl)

  -- The state behind a round that returns.
  abbrev pub after_serve : List (DecisionAd J) × List Event → Result Halt (Progress J)
  after_serve (ads, events) = ok (record {
    seeded = suc s.seeded;
    decisions = insert placement.id ads s.decisions;
    events = s.events ++ events;
  })

  pub place-served :
      (resolved : ℤ)
      → resolve_site call.project placement ≡ some resolved
      → is_empty placement.ad_types ≡ false
      → place crates call placement s ≡ (
          serve crates call placement resolved (picks_of crates call s.seeded placement resolved)
          >>= after_serve)
  unfolding place
  place-served resolved e f = rw (e, place) (rw f refl)
