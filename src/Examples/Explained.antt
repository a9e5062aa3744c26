-- ===== src/Examples/Explained.antt =====
-- The theorem on the explainer at the small deployment.
use knievel.Base.{nat_eq, int_eq, In, text_eq, pos, ◌≡◌, ◌↔◌, none, [], ◌∷◌}
use knievel.Selection.{filter_candidates}
use knievel.Selection.Filter.{IsServed}
use knievel.Decisions.Parts.{build_block}
use knievel.Decisions.Decide.{picks_of}
use knievel.Decisions.Explain.{explained_placement, explained_picks}
use knievel.Decisions.Explain.Laws.{PassesAll, explained_picks-Agree}
use knievel.Examples.World.{toy_crates, call1, asked, candidate1, flight1, ad1, ad2}

explained_picks-Agree_example :
    (explained_picks toy_crates call1 0 asked (pos 4) ≡ picks_of toy_crates call1 0 asked (pos 4))
    × (In candidate1 (
          filter_candidates
            (flight1 ∷ [])
            (ad1 ∷ ad2 ∷ [])
            (explained_placement asked (pos 4))
            (build_block none)
            (pos 5000))
        ↔ (In flight1 (flight1 ∷ [])
            × IsServed (ad1 ∷ ad2 ∷ []) candidate1
            × PassesAll (build_block none) asked (pos 4) (pos 5000) flight1 ad1))
explained_picks-Agree_example = explained_picks-Agree toy_crates call1 0 asked (pos 4) candidate1
