-- ===== src/Decisions/Decide/Validation.antt =====
-- Which requests `decide_pure` refuses, and that every other one gets an answer for each placement.
use knievel.Base.{
  ltb, if◌then◌else◌, Bool-cases, Option-cases, nat_eq, ℤ, int_eq, length, any, is_empty, text_eq,
  ℕ, ◌≤◌, ◌≡◌, refl, sym, ◌∙◌, subst, inl, inr, Bool, true, false, Option, none, some, List, [],
  ◌∷◌, arith,
}
use knievel.Base.Result.{Result, err, ok_or, Returns, bind-Returns}
use knievel.Selection.{Candidate}
use knievel.Hmac.{sign}
use knievel.Hmac.Keys.{sign-total}
use knievel.Decisions.{
  DecisionPlacement, DecideOutcome, DecideError, placements_required, too_many_placements,
  ad_types_required, Halt, panicked, refused, Crates, Call, Progress,
}
use knievel.Decisions.Parts.{resolve_site}
use knievel.Decisions.Serve.{payload_of, serve}
use knievel.Decisions.Decide.{picks_of, place, places, decide_pure}
use knievel.Decisions.Decide.Steps.{place-unresolved, place-untyped, place-served}

module _ {J : Type 0} (crates : Crates J) (call : Call J) where
  -- A placement whose site is known must list its ad types.
  abbrev pub is_untyped : DecisionPlacement → Bool
  is_untyped p = elim (resolve_site call.project p) [
    | none ↦ false
    | some resolved ↦ is_empty p.ad_types
  ]

  -- The refusal of a request, if it gets one.
  abbrev pub refusal : Option DecideError
  refusal =
      if is_empty call.req.placements
      then some placements_required
      else if ltb 32 (length call.req.placements)
      then some too_many_placements
      else if any is_untyped call.req.placements
      then some ad_types_required
      else none

  signed-Returns :
      length call.project_id ≤ 255
      → (placement : DecisionPlacement) (c : Candidate)
      → Returns (
          ok_or
            (sign crates.crypto (payload_of crates call placement c) call.project.hmac_secret)
            panicked)
  unfolding payload_of
  signed-Returns short placement c =
      let (signed, e) =
        sign-total crates.crypto (payload_of crates call placement c) short
          call.project.hmac_secret in
      (signed, rw e refl)

  serve-Returns :
      length call.project_id ≤ 255
      → (placement : DecisionPlacement) (resolved : ℤ) (cs : List Candidate)
      → Returns (serve crates call placement resolved cs)
  unfolding serve
  serve-Returns short placement resolved [] = (([], []), refl)
  serve-Returns short placement resolved (c ∷ cs) =
      bind-Returns
        (ok_or (sign crates.crypto (payload_of crates call placement c) call.project.hmac_secret)
          panicked)
        _ (signed-Returns short placement c)
        λ signed e.
          bind-Returns (serve crates call placement resolved cs) _
            (serve-Returns short placement resolved cs) λ o q. (_, refl)

  untyped-by-site :
      (p : DecisionPlacement) (resolved : ℤ)
      → resolve_site call.project p ≡ some resolved
      → is_untyped p ≡ is_empty p.ad_types
  untyped-by-site p resolved e = rw (e, is_untyped) refl

  -- A round whose placement is not untyped goes on.
  place-Returns :
      length call.project_id ≤ 255
      → (p : DecisionPlacement) (s : Progress J) → is_untyped p ≡ false
      → Returns (place crates call p s)
  place-Returns short p s typed = elim (Option-cases (resolve_site call.project p)) [
    | inl e ↦ (_, place-unresolved crates call p s e)
    | inr (resolved, e) ↦
        subst Returns
          (sym
            (place-served crates call p s resolved e (sym (untyped-by-site p resolved e) ∙ typed)))
          (bind-Returns (serve crates call p resolved (picks_of crates call s.seeded p resolved)) _
            (serve-Returns short p resolved (picks_of crates call s.seeded p resolved))
            λ o q. (_, refl))
  ]

  place-refused :
      (p : DecisionPlacement) (s : Progress J)
      → is_untyped p ≡ true
      → place crates call p s ≡ err (refused ad_types_required)
  place-refused p s h = elim (Option-cases (resolve_site call.project p)) [
    | inl e ↦ let q : false ≡ is_untyped p = rw (e, is_untyped) refl in cc
    | inr (resolved, e) ↦
        place-untyped crates call p s resolved e (sym (untyped-by-site p resolved e) ∙ h)
  ]

  places-Returns :
      length call.project_id ≤ 255
      → (ps : List DecisionPlacement) (s : Progress J) → any is_untyped ps ≡ false
      → Returns (places crates call ps s)
  unfolding places any
  places-Returns short [] s h = (s, refl)
  places-Returns short (p ∷ ps) s h =
      bind-Returns (place crates call p s) _ (place-Returns short p s (ground arith))
        λ t q. places-Returns short ps t (ground arith)

  places-refused :
      length call.project_id ≤ 255
      → (ps : List DecisionPlacement) (s : Progress J) → any is_untyped ps ≡ true
      → places crates call ps s ≡ err (refused ad_types_required)
  unfolding places any
  places-refused short [] s h = cc
  places-refused short (p ∷ ps) s h = elim (Bool-cases (is_untyped p)) [
    | inl e ↦ rw (place-refused p s e) refl
    | inr e ↦
        let (t, q) = place-Returns short p s e in
        let r : any is_untyped ps ≡ true = ground arith in rw q (places-refused short ps t r)
  ]

  -- The verdict on a request: its refusal, or an outcome.
  abbrev pub Decides : Option DecideError → Result Halt (DecideOutcome J) → Type 0
  Decides none r = Returns r
  Decides (some e) r = r ≡ err (refused e)

  -- When the project's id fits the length byte of a signed record, a request is refused exactly as
  -- `refusal` says: for no or more than 32 placements, or for one with a known site and no ad types.
  -- Every other request is answered, also one with a placement that identifies no site of the project,
  -- with ad types or without.
  pub decide_pure-refusal :
      (seeded : ℕ) → length call.project_id ≤ 255 → Decides refusal (decide_pure crates seeded call)
  unfolding decide_pure
  decide_pure-refusal seeded short =
      let start : Progress J = record { seeded = seeded; decisions = []; events = [] } in
      elim (Bool-cases (is_empty call.req.placements)) [
        | inl e ↦ rw (e, refusal, decide_pure) refl
        | inr e ↦ elim (Bool-cases (ltb 32 (length call.req.placements))) [
          | inl f ↦ rw (e, refusal, decide_pure) (rw f refl)
          | inr f ↦ elim (Bool-cases (any is_untyped call.req.placements)) [
            | inl g ↦
                rw (e, refusal, decide_pure)
                  (rw f (rw g (rw (places-refused short call.req.placements start g) refl)))
            | inr g ↦
                let (t, q) = places-Returns short call.req.placements start g in
                rw (e, refusal, decide_pure)
                  (rw f (
                    rw g (
                      bind-Returns (places crates call call.req.placements start) _ (t, q)
                        λ u r. (_, refl))))
          ]
        ]
      ]
