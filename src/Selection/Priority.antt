-- ===== src/Selection/Priority.antt =====
-- Step 5 keeps exactly the candidates of the least tier.
use knievel.Base.{
  if◌then◌else◌, Bool-cases, ◌==◌, nat_eq, eq_of_==, ==_refl, ℤ, ◌≤ℤ◌, ltb_ℤ, eqb_ℤ_iff, int_eq, In,
  In-filter, filter-In, text_eq, ◌≡◌, refl, sym, subst, ◌↔◌, ◌⊎◌, inl, inr, Bool, List, [], ◌∷◌,
  arith,
}
use knievel.Selection.{Candidate, tier, min_from, priority}

min_from_least :
    (cs : List Candidate) (top : ℤ)
    → (min_from top cs ≤ℤ top) × ((c : Candidate) → In c cs → min_from top cs ≤ℤ tier c)
unfolding min_from
min_from_least [] top = (omega arith, λ c i. elim i [ ])
min_from_least (d ∷ cs) top =
    let least : ℤ = if ltb_ℤ (tier d) top then tier d else top in
    let (below, all) = min_from_least cs least in
    (ground (arith, below), λ c i. ground (arith, below, all c))

min_from_attained :
    (cs : List Candidate) (top : ℤ)
    → (min_from top cs ≡ top) ⊎ ((c : Candidate) × In c cs × (min_from top cs ≡ tier c))
unfolding min_from
min_from_attained [] top = inl refl
min_from_attained (d ∷ cs) top = elim (Bool-cases (ltb_ℤ (tier d) top)) [
  | inl l ↦ rw l (elim (min_from_attained cs (tier d)) [
    | inl e ↦ inr (d, inl refl, e)
    | inr (c, i, e) ↦ inr (c, inr i, e)
  ])
  | inr g ↦
      rw g (elim (min_from_attained cs top) [ inl e ↦ inl e | inr (c, i, e) ↦ inr (c, inr i, e) ])
]

-- The least tier of a list that is not empty.
abbrev top_of : Candidate → List Candidate → ℤ
top_of c cs = min_from (tier c) cs

top_of_least :
    (c : Candidate) (cs : List Candidate) (d : Candidate) → In d (c ∷ cs) → top_of c cs ≤ℤ tier d
top_of_least c cs d (inl e) = rw e (min_from_least cs (tier c)).0
top_of_least c cs d (inr i) = (min_from_least cs (tier c)).1 d i

top_of_attained :
    (c : Candidate) (cs : List Candidate) → (d : Candidate) × In d (c ∷ cs) × (tier d ≡ top_of c cs)
top_of_attained c cs = elim (min_from_attained cs (tier c)) [
  | inl e ↦ (c, inl refl, sym e)
  | inr (d, i, e) ↦ (d, inr i, sym e)
]

abbrev is_top : Candidate → List Candidate → Candidate → Bool
is_top c cs d = tier d == top_of c cs

priority→ :
    (cs : List Candidate) (c : Candidate)
    → In c (priority cs)
    → In c cs × ((d : Candidate) → In d cs → tier c ≤ℤ tier d)
unfolding priority
priority→ [] c i = elim i [ ]
priority→ (d ∷ cs) c i =
    let (listed, top) = In-filter (is_top d cs) c (d ∷ cs) i in
    (listed, λ e j. rw (eq_of_== (tier c) (top_of d cs) top) (top_of_least d cs e j))

→priority :
    (cs : List Candidate) (c : Candidate)
    → In c cs
    → ((d : Candidate) → In d cs → tier c ≤ℤ tier d)
    → In c (priority cs)
unfolding priority
→priority [] c i least = elim i [ ]
→priority (d ∷ cs) c i least =
    let (e, j, q) = top_of_attained d cs in
    filter-In (is_top d cs) c (d ∷ cs) i
      (ground (arith, least e j, top_of_least d cs c i, eqb_ℤ_iff (tier c) (top_of d cs)))

priority_nonempty : (cs : List Candidate) → priority cs ≡ [] → cs ≡ []
unfolding priority
priority_nonempty [] e = refl
priority_nonempty (c ∷ cs) e =
    let (d, i, q) = top_of_attained c cs in
    elim (subst (In d) e (filter-In (is_top c cs) d (c ∷ cs) i (rw q (==_refl (top_of c cs))))) [ ]

-- A candidate is kept exactly when it is among the candidates and no candidate has a lower tier;
-- and where there is a candidate, one is kept.
pub priority_iff :
    (cs : List Candidate)
    → ((c : Candidate)
        → In c (priority cs) ↔ (In c cs × ((d : Candidate) → In d cs → tier c ≤ℤ tier d)))
      × (priority cs ≡ [] → cs ≡ [])
priority_iff cs = (λ c. (priority→ cs c, λ h. →priority cs c h.0 h.1), priority_nonempty cs)
