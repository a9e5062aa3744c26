-- ===== src/Selection/Weighted.antt =====
-- Step 6 samples without replacement, and stops only when it has enough.
use knievel.Base.{
  ltb, if◌then◌else◌, Bool-cases, ◌==◌, nat_eq, int_eq, length, get_elem?, set, In, All, length-set,
  All-In, length-map, text_eq, ℕ, zero, suc, ◌+◌, ◌-◌, ◌*◌, ◌%◌, ◌^◌, ◌≤◌, ◌<◌, min, ◌≡◌, refl, sym,
  ap, ◌∙◌, inl, inr, some, List, [], ◌∷◌, ◌++◌, map, arith,
}
use mathlib.Core.List.{append-nil, append_assoc}
use knievel.Selection.{Candidate, Rng, sum, scan, weight_of, draw, weighted_random}

-- The weight of a slot; 0 past the end.
abbrev pub weight_at : List ℕ → ℕ → ℕ
weight_at [] i = 0
weight_at (w ∷ ws) zero = w
weight_at (w ∷ ws) (suc i) = weight_at ws i

-- The slots that are not exhausted.
abbrev pub positives : List ℕ → ℕ
positives [] = 0
positives (w ∷ ws) = (if w == 0 then 0 else 1) + positives ws

weight_at-set :
    (ws : List ℕ) (i j : ℕ) → weight_at (set ws i 0) j ≡ (if i == j then 0 else weight_at ws j)
weight_at-set [] i j = ground arith
weight_at-set (w ∷ ws) zero zero = refl
weight_at-set (w ∷ ws) zero (suc j) = ground arith
weight_at-set (w ∷ ws) (suc i) zero = ground arith
weight_at-set (w ∷ ws) (suc i) (suc j) = ground (arith, weight_at-set ws i j)

positives-set :
    (ws : List ℕ) (i : ℕ) → 0 < weight_at ws i → positives ws ≡ suc (positives (set ws i 0))
positives-set [] i h = absurd (omega arith)
positives-set (w ∷ ws) zero h = ground arith
positives-set (w ∷ ws) (suc i) h = ground (arith, positives-set ws i h)

positives-sum : (ws : List ℕ) → sum ws ≡ 0 → positives ws ≡ 0
positives-sum [] h = refl
positives-sum (w ∷ ws) h = ground (arith, positives-sum ws)

-- A roll below the total falls in a slot that is not exhausted.
scan-some :
    (ws : List ℕ) (k roll : ℕ)
    → roll < sum ws
    → (i : ℕ) × (scan ws k roll ≡ some (k + i)) × (0 < weight_at ws i)
unfolding scan
scan-some [] k roll h = absurd (omega arith)
scan-some (w ∷ ws) k roll h = elim (Bool-cases (w == 0)) [
  | inl z ↦ let (i, e, p) = scan-some ws (suc k) roll (ground arith) in (suc i, ground arith, p)
  | inr n ↦ elim (Bool-cases (ltb roll w)) [
    | inl l ↦ (0, ground arith, ground arith)
    | inr g ↦
        let (i, e, p) = scan-some ws (suc k) (roll - w) (ground arith) in (suc i, ground arith, p)
  ]
]

-- `values` are the candidates at the indices `is`, in that order.
abbrev pub At : List Candidate → List ℕ → List Candidate → Type 0
At candidates is values = map (get_elem? candidates) is ≡ map some values

abbrev pub Distinct : List ℕ → Type 0
Distinct [] = Unit
Distinct (i ∷ is) = ¬ In i is × Distinct is

-- The slots that `n` rounds pick.
pub record Picked (candidates : List Candidate) (ws : List ℕ) (n : ℕ) (values : List Candidate)
    : Type 0 where
  pub slots : List ℕ
  pub at : At candidates slots values
  pub distinct : Distinct slots
  pub positive : All (λ i. 0 < weight_at ws i) slots
  pub enough : length slots ≡ min n (positives ws)

-- A slot that stays positive after slot `i` is emptied was positive, and is another one.
still_positive :
    (ws : List ℕ) (i : ℕ) (is : List ℕ)
    → All (λ j. 0 < weight_at (set ws i 0) j) is
    → All (λ j. 0 < weight_at ws j) is × (¬ In i is)
still_positive ws i [] h = (tt, λ k. elim k [ ])
still_positive ws i (j ∷ is) h =
    let (rest, absent) = still_positive ws i is h.1 in
    (
      (ground (arith, weight_at-set ws i j, h.0), rest),
      λ k. ground (arith, weight_at-set ws i j, h.0, absent),
    )

get_of_weight_at :
    (candidates : List Candidate) (ws : List ℕ) (i : ℕ)
    → length ws ≡ length candidates
    → 0 < weight_at ws i
    → (c : Candidate) × (get_elem? candidates i ≡ some c)
get_of_weight_at [] [] i e h = absurd (omega arith)
get_of_weight_at [] (w ∷ ws) i e h = absurd (omega arith)
get_of_weight_at (c ∷ cs) [] i e h = absurd (omega arith)
get_of_weight_at (c ∷ cs) (w ∷ ws) zero e h = (c, refl)
get_of_weight_at (c ∷ cs) (w ∷ ws) (suc i) e h = get_of_weight_at cs ws i (omega arith) h

module _ (rng : Rng) (candidates : List Candidate) where
  open rng use {State, gen_range, gen_range-lt}

  draw-Picked :
      (n : ℕ) (s : State) (ws : List ℕ) (picks : List Candidate)
      → length ws ≡ length candidates
      → (values : List Candidate) × (draw rng candidates n s ws picks ≡ picks ++ values)
        × Picked candidates ws n values
  unfolding draw
  draw-Picked zero s ws picks e = (
    [],
    sym (append-nil picks),
    record { slots = []; at = refl; distinct = tt; positive = tt; enough = omega arith },
  )
  draw-Picked (suc n) s ws picks e = elim (Bool-cases (sum ws == 0)) [
    | inl z ↦ (
      [],
      ground (arith, append-nil picks),
      record {
        slots = [];
        at = refl;
        distinct = tt;
        positive = tt;
        enough = ground (arith, positives-sum ws);
      },
    )
    | inr nz ↦
        let (roll, s') = gen_range s (sum ws) in
        let (i, found, p) = scan-some ws 0 roll (gen_range-lt s (sum ws) (ground arith)) in
        let (c, at_i) = get_of_weight_at candidates ws i e p in
        let (values, drawn, picked) =
          draw-Picked n s' (set ws i 0) (picks ++ c ∷ []) (length-set ws i 0 ∙ e) in
        let (positive, absent) = still_positive ws i picked.slots picked.positive in
        let found' : scan ws 0 roll ≡ some i = ground (arith, found) in
        (
          c ∷ values,
          ground (arith, found', at_i, drawn, append_assoc picks (c ∷ []) values),
          record {
            slots = i ∷ picked.slots;
            at = rw at_i (ap (◌∷◌ (some c)) picked.at);
            distinct = (absent, picked.distinct);
            positive = (p, positive);
            enough = ground (arith, picked.enough, positives-set ws i p);
          },
        )
  ]

positives-le : (ws : List ℕ) → positives ws ≤ length ws
positives-le [] = omega arith
positives-le (w ∷ ws) = ground (arith, positives-le ws)

no_picks :
    (candidates : List Candidate) (ws : List ℕ) (n : ℕ)
    → min n (positives ws) ≡ 0
    → Picked candidates ws n []
no_picks candidates ws n e = record {
  slots = [];
  at = refl;
  distinct = tt;
  positive = tt;
  enough = sym e;
}

rounds_enough : (n len p : ℕ) → p ≤ len → len < 2 ^ 32 → min (min n (len % 2 ^ 32)) p ≡ min n p
rounds_enough n len p h k = omega arith

weaken_rounds :
    (candidates : List Candidate) (ws : List ℕ) (m n : ℕ) {values : List Candidate}
    → min m (positives ws) ≡ min n (positives ws)
    → Picked candidates ws m values
    → Picked candidates ws n values
weaken_rounds candidates ws m n e p = record {
  slots = p.slots;
  at = p.at;
  distinct = p.distinct;
  positive = p.positive;
  enough = p.enough ∙ e;
}

-- The rounds of a call.
abbrev pub rounds_of : List Candidate → ℕ → ℕ
rounds_of candidates count = min count (length candidates % 2 ^ 32)

-- The picks of a call with its number of rounds.
weighted_random-in_rounds :
    (rng : Rng) (candidates : List Candidate) (count seed : ℕ)
    → Picked candidates
        (map weight_of candidates)
        (rounds_of candidates count)
        (weighted_random rng candidates count seed)
unfolding weighted_random
weighted_random-in_rounds rng [] count seed = no_picks [] [] (rounds_of [] count) (ground arith)
weighted_random-in_rounds rng (c ∷ cs) count seed =
    let ws = map weight_of (c ∷ cs) in
    let rounds = rounds_of (c ∷ cs) count in
    elim (Bool-cases (count == 0)) [
      | inl z ↦ rw z (no_picks (c ∷ cs) ws rounds (ground arith))
      | inr n ↦
          let (values, drawn, picked) =
            draw-Picked rng (c ∷ cs) rounds (rng.seed_from_u64 seed) ws []
              (length-map weight_of (c ∷ cs)) in
          rw n (rw drawn picked)
    ]

-- On fewer than 2 ^ 32 candidates the picks stand at distinct slots of positive weight, and there
-- are as many as were asked for, or as there are candidates of positive weight if those are fewer.
pub weighted_random-Picked :
    (rng : Rng) (candidates : List Candidate) (count seed : ℕ)
    → length candidates < 2 ^ 32
    → Picked candidates (map weight_of candidates) count (weighted_random rng candidates count seed)
weighted_random-Picked rng candidates count seed h =
    let ws = map weight_of candidates in
    let fits : positives ws ≤ length candidates =
      omega (arith, positives-le ws, length-map weight_of candidates) in
    weaken_rounds candidates ws (rounds_of candidates count) count
      (rounds_enough count (length candidates) (positives ws) fits h)
      (weighted_random-in_rounds rng candidates count seed)

-- There are no more picks than were asked for.
pub weighted_random-length :
    (rng : Rng) (candidates : List Candidate) (count seed : ℕ)
    → length (weighted_random rng candidates count seed) ≤ count
weighted_random-length rng candidates count seed =
    let p = weighted_random-in_rounds rng candidates count seed in
    let same = ap length p.at in
    omega (
      arith,
      p.enough,
      same,
      length-map (get_elem? candidates) p.slots,
      length-map some (weighted_random rng candidates count seed),
    )

slot_weight :
    (candidates : List Candidate) (i : ℕ) {c : Candidate}
    → get_elem? candidates i ≡ some c
    → 0 < weight_at (map weight_of candidates) i
    → In c candidates × (0 < weight_of c)
slot_weight [] i e h = cc
slot_weight (d ∷ cs) zero {c} e h = let q : c ≡ d = cc in (inl q, rw q h)
slot_weight (d ∷ cs) (suc i) e h = let (j, p) = slot_weight cs i e h in (inr j, p)

picked_weights :
    (candidates : List Candidate) (slots : List ℕ) (values : List Candidate)
    → At candidates slots values
    → All (λ i. 0 < weight_at (map weight_of candidates) i) slots
    → All (λ c. In c candidates × (0 < weight_of c)) values
picked_weights candidates slots [] e h = tt
picked_weights candidates [] (c ∷ values) e h = cc
picked_weights candidates (i ∷ slots) (c ∷ values) e h =
    (slot_weight candidates i (cc) h.0, picked_weights candidates slots values (cc) h.1)

-- A pick is a candidate, and its weight is positive.
pub weighted_random-In :
    (rng : Rng) (candidates : List Candidate) (count seed : ℕ) (c : Candidate)
    → In c (weighted_random rng candidates count seed)
    → In c candidates × (0 < weight_of c)
weighted_random-In rng candidates count seed c i =
    let p = weighted_random-in_rounds rng candidates count seed in
    All-In (λ d. In d candidates × (0 < weight_of d)) c _
      (picked_weights candidates p.slots _ p.at p.positive) i

sum-weights-le :
    (candidates : List Candidate)
    → All (λ c. weight_of c < 2 ^ 31) candidates
    → sum (map weight_of candidates) ≤ length candidates * 2 ^ 31
sum-weights-le [] a = omega arith
sum-weights-le (c ∷ cs) a = omega (arith, a.0, sum-weights-le cs a.1)

-- The total weight of fewer than 2 ^ 32 candidates, each an `i32`, fits an `i64`.
sum-weights-lt :
    (candidates : List Candidate)
    → length candidates < 2 ^ 32
    → All (λ c. weight_of c < 2 ^ 31) candidates
    → sum (map weight_of candidates) < 2 ^ 63
sum-weights-lt candidates h a = omega (arith, sum-weights-le candidates a)
