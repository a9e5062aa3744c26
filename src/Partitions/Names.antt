-- ===== src/Partitions/Names.antt =====
-- src/partitions.rs: the names of the leaves are in the order of their days.
use knievel.Base.{
  ltb, eqb, ltb→lt, lt→ltb, eqb_iff, Bool-cases, nat_eq, ℤ, int_eq, Text, text_eq, pos, ℕ, suc, ◌+◌,
  ◌*◌, ◌/◌, ◌%◌, ◌≤◌, ◌<◌, ◌≡◌, refl, sym, ap, ◌∙◌, inl, inr, Bool, false, ◌&&◌, ◌||◌, [], ◌∷◌,
  ◌++◌, arith,
}
use knievel.Partitions.{decimal, pad, padded, leaf_prefix, leaf_name, ltb_text}
use knievel.Partitions.Civil.{
  year, month, day, key, key-lt, last_day, day-range, ymd_from_epoch-day,
}

abbrev two : ℕ → Text → Text
two n s = (48 + n / 10) ∷ (48 + n % 10) ∷ s

decimal-digit : (fuel n : ℕ) → n < 10 → decimal (suc fuel) n ≡ (48 + n) ∷ []
unfolding decimal
decimal-digit fuel n h = rw (lt→ltb n 10 h, decimal) refl

decimal-more :
    (fuel n : ℕ) → 10 ≤ n → decimal (suc fuel) n ≡ decimal fuel (n / 10) ++ (48 + n % 10) ∷ []
unfolding decimal
decimal-more fuel n h = let many : ltb n 10 ≡ false = ground arith in rw (many, decimal) refl

decimal-2 : (fuel n : ℕ) → 10 ≤ n → n < 100 → decimal (suc (suc fuel)) n ≡ two n []
decimal-2 fuel n lo hi =
    decimal-more (suc fuel) n lo
    ∙ ap (λ s. s ++ (48 + n % 10) ∷ []) (decimal-digit fuel (n / 10) (omega arith))

decimal-3 :
    (fuel n : ℕ)
    → 100 ≤ n
    → n < 1000
    → decimal (suc (suc (suc fuel))) n ≡ two (n / 10) ((48 + n % 10) ∷ [])
decimal-3 fuel n lo hi =
    decimal-more (suc (suc fuel)) n (omega arith)
    ∙ ap (λ s. s ++ (48 + n % 10) ∷ []) (decimal-2 fuel (n / 10) (omega arith) (omega arith))

decimal-4 :
    (fuel n : ℕ)
    → 1000 ≤ n
    → n < 10000
    → decimal (suc (suc (suc (suc fuel)))) n
      ≡ two (n / 10 / 10) ((48 + n / 10 % 10) ∷ (48 + n % 10) ∷ [])
decimal-4 fuel n lo hi =
    decimal-more (suc (suc (suc fuel))) n (omega arith)
    ∙ ap (λ s. s ++ (48 + n % 10) ∷ []) (decimal-3 fuel (n / 10) (omega arith) (omega arith))

pad-2 : (n : ℕ) → n < 100 → pad 2 (decimal 10 n) ≡ two n []
pad-2 n h = elim (Bool-cases (ltb n 10)) [
  | inl t ↦ ap (pad 2) (decimal-digit 9 n (ltb→lt n 10 t)) ∙ ground arith
  | inr f ↦ ap (pad 2) (decimal-2 8 n (ground arith) h)
]

pad-4 : (n : ℕ) → n < 10000 → pad 4 (decimal 10 n) ≡ two (n / 100) (two (n % 100) [])
pad-4 n h = elim (Bool-cases (ltb n 10)) [
  | inl t ↦ ap (pad 4) (decimal-digit 9 n (ltb→lt n 10 t)) ∙ ground arith
  | inr f ↦ elim (Bool-cases (ltb n 100)) [
    | inl t ↦ ap (pad 4) (decimal-2 8 n (ground arith) (ltb→lt n 100 t)) ∙ ground arith
    | inr g ↦ elim (Bool-cases (ltb n 1000)) [
      | inl t ↦ ap (pad 4) (decimal-3 7 n (ground arith) (ltb→lt n 1000 t)) ∙ ground arith
      | inr k ↦ ap (pad 4) (decimal-4 6 n (ground arith) h) ∙ ground arith
    ]
  ]
]

-- First by the first numbers, then by the rest.
abbrev then_by : ℕ → ℕ → Bool → Bool
then_by x y rest = ltb x y || (eqb x y && rest)

two-then_by :
    (x y : ℕ) (s t : Text)
    → x < 100
    → y < 100
    → ltb_text (two x s) (two y t) ≡ then_by x y (ltb_text s t)
two-then_by x y s t hx hy = ground arith

abbrev date_text : ℕ → ℕ → ℕ → Text
date_text y m d = two (y / 100) (two (y % 100) (95 ∷ two m (95 ∷ two d [])))

leaf_name-day :
    (a : ℕ)
    → a < last_day
    → leaf_name (pos (a * 86400)) ≡ leaf_prefix ++ date_text (year a) (month a) (day a)
unfolding leaf_name
leaf_name-day a h =
    let (y4, m1, m12, d1, d31) = day-range a h in
    ap
      (λ (t : ℤ × ℕ × ℕ).
        leaf_prefix ++ (padded 4 t.0 ++ 95 ∷ (padded 2 (pos t.1) ++ 95 ∷ padded 2 (pos t.2))))
      (ymd_from_epoch-day a h)
    ∙ (λ i.
        leaf_prefix
        ++ (pad-4 (year a) y4 i
            ++ 95
              ∷ (pad-2 (month a) (omega (arith, m12)) i
                  ++ 95 ∷ pad-2 (day a) (omega (arith, d31)) i)))

-- The order of two dates, by their numbers.
dates-order :
    (y m d y' m' d' : ℕ)
    → m ≤ 12
    → d ≤ 31
    → m' ≤ 12
    → d' ≤ 31
    → 1 ≤ m
    → 1 ≤ m'
    → then_by y y' (then_by m m' (then_by d d' false))
      ≡ ltb (32 * (12 * y + m) + d) (32 * (12 * y' + m') + d')
dates-order y m d y' m' d' h1 h2 h3 h4 h5 h6 = ground arith

hundreds :
    (y y' : ℕ) (rest : Bool)
    → then_by (y / 100) (y' / 100) (then_by (y % 100) (y' % 100) rest) ≡ then_by y y' rest
hundreds y y' rest = ground arith

date_text-order :
    (y m d y' m' d' : ℕ)
    → y < 10000
    → y' < 10000
    → m < 100
    → m' < 100
    → d < 100
    → d' < 100
    → ltb_text (date_text y m d) (date_text y' m' d')
      ≡ then_by y y' (then_by m m' (then_by d d' false))
date_text-order y m d y' m' d' hy hy' hm hm' hd hd' =
    two-then_by (y / 100) (y' / 100) (two (y % 100) (95 ∷ two m (95 ∷ two d [])))
      (two (y' % 100) (95 ∷ two m' (95 ∷ two d' []))) (omega arith) (omega arith)
    ∙ ap (then_by (y / 100) (y' / 100)) (
        two-then_by (y % 100) (y' % 100) (95 ∷ two m (95 ∷ two d [])) (95 ∷ two m' (95 ∷ two d' []))
          (omega arith) (omega arith)
        ∙ ap (then_by (y % 100) (y' % 100)) (
            two-then_by m m' (95 ∷ two d []) (95 ∷ two d' []) hm hm'
            ∙ ap (then_by m m') (two-then_by d d' [] [] hd hd')))
    ∙ hundreds y y' (then_by m m' (then_by d d' false))

keys-order : (a b : ℕ) → ltb (key a) (key b) ≡ ltb a b
keys-order a b = elim (Bool-cases (ltb a b)) [
  | inl t ↦ lt→ltb (key a) (key b) (key-lt a b (ltb→lt a b t)) ∙ sym t
  | inr f ↦ elim (Bool-cases (eqb a b)) [
    | inl e ↦ ap (λ c. ltb (key a) (key c)) (sym ((eqb_iff a b).0 e)) ∙ irreflexive (key a) ∙ sym f
    | inr n ↦ not_below (key a) (key b) (key-lt b a (ground arith)) ∙ sym f
  ]
]
  where
    irreflexive : (n : ℕ) → ltb n n ≡ false
    irreflexive n = ground arith

    not_below : (m n : ℕ) → n < m → ltb m n ≡ false
    not_below m n h = ground arith

-- Up to the year 9999 the names of the daily leaves compare as strings as their days do.
pub leaf_name-order :
    (a b : ℕ)
    → a < last_day
    → b < last_day
    → ltb_text (leaf_name (pos (a * 86400))) (leaf_name (pos (b * 86400))) ≡ ltb a b
leaf_name-order a b ha hb =
    let (y4, m1, m12, d1, d31) = day-range a ha in
    let (y4', m1', m12', d1', d31') = day-range b hb in
    (λ i. ltb_text (leaf_name-day a ha i) (leaf_name-day b hb i))
    ∙ date_text-order (year a) (month a) (day a) (year b) (month b) (day b) y4 y4'
        (omega (arith, m12)) (omega (arith, m12')) (omega (arith, d31)) (omega (arith, d31'))
    ∙ dates-order (year a) (month a) (day a) (year b) (month b) (day b) m12 d31 m12' d31' m1 m1'
    ∙ keys-order a b
