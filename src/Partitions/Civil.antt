-- ===== src/Partitions/Civil.antt =====
-- src/partitions.rs: the days of `ymd_from_epoch` are in calendar order.
use knievel.Base.{
  ltb, leb, eqb, if◌then◌else◌, ltb→lt, eqb_iff, Bool-cases, nat_eq, ℤ, ◌+ℤ◌, ◌-ℤ◌, int_eq, as_u64,
  div_trunc, text_eq, pos, ℕ, zero, suc, ◌+◌, ◌-◌, ◌*◌, ◌/◌, ◌%◌, ◌^◌, ◌≤◌, ◌<◌, ◌≡◌, refl, sym, ap,
  ◌∙◌, subst, ◌⊎◌, inl, inr, arith,
}
use knievel.Partitions.{
  times, as_i32, year_of_era, day_of_year, month_part, day_part, era_of, ymd_of_era, ymd_from_epoch,
}

-- The day number from 0000-03-01 on, of a day from 1970 on.
abbrev z_of : ℕ → ℕ
z_of a = a + 719468

abbrev pub year : ℕ → ℕ
year a =
    let doe = z_of a % 146097 in
    let y = year_of_era doe + z_of a / 146097 * 400 in
    if ltb (month_part (day_of_year doe)) 10 then y else y + 1

abbrev pub month : ℕ → ℕ
month a =
    let mp = month_part (day_of_year (z_of a % 146097)) in if ltb mp 10 then mp + 3 else mp - 9

abbrev pub day : ℕ → ℕ
day a = day_part (day_of_year (z_of a % 146097))

-- The day on which the `y`-th year of an era begins, in March.
abbrev start : ℕ → ℕ
start y = 365 * y + y / 4 - y / 100

year_of_era-start :
    (doe : ℕ)
    → doe < 146097
    → (start (year_of_era doe) ≤ doe)
      × (doe < 146096 → doe < start (year_of_era doe + 1))
      × (year_of_era doe ≤ 399)
year_of_era-start doe h = (omega arith, (λ l. omega arith), omega arith)

pub day_of_year-le : (doe : ℕ) → doe < 146097 → day_of_year doe ≤ 365
day_of_year-le doe h = omega arith

start-lt : (x y : ℕ) → x < y → start x < start y
start-lt x y h = omega arith

-- The years of two days that follow each other.
year-suc :
    (doe y y' : ℕ)
    → start y ≤ doe
    → doe < start (y + 1)
    → start y' ≤ doe + 1
    → doe + 1 < start (y' + 1)
    → (y' ≡ y) ⊎ ((y' ≡ y + 1) × (doe + 1 ≡ start y'))
year-suc doe y y' a b c d = elim (Bool-cases (ltb y' y)) [
  | inl t ↦ absurd (omega (arith, ltb→lt y' y t))
  | inr f ↦ elim (Bool-cases (eqb y' y)) [
    | inl t ↦ inl ((eqb_iff y' y).0 t)
    | inr n ↦ elim (Bool-cases (ltb (y + 1) y')) [
      | inl t ↦ absurd (omega (arith, start-lt (y + 1) y' (ltb→lt (y + 1) y' t)))
      | inr g ↦ let next : y' ≡ y + 1 = ground arith in inr (next, omega arith)
    ]
  ]
]

-- The next day is the next of its year, or the first of the next.
year_of_era-suc :
    (doe : ℕ)
    → doe < 146096
    → ((year_of_era (doe + 1) ≡ year_of_era doe) × (day_of_year (doe + 1) ≡ day_of_year doe + 1))
      ⊎ ((year_of_era (doe + 1) ≡ year_of_era doe + 1) × (day_of_year (doe + 1) ≡ 0))
year_of_era-suc doe h =
    let (low, high, last) = year_of_era-start doe (omega arith) in
    elim (Bool-cases (eqb doe 146095)) [
      | inl t ↦ let e : doe ≡ 146095 = (eqb_iff doe 146095).0 t in inl (omega arith, omega arith)
      | inr f ↦
          let inside : doe + 1 < 146096 = ground arith in
          let (low', high', last') = year_of_era-start (doe + 1) (omega arith) in
          elim (year-suc doe (year_of_era doe) (year_of_era (doe + 1)) low (high h) low'
            (high' inside)) [
              | inl same ↦ inl (same, omega (arith, same))
              | inr (next, first) ↦ inr (next, omega (arith, first))
            ]
    ]

-- Months and days of a year, as one number.
abbrev within : ℕ → ℕ
within doy = 32 * month_part doy + day_part doy

within-suc : (doy : ℕ) → doy < 365 → within doy < within (doy + 1)
within-suc doy h = omega arith

within-range :
    (doy : ℕ) → doy ≤ 365 → (1 ≤ day_part doy) × (day_part doy ≤ 31) × (month_part doy ≤ 11)
within-range doy h = (omega arith, omega arith, omega arith)

-- Years, months and days, as one number.
abbrev pub key : ℕ → ℕ
key a = 32 * (12 * year a + month a) + day a

-- The same from the year that begins in March.
abbrev march_key : ℕ → ℕ → ℕ
march_key era doe = 32 * 12 * (year_of_era doe + era * 400) + within (day_of_year doe)

key-march : (a : ℕ) → key a ≡ march_key (z_of a / 146097) (z_of a % 146097) + 96
key-march a = go (year_of_era doe + z_of a / 146097 * 400) (month_part (day_of_year doe)) (day a)
  where
    doe : ℕ
    doe = z_of a % 146097

    go :
        (y mp d : ℕ)
        → 32 * (12 * (if ltb mp 10 then y else y + 1) + (if ltb mp 10 then mp + 3 else mp - 9)) + d
          ≡ 32 * 12 * y + (32 * mp + d) + 96
    go y mp d = ground arith

-- The next day has the greater number.
march-suc :
    (era y y' d d' : ℕ)
    → d ≤ 365
    → d' ≤ 365
    → ((y' ≡ y) × (d' ≡ d + 1)) ⊎ ((y' ≡ y + 1) × (d' ≡ 0))
    → 384 * (y + era * 400) + within d < 384 * (y' + era * 400) + within d'
march-suc era y y' d d' h h' (inl (same, next)) =
    rw (same, next) (omega (arith, within-suc d (omega (arith, next))))
march-suc era y y' d d' h h' (inr (next, first)) =
    rw (next, first) (omega (arith, within-range d h))

march_key-suc : (era doe : ℕ) → doe < 146096 → march_key era doe < march_key era (doe + 1)
march_key-suc era doe h =
    march-suc era (year_of_era doe) (year_of_era (doe + 1)) (day_of_year doe)
      (day_of_year (doe + 1)) (day_of_year-le doe (omega arith))
      (day_of_year-le (doe + 1) (omega arith)) (year_of_era-suc doe h)

key-suc : (a : ℕ) → key a < key (a + 1)
key-suc a = elim (Bool-cases (ltb (z_of a % 146097) 146096)) [
  | inl t ↦
      let h = ltb→lt (z_of a % 146097) 146096 t in
      let same : z_of (a + 1) / 146097 ≡ z_of a / 146097 = omega arith in
      let next : z_of (a + 1) % 146097 ≡ z_of a % 146097 + 1 = omega arith in
      let moved : march_key (z_of (a + 1) / 146097) (z_of (a + 1) % 146097)
          ≡ march_key (z_of a / 146097) (z_of a % 146097 + 1) =
        λ i. march_key (same i) (next i) in
      less a (march_key-suc (z_of a / 146097) (z_of a % 146097) h) moved
  | inr f ↦
      let last : z_of a % 146097 ≡ 146096 = ground arith in
      let same : z_of (a + 1) / 146097 ≡ z_of a / 146097 + 1 = omega arith in
      let next : z_of (a + 1) % 146097 ≡ 0 = omega arith in
      let moved : march_key (z_of (a + 1) / 146097) (z_of (a + 1) % 146097)
          ≡ march_key (z_of a / 146097 + 1) 0 =
        λ i. march_key (same i) (next i) in
      less a
        (subst (λ doe. march_key (z_of a / 146097) doe < march_key (z_of a / 146097 + 1) 0)
          (sym last) (omega arith))
        moved
]
  where
    less :
        (a : ℕ) {n : ℕ}
        → march_key (z_of a / 146097) (z_of a % 146097) < n
        → march_key (z_of (a + 1) / 146097) (z_of (a + 1) % 146097) ≡ n
        → key a < key (a + 1)
    less a h e = between (key-march a) (key-march (a + 1)) h e
      where
        between : {k k' m m' n : ℕ} → k ≡ m + 96 → k' ≡ m' + 96 → m < n → m' ≡ n → k < k'
        between p q h e = omega arith

rises : (f : ℕ → ℕ) (a n : ℕ) → ((b : ℕ) → f b < f (b + 1)) → f a < f (a + suc n)
rises f a zero up = up a
rises f a (suc n) up =
    let more : a + suc n + 1 ≡ a + suc (suc n) = omega arith in
    subst (λ b. f a < f b) more (omega (arith, rises f a n up, up (a + suc n)))

-- A later day has the greater number.
pub key-lt : (a b : ℕ) → a < b → key a < key b
key-lt a b h =
    let reached : a + suc (b - a - 1) ≡ b = omega arith in
    subst (λ c. key a < key c) reached (rises key a (b - a - 1) key-suc)

-- The first day that is not modelled is 10000-01-01.
abbrev pub last_day : ℕ
last_day = 2932897

month-range :
    (mp : ℕ)
    → mp ≤ 11
    → (1 ≤ (if ltb mp 10 then mp + 3 else mp - 9)) × ((if ltb mp 10 then mp + 3 else mp - 9) ≤ 12)
month-range mp h = ground arith

key_last : key last_day ≡ 3840033
key_last = refl

below : (y m d : ℕ) → 1 ≤ m → 1 ≤ d → 32 * (12 * y + m) + d < 3840033 → y < 10000
below y m d h1 h2 h = omega arith

pub day-range :
    (a : ℕ)
    → a < last_day
    → (year a < 10000) × (1 ≤ month a) × (month a ≤ 12) × (1 ≤ day a) × (day a ≤ 31)
day-range a h =
    let doy = day_of_year (z_of a % 146097) in
    let small : doy ≤ 365 = day_of_year-le (z_of a % 146097) (omega arith) in
    let (d1, d31, m11) = within-range doy small in
    let (m1, m12) = month-range (month_part doy) m11 in
    (
      below (year a) (month a) (day a) m1 d1
          (subst (λ k. key a < k) key_last (key-lt a last_day h)),
      m1,
      m12,
      d1,
      d31,
    )

pos-add : (x y : ℕ) → pos x +ℤ pos y ≡ pos (x + y)
unfolding ◌+ℤ◌
pos-add x y = ground arith

pos-sub : (x y : ℕ) → y ≤ x → pos x -ℤ pos y ≡ pos (x - y)
unfolding ◌-ℤ◌
pos-sub x y h = ground arith

era_of-pos : (z : ℕ) → era_of (pos z) ≡ pos (z / 146097)
unfolding div_trunc
era_of-pos z = ground arith

as_u64-day : (z : ℕ) → as_u64 (pos z -ℤ pos (z / 146097 * 146097)) ≡ z % 146097
unfolding as_u64
as_u64-day z = ap as_u64 (pos-sub z (z / 146097 * 146097) (omega arith)) ∙ omega arith

as_i32-pos : (n : ℕ) → n < 2 ^ 31 → as_i32 (pos n) ≡ pos n
unfolding as_i32 as_u64
as_i32-pos n h = ground arith

ymd_of_era-pos :
    (e doe : ℕ)
    → doe < 146097
    → year_of_era doe + e * 400 < 20000
    → ymd_of_era (pos e) doe ≡ (
        let mp = month_part (day_of_year doe) in
        let y = year_of_era doe + e * 400 in
        (
          pos (if ltb mp 10 then y else y + 1),
          (if ltb mp 10 then mp + 3 else mp - 9),
          day_part (day_of_year doe),
        ))
unfolding ymd_of_era
ymd_of_era-pos e doe l h =
    let mp = month_part (day_of_year doe) in
    let m : ℕ = if ltb mp 10 then mp + 3 else mp - 9 in
    let d : ℕ = day_part (day_of_year doe) in
    let (_, _, m11) = within-range (day_of_year doe) (day_of_year-le doe l) in
    ap (λ (y : ℤ). (y, m, d)) (go (year_of_era doe) mp m11 h)
  where
    go :
        (yoe mp : ℕ)
        → mp ≤ 11
        → yoe + e * 400 < 20000
        → as_i32 (
            if leb (if ltb mp 10 then mp + 3 else mp - 9) 2
            then pos yoe +ℤ pos (e * 400) +ℤ pos 1
            else pos yoe +ℤ pos (e * 400))
          ≡ pos (if ltb mp 10 then yoe + e * 400 else yoe + e * 400 + 1)
    go yoe mp m11 h = ground (
      arith,
      pos-add yoe (e * 400),
      pos-add (yoe + e * 400) 1,
      as_i32-pos (yoe + e * 400) (omega arith),
      as_i32-pos (yoe + e * 400 + 1) (omega arith),
    )

pub ymd_from_epoch-day :
    (a : ℕ) → a < last_day → ymd_from_epoch (pos (a * 86400)) ≡ (pos (year a), month a, day a)
unfolding ymd_from_epoch div_trunc
ymd_from_epoch-day a h =
    let days : a * 86400 / 86400 ≡ a = omega arith in
    let z : pos (a * 86400 / 86400) +ℤ pos 719468 ≡ pos (z_of a) =
      ap (λ d. pos d +ℤ pos 719468) days ∙ pos-add a 719468 in
    ap (λ z. ymd_of_era (era_of z) (as_u64 (z -ℤ times (era_of z) 146097))) z
    ∙ ap (λ era. ymd_of_era era (as_u64 (pos (z_of a) -ℤ times era 146097))) (era_of-pos (z_of a))
    ∙ ap (λ doe. ymd_of_era (pos (z_of a / 146097)) doe) (as_u64-day (z_of a))
    ∙ ymd_of_era-pos (z_of a / 146097) (z_of a % 146097) (omega arith) (omega arith)
