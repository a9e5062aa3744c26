-- ===== src/Partitions.antt =====
-- src/partitions.rs: the daily partitions of `events_raw`. The state is which leaves are attached to it
-- and which tables were detached; which statements the database answers is a parameter. The log is
-- left out, and the loop around `run_once` is one round of it.
pub mod Civil
pub mod Names
pub mod Retained
pub mod Again
pub mod Seeded
use knievel.Base.{
  ltb, leb, eqb, if◌then◌else◌, nat_eq, ◌==◌, ℤ, sub_ℕ, ◌+ℤ◌, ◌-ℤ◌, ltb_ℤ, leb_ℤ, int_eq, as_u64,
  div_trunc, length, filter, any, Text, text, text_eq, pos, negsuc, ℕ, zero, suc, ◌+◌, ◌-◌, ◌*◌,
  ◌/◌, ◌%◌, ◌^◌, Bool, true, false, not, ◌&&◌, ◌||◌, Option, none, some, List, [], ◌∷◌, ◌++◌, map,
}
use knievel.Sql.{starts_with}
use knievel.Leader.{LeaderHandle, record_tick}

abbrev pub premake_days : ℕ
premake_days = 4

abbrev pub retention_days_default : ℕ
retention_days_default = 30

-- The product of an `i64` and a constant.
abbrev pub times : ℤ → ℕ → ℤ
times (pos n) k = pos (n * k)
times (negsuc n) k = sub_ℕ 0 (suc n * k)

abbrev pub rem_euclid : ℤ → ℕ → ℕ
rem_euclid (pos n) d = n % d
rem_euclid (negsuc n) d = d - 1 - n % d

unfoldable pub day_start_secs : ℤ → ℤ
day_start_secs epoch_secs = epoch_secs -ℤ pos (rem_euclid epoch_secs 86400)

-- `as i32`
unfoldable pub as_i32 : ℤ → ℤ
as_i32 a = let w = as_u64 a % 2 ^ 32 in if ltb w (2 ^ 31) then pos w else negsuc (2 ^ 32 - 1 - w)

abbrev pub year_of_era : ℕ → ℕ
year_of_era doe = (doe - doe / 1460 + doe / 36524 - doe / 146096) / 365

abbrev pub day_of_year : ℕ → ℕ
day_of_year doe = let yoe = year_of_era doe in doe - (365 * yoe + yoe / 4 - yoe / 100)

abbrev pub month_part : ℕ → ℕ
month_part doy = (5 * doy + 2) / 153

abbrev pub day_part : ℕ → ℕ
day_part doy = doy - (153 * month_part doy + 2) / 5 + 1

abbrev pub era_of : ℤ → ℤ
era_of z = div_trunc (if leb_ℤ (pos 0) z then z else z -ℤ pos 146096) 146097

-- From the day of the era on.
unfoldable pub ymd_of_era : ℤ → ℕ → ℤ × ℕ × ℕ
ymd_of_era era doe =
    let y = pos (year_of_era doe) +ℤ times era 400 in
    let mp = month_part (day_of_year doe) in
    let m = if ltb mp 10 then mp + 3 else mp - 9 in
    (as_i32 (if leb m 2 then y +ℤ pos 1 else y), m, day_part (day_of_year doe))

unfoldable pub ymd_from_epoch : ℤ → ℤ × ℕ × ℕ
ymd_from_epoch secs =
    let z = div_trunc secs 86400 +ℤ pos 719468 in
    let era = era_of z in ymd_of_era era (as_u64 (z -ℤ times era 146097))

-- The decimal digits, at most as many as the fuel; an `i32` has ten.
unfoldable pub decimal : ℕ → ℕ → Text
decimal zero n = []
decimal (suc fuel) n =
    if ltb n 10 then (48 + n) ∷ [] else decimal fuel (n / 10) ++ (48 + n % 10) ∷ []

abbrev pub zeros : ℕ → Text
zeros zero = []
zeros (suc n) = 48 ∷ zeros n

abbrev pub pad : ℕ → Text → Text
pad w s = zeros (w - length s) ++ s

-- `{y:04}`, `{m:02}`
abbrev pub padded : ℕ → ℤ → Text
padded w (pos n) = pad w (decimal 10 n)
padded w (negsuc n) = 45 ∷ pad (w - 1) (decimal 10 (suc n))

abbrev pub leaf_prefix : Text
leaf_prefix = text "events_raw_p"

unfoldable pub leaf_name : ℤ → Text
leaf_name day_start =
    let (y, m, d) = ymd_from_epoch day_start in
    leaf_prefix ++ (padded 4 y ++ 95 ∷ (padded 2 (pos m) ++ 95 ∷ padded 2 (pos d)))

-- `<` on strings, by their bytes.
abbrev pub ltb_text : Text → Text → Bool
ltb_text s [] = false
ltb_text [] (y ∷ ys) = true
ltb_text (x ∷ xs) (y ∷ ys) = ltb x y || (eqb x y && ltb_text xs ys)

-- `LIKE 'events_raw_p%'`: an underscore of the pattern stands for any character.
abbrev pub like : Text → Text → Bool
like [] s = true
like (c ∷ cs) [] = false
like (c ∷ cs) (x ∷ xs) = (eqb c 95 || eqb c x) && like cs xs

-- A partition has the events from `from_secs` on and before `to_secs`.
pub record Leaf : Type 0 where
  pub name : Text
  pub from_secs : ℤ
  pub to_secs : ℤ

pub record Catalog : Type 0 where
  pub attached : List Leaf
  pub detached : List Leaf

-- Which statements the database answers, by the leaf.
pub record DbAnswers : Type 0 where
  pub creates : Text → Bool
  pub alters : Text → Bool
  pub lists : Bool
  pub detaches : Text → Bool

pub data Failure : Type 0 where
  create_partition alter_partition list_partitions : Failure

abbrev pub has_name : Text → Leaf → Bool
has_name name leaf = leaf.name == name

abbrev pub overlaps : ℤ → ℤ → Leaf → Bool
overlaps from_secs to_secs leaf = ltb_ℤ from_secs leaf.to_secs && ltb_ℤ leaf.from_secs to_secs

-- Whether there is a table of that name.
abbrev pub exists : Text → Catalog → Bool
exists name c = any (has_name name) c.attached || any (has_name name) c.detached

abbrev pub leaf_of : ℤ → Leaf
leaf_of day_start = record {
  name = leaf_name day_start;
  from_secs = day_start;
  to_secs = day_start +ℤ pos 86400;
}

-- `CREATE TABLE IF NOT EXISTS knievel.leaf PARTITION OF knievel.events_raw FOR VALUES ...`: a table
-- of that name is left as it is, and a new leaf must not overlap another. `none` is an error.
unfoldable pub create_leaf : ℤ → Catalog → Option Catalog
create_leaf day_start c =
    if exists (leaf_name day_start) c
    then some c
    else if any (overlaps day_start (day_start +ℤ pos 86400)) c.attached
    then none
    else some (record c { attached = leaf_of day_start ∷ c.attached })

-- The leaves from day `day_start` on, for as many days as are left.
unfoldable pub premake : DbAnswers → ℕ → ℤ → Catalog → Catalog × Option Failure
premake db zero day_start c = (c, none)
premake db (suc left) day_start c =
    if not (db.creates (leaf_name day_start))
    then (c, some create_partition)
    else elim (create_leaf day_start c) [
      | none ↦ (c, some create_partition)
      | some c' ↦ elim (db.alters (leaf_name day_start)) [
        | false ↦ (c', some alter_partition)
        | true ↦ premake db left (day_start +ℤ pos 86400) c'
      ]
    ]

abbrev pub is_aged : Text → Text → Bool
is_aged cutoff_leaf leaf = ltb_text leaf cutoff_leaf && starts_with leaf leaf_prefix

-- `ALTER TABLE knievel.events_raw DETACH PARTITION knievel.leaf`
abbrev pub detach_leaf : Text → Catalog → Catalog
detach_leaf name c = record {
  attached = filter (λ leaf. not (has_name name leaf)) c.attached;
  detached = filter (has_name name) c.attached ++ c.detached;
}

unfoldable pub detach_aged : DbAnswers → Text → List Text → Catalog → Catalog
detach_aged db cutoff_leaf [] c = c
detach_aged db cutoff_leaf (leaf ∷ leaves) c =
    detach_aged db cutoff_leaf leaves
      (if is_aged cutoff_leaf leaf && db.detaches leaf then detach_leaf leaf c else c)

abbrev pub cutoff_of : ℤ → ℤ → ℤ
cutoff_of now_secs retention_days = day_start_secs now_secs -ℤ times retention_days 86400

-- The retention of `run_once`.
unfoldable pub sweep : DbAnswers → Text → Catalog → Catalog × Option Failure
sweep db cutoff_leaf c =
    if not db.lists
    then (c, some list_partitions)
    else (detach_aged db cutoff_leaf (filter (like leaf_prefix) (map Leaf.name c.attached)) c, none)

-- An error of the premaking ends the pass: `?`.
abbrev pub then_sweep : DbAnswers → Text → Catalog × Option Failure → Catalog × Option Failure
then_sweep db cutoff_leaf (c, some failure) = (c, some failure)
then_sweep db cutoff_leaf (c, none) = sweep db cutoff_leaf c

unfoldable pub run_once : DbAnswers → ℤ → ℤ → Catalog → Catalog × Option Failure
run_once db now_secs retention_days c =
    then_sweep db (leaf_name (cutoff_of now_secs retention_days))
      (premake db premake_days (day_start_secs now_secs) c)

-- One round of the loop of `spawn`, at the time `now` of the monotonic clock.
abbrev pub tick : DbAnswers → ℕ → ℤ → ℤ → Catalog × LeaderHandle → Catalog × LeaderHandle
tick db now now_secs retention_days (c, leader) =
    if not leader.is_leader
    then (c, leader)
    else let (c', failure) = run_once db now_secs retention_days c in
      elim failure [ some f ↦ (c', leader) | none ↦ (c', record_tick now leader) ]
