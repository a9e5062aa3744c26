-- ===== src/Rollup/Laws.antt =====
-- src/rollup.rs: what a pass of the rollup leaves, at whatever transaction it stops, and that it
-- ends.
use knievel.Base.{
  ltb, eqb, if◌then◌else◌, Bool-cases, nat_eq, int_eq, text_eq, ℕ, zero, suc, ◌+◌, ◌*◌, ◌%◌, ◌≤◌,
  ◌<◌, ◌≡◌, refl, ap, subst, ◌≢◌, inl, inr, Bool, Option, some, List, arith,
}
use knievel.Base.Assoc.{get}
use knievel.Base.Result.{err}
use knievel.Rollup.{
  dims_eq, RawEvent, Dims, Db, aggregate_and_advance, set_watermark, out_of_fuel, catch_up, count,
  grouped,
}
use knievel.Rollup.Group.{get-aggregate_hour}
use knievel.Rollup.Hour.{canonical, tally, count-grouped, canonical-hour}

-- The pass took the tables from `db` to `after`: it only rolled up the hours from `v` up to `w`, all
-- of them, by the canonical events of each key.
abbrev pub RolledUp : Db → ℕ → Db → ℕ → Type 0
RolledUp db v after w =
    (after.watermark ≡ some w)
    × (v ≤ w)
    × (w % 3600 ≡ 0)
    × (after.events_raw ≡ db.events_raw)
    × ((k : Dims) → get k after.events_rollup ≡ tally v w k db.events_raw (get k db.events_rollup))

-- No canonical event lies between the hours.
abbrev pub IsQuiet : List RawEvent → ℕ → ℕ → Type 0
IsQuiet events v w = (k : Dims) → v ≤ k.hour → k.hour < w → canonical k events ≡ 0

pub tally-quiet :
    (k : Dims) (events : List RawEvent) (v w : ℕ) (before : Option ℕ)
    → IsQuiet events v w
    → tally v w k events before ≡ before
tally-quiet k events v w before quiet = ground (arith, quiet k)

pub RolledUp-start : (db : Db) (v : ℕ) → db.watermark ≡ some v → v % 3600 ≡ 0 → RolledUp db v db v
RolledUp-start db v stored aligned = (stored, omega arith, aligned, refl, λ k. ground arith)

-- One more hour, after a gap without events.
pub RolledUp-hour :
    (db now : Db) (v w wm : ℕ)
    → RolledUp db v now w
    → w ≤ wm
    → wm % 3600 ≡ 0
    → IsQuiet db.events_raw w wm
    → RolledUp db v (aggregate_and_advance now wm (wm + 3600)) (wm + 3600)
unfolding aggregate_and_advance
RolledUp-hour db now v w wm (stored, le, aligned, same, counts) ahead aligned' quiet = (
  ap (set_watermark (wm + 3600)) stored,
  omega arith,
  omega arith,
  same,
  λ k. ground (
    arith,
    get-aggregate_hour k now.events_raw wm (wm + 3600) now.events_rollup,
    subst
        (λ es. count k (grouped wm (wm + 3600) es) ≡ (if eqb k.hour wm then canonical k es else 0))
        same (count-grouped k wm now.events_raw aligned'),
    counts k,
    quiet k,
    same,
    canonical-hour k db.events_raw,
  ),
)

abbrev pub IsRolledUp : Db → ℕ → Db → Type 0
IsRolledUp db v after = (w : ℕ) × RolledUp db v after w

pub catch_up-RolledUp :
    (fuel : ℕ) (commits : ℕ → Bool) (n target wm : ℕ) (db now : Db) (v w : ℕ)
    → RolledUp db v now w
    → w ≤ wm
    → wm % 3600 ≡ 0
    → IsQuiet db.events_raw w wm
    → IsRolledUp db v (catch_up fuel commits n target wm now).0
unfolding catch_up
catch_up-RolledUp zero commits n target wm db now v w so_far le aligned quiet =
    elim (Bool-cases (ltb wm target)) [ inl t ↦ rw t (w, so_far) | inr f ↦ rw f (w, so_far) ]
catch_up-RolledUp (suc fuel) commits n target wm db now v w so_far le aligned quiet =
    let rest =
      catch_up-RolledUp fuel commits (n + 1) target (wm + 3600) db
        (aggregate_and_advance now wm (wm + 3600)) v (wm + 3600)
        (RolledUp-hour db now v w wm so_far le aligned quiet) (omega arith) (omega arith)
        (λ k above below. omega arith) in
    elim (Bool-cases (ltb wm target)) [
      | inl t ↦ elim (Bool-cases (commits n)) [
        | inl c ↦ rw (t, c) rest
        | inr c ↦ rw (t, c) (w, so_far)
      ]
      | inr f ↦ rw f (w, so_far)
    ]

-- The loop is never cut off: the fuel is the number of hours that are left.
pub catch_up-ends :
    (fuel : ℕ) (commits : ℕ → Bool) (n target wm : ℕ) (db : Db)
    → target ≤ wm + 3600 * fuel
    → (catch_up fuel commits n target wm db).1 ≢ err out_of_fuel
unfolding catch_up
catch_up-ends zero commits n target wm db enough = ground arith
catch_up-ends (suc fuel) commits n target wm db enough =
    let rest =
      catch_up-ends fuel commits (n + 1) target (wm + 3600)
        (aggregate_and_advance db wm (wm + 3600)) in
    ground (arith, rest)
