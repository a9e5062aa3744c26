-- ===== src/Rollup/Pass.antt =====
-- src/rollup.rs: a whole pass of the rollup, `run_once`.
use knievel.Base.{
  ltb, if◌then◌else◌, Bool-cases, Option-cases, nat_eq, int_eq, text_eq, ℕ, zero, suc, ◌+◌, ◌*◌,
  ◌%◌, ◌≤◌, ◌<◌, max, ◌≡◌, refl, ap, ◌≢◌, ◌⊎◌, inl, inr, Bool, true, some, List, [], ◌∷◌, arith,
}
use knievel.Base.Result.{Result, ok, err}
use knievel.Rollup.{
  RawEvent, Dims, Db, advance_watermark_to, set_watermark, aggregate_and_advance,
  earliest_event_hour, RollupError, database, out_of_fuel, catch_up, hours_between, target_of,
  run_once, cold_start_gap_secs, read_watermark, pass_from,
}
use knievel.Rollup.Hour.{canonical, canonical-earliest, canonical-none}
use knievel.Rollup.Laws.{RolledUp, IsRolledUp, RolledUp-start, catch_up-RolledUp, catch_up-ends}

-- The last fully settled hour is an hour.
pub target_of-aligned : (now : ℕ) → target_of now % 3600 ≡ 0
target_of-aligned now = omega arith

pub hours_between-enough : (wm target : ℕ) → target ≤ wm + 3600 * hours_between wm target
hours_between-enough wm target = omega arith

pub earliest-aligned :
    (events : List RawEvent) {h : ℕ} → earliest_event_hour events ≡ some h → h % 3600 ≡ 0
unfolding earliest_event_hour
earliest-aligned [] q = cc
earliest-aligned (e ∷ es) q = elim (Option-cases (earliest_event_hour es)) [
  | inl n ↦ let q' = rw (n, earliest_event_hour) at q in ground arith
  | inr (h, s) ↦ let q' = rw (s, earliest_event_hour) at q in ground (arith, earliest-aligned es s)
]

-- A jump of the watermark over hours without events.
pub RolledUp-jump :
    (db : Db) (v w : ℕ)
    → db.watermark ≡ some v
    → v ≤ w
    → w % 3600 ≡ 0
    → ((k : Dims) → canonical k db.events_raw ≡ 0)
    → RolledUp db v (advance_watermark_to db w) w
unfolding advance_watermark_to
RolledUp-jump db v w stored le aligned quiet =
    (ap (set_watermark w) stored, le, aligned, refl, λ k. ground (arith, quiet k))

pub read_watermark_of :
    (commits : ℕ → Bool) (db : Db) {v : ℕ}
    → db.watermark ≡ some v
    → read_watermark commits db ≡ (if commits 0 then ok v else err database)
unfolding read_watermark
read_watermark_of commits db stored = ground arith

pub pass_from-RolledUp :
    (commits : ℕ → Bool) (target : ℕ) (db : Db) (v : ℕ)
    → db.watermark ≡ some v
    → v % 3600 ≡ 0
    → target % 3600 ≡ 0
    → IsRolledUp db v (pass_from commits target v db).0
unfolding pass_from
pass_from-RolledUp commits target db v stored aligned target_aligned =
    let still = RolledUp-start db v stored aligned in
    elim (Bool-cases (ltb (v + cold_start_gap_secs) target)) [
      | inr warm ↦ rw warm (
          catch_up-RolledUp (hours_between v target) commits 1 target v db db v v still
            (omega arith) aligned (λ k above below. omega arith))
      | inl cold ↦ elim (Bool-cases (commits 1)) [
        | inr f1 ↦ rw (cold, f1) (v, still)
        | inl t1 ↦ elim (Option-cases (earliest_event_hour db.events_raw)) [
          | inr (h, s) ↦
              rw (cold, t1, s)
                (catch_up-RolledUp (hours_between (max v h) target) commits 2 target (max v h) db db
                  v v still (omega arith) (ground (arith, earliest-aligned db.events_raw s))
                  (λ k above below. ground (arith, canonical-earliest k db.events_raw s)))
          | inl n ↦ elim (Bool-cases (commits 2)) [
            | inr f2 ↦ rw (cold, t1, n, f2) (v, still)
            | inl t2 ↦
                rw (cold, t1, n, t2)
                  (
                    target,
                    RolledUp-jump db v target stored (ground arith) target_aligned
                        (λ k. canonical-none k db.events_raw n),
                  )
          ]
        ]
      ]
    ]

pub catch_up-returns :
    (fuel : ℕ) (commits : ℕ → Bool) (n target wm : ℕ) (db : Db)
    → ((i : ℕ) → commits i ≡ true)
    → wm % 3600 ≡ 0
    → target % 3600 ≡ 0
    → target ≤ wm + 3600 * fuel
    → (catch_up fuel commits n target wm db).1 ≡ ok (max wm target)
unfolding catch_up
catch_up-returns zero commits n target wm db up aligned target_aligned enough = ground arith
catch_up-returns (suc fuel) commits n target wm db up aligned target_aligned enough = ground (
  arith,
  up n,
  catch_up-returns fuel commits (n + 1) target (wm + 3600) (aggregate_and_advance db wm (wm + 3600))
      up,
)

-- The loop leaves the watermark at its target, when it begins at the stored one or runs at all.
pub catch_up-stores :
    (fuel : ℕ) (commits : ℕ → Bool) (n target wm : ℕ) (db : Db) {v : ℕ}
    → ((i : ℕ) → commits i ≡ true)
    → wm % 3600 ≡ 0
    → target % 3600 ≡ 0
    → target ≤ wm + 3600 * fuel
    → db.watermark ≡ some v
    → (v ≡ wm) ⊎ (wm < target)
    → (catch_up fuel commits n target wm db).0.watermark ≡ some (max wm target)
unfolding catch_up aggregate_and_advance
catch_up-stores zero commits n target wm db up aligned target_aligned enough stored runs =
    ground arith
catch_up-stores (suc fuel) commits n target wm db up aligned target_aligned enough stored runs =
    ground (
      arith,
      up n,
      catch_up-stores fuel commits (n + 1) target (wm + 3600)
          (aggregate_and_advance db wm (wm + 3600)) {v = wm + 3600} up,
      ap (set_watermark (wm + 3600)) stored,
    )

-- Events of the hour that is not settled yet, or none older, with a watermark that is far behind.
abbrev pub IsAhead : Db → ℕ → Type 0
IsAhead db target = (h : ℕ) × (earliest_event_hour db.events_raw ≡ some h) × (target ≤ h)

-- A pass that starts at `v` and whose result is `r` returns a watermark at the target or later.
abbrev pub HasReturned : Db → ℕ → ℕ → Db × Result RollupError ℕ → Type 0
HasReturned db v target r =
    (w : ℕ) × (r.1 ≡ ok w) × (target ≤ w) × (v ≤ w) × ((r.0.watermark ≡ some w) ⊎ IsAhead db target)

pub pass_from-HasReturned :
    (commits : ℕ → Bool) (target : ℕ) (db : Db) (v : ℕ)
    → ((i : ℕ) → commits i ≡ true)
    → db.watermark ≡ some v
    → v % 3600 ≡ 0
    → target % 3600 ≡ 0
    → HasReturned db v target (pass_from commits target v db)
unfolding pass_from advance_watermark_to
pass_from-HasReturned commits target db v up stored aligned target_aligned =
    elim (Bool-cases (ltb (v + cold_start_gap_secs) target)) [
      | inr warm ↦ rw warm (
        max v target,
        catch_up-returns (hours_between v target) commits 1 target v db up aligned target_aligned
            (omega arith),
        omega arith,
        omega arith,
        inl (
            catch_up-stores (hours_between v target) commits 1 target v db up aligned target_aligned
              (omega arith) stored (inl refl)),
      )
      | inl cold ↦ elim (Option-cases (earliest_event_hour db.events_raw)) [
        | inr (h, s) ↦
            rw (cold, up 1, s)
              (
                max (max v h) target,
                catch_up-returns (hours_between (max v h) target) commits 2 target (max v h) db up
                    (ground (arith, earliest-aligned db.events_raw s)) target_aligned (omega arith),
                omega arith,
                omega arith,
                elim (Bool-cases (ltb (max v h) target)) [
                  | inl runs ↦ inl (
                      catch_up-stores (hours_between (max v h) target) commits 2 target (max v h) db
                        up (ground (arith, earliest-aligned db.events_raw s)) target_aligned
                        (omega arith) stored (inr (ground arith)))
                  | inr past ↦ inr (h, refl, ground arith)
                ],
              )
        | inl n ↦
            rw (cold, up 1, n, up 2)
              (target, refl, omega arith, ground arith, inl (ap (set_watermark target) stored))
      ]
    ]

pub pass_from-ends :
    (commits : ℕ → Bool) (target wm : ℕ) (db : Db)
    → (pass_from commits target wm db).1 ≢ err out_of_fuel
unfolding pass_from
pass_from-ends commits target wm db =
    let warm = catch_up-ends (hours_between wm target) commits 1 target wm db (omega arith) in
    elim (Option-cases (earliest_event_hour db.events_raw)) [
      | inl n ↦ rw (n, pass_from) (ground (arith, warm))
      | inr (h, s) ↦
          rw (s, pass_from)
            (ground (
              arith,
              warm,
              catch_up-ends (hours_between (max wm h) target) commits 2 target (max wm h) db
                  (omega arith),
            ))
    ]

-- A pass only rolls up the hours from the stored watermark up to the one it leaves, all of them,
-- each key by its events that are no duplicates, and leaves the other rows: also when a transaction
-- fails halfway, and whether or not it starts cold. The loop is never cut off. The stored watermark
-- is an hour.
pub run_once-RolledUp :
    (commits : ℕ → Bool) (now : ℕ) (db : Db) (v : ℕ)
    → db.watermark ≡ some v
    → v % 3600 ≡ 0
    → IsRolledUp db v (run_once commits now db).0 × ((run_once commits now db).1 ≢ err out_of_fuel)
unfolding run_once
run_once-RolledUp commits now db v stored aligned = elim (Bool-cases (commits 0)) [
  | inr f ↦
      rw (read_watermark_of commits db stored, f, run_once)
        ((v, RolledUp-start db v stored aligned), ground arith)
  | inl t ↦
      rw (read_watermark_of commits db stored, t, run_once)
        (
          pass_from-RolledUp commits (target_of now) db v stored aligned (target_of-aligned now),
          pass_from-ends commits (target_of now) v db,
        )
]

-- A pass whose transactions all commit returns a watermark that is not below the stored one nor
-- below the last settled hour, and has stored it, except after a cold start where the earliest
-- event is not below that hour. The stored watermark is an hour.
pub run_once-HasReturned :
    (commits : ℕ → Bool) (now : ℕ) (db : Db) (v : ℕ)
    → ((i : ℕ) → commits i ≡ true)
    → db.watermark ≡ some v
    → v % 3600 ≡ 0
    → HasReturned db v (target_of now) (run_once commits now db)
unfolding run_once
run_once-HasReturned commits now db v up stored aligned =
    rw (read_watermark_of commits db stored, up 0, run_once)
      (pass_from-HasReturned commits (target_of now) db v up stored aligned (target_of-aligned now))
