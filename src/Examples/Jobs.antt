-- ===== src/Examples/Jobs.antt =====
-- The theorems on the background jobs at small tables.
use knievel.Base.{
  nat_eq, int_eq, filter, contains, text, text_eq, ℕ, ◌≡◌, refl, ◌≢◌, Bool, true, false, none, some,
  [], ◌∷◌,
}
use knievel.Base.Assoc.{get, insert}
use knievel.Base.Result.{err}
use knievel.Rollup.{
  dims_eq, RawEvent, Dims, Db, out_of_fuel, run_once, target_of, dims_of, count, groups,
  upsert_groups, grouped, aggregate_hour, aggregate_and_advance, catch_up, read_watermark,
  pass_from,
}
use knievel.Rollup.Laws.{IsRolledUp}
use knievel.Rollup.Pass.{HasReturned, run_once-RolledUp, run_once-HasReturned}
use knievel.Leader.{
  World, fresh_world, put, connect, race, try_acquire, record_tick, store, lose_session, fail,
  end_session, connects, races, session_is_lost, ends, Reaches, begins, goes_on,
}
use knievel.Leader.Held.{InCharge, is_held_by}
use knievel.Leader.Exact.{IsExact}
use knievel.Leader.Laws.{Leads, Reaches-OneLeader}

abbrev click_at : ℕ → Bool → RawEvent
click_at ts is_duplicate = record {
  ts = ts;
  is_duplicate = is_duplicate;
  project_id = text "pj";
  site_id = none;
  zone_id = none;
  flight_id = none;
  ad_id = some 7;
  creative_id = some 3;
  kind = 2;
}

-- Two clicks and a repeated one in the first hour, and one in the hour that is not settled.
abbrev db1 : Db
db1 = record {
  events_raw =
      click_at 5000000 false
      ∷ click_at 5000001 true
      ∷ click_at 7000000 false
      ∷ click_at 8000000000 false
      ∷ [];
  events_rollup = [];
  watermark = some 0;
}

abbrev clicks : Dims
clicks = record {
  hour = 0;
  project = text "pj";
  kind_of = 2;
  site = 0;
  zone = 0;
  flight = 0;
  ad = 7;
  creative = 3;
}

abbrev all_commit : ℕ → Bool
all_commit n = true

run_once-rolled : get clicks (run_once all_commit 7300 db1).0.events_rollup ≡ some 2
unfolding run_once read_watermark pass_from catch_up aggregate_and_advance aggregate_hour grouped
    upsert_groups groups count dims_of contains filter get insert
run_once-rolled = refl

run_once-RolledUp_example :
    IsRolledUp db1 0 (run_once all_commit 7300 db1).0
    × ((run_once all_commit 7300 db1).1 ≢ err out_of_fuel)
run_once-RolledUp_example = run_once-RolledUp all_commit 7300 db1 0 refl refl

run_once-HasReturned_example : HasReturned db1 0 (target_of 7300) (run_once all_commit 7300 db1)
run_once-HasReturned_example = run_once-HasReturned all_commit 7300 db1 0 (λ i. refl) refl refl

abbrev started : World
started = fresh_world 100

abbrev connected : World
connected = record started { instances = put 0 (connect 0 (started.instances 0)) started.instances }

abbrev elected : World
elected = race 0 connected

elected-Reaches : (may_fail : Bool) → Reaches may_fail elected
unfolding connect
elected-Reaches may_fail =
    goes_on (goes_on (begins 100) (connects started 0 0 refl)) (races connected 0 refl refl)

Reaches-OneLeader_example :
    ((i : ℕ)
      → InCharge (elected.instances i)
      → is_held_by i (elected.instances i).connection elected.lock ≡ true)
    × ((i j : ℕ) → Leads (elected.instances i) → Leads (elected.instances j) → i ≡ j)
    × (false ≡ false
        → IsExact elected
          × ((i : ℕ)
              → ((j : ℕ) → ¬ InCharge (elected.instances j))
              → (elected.instances i).is_connected ≡ true
              → InCharge ((race i elected).instances i)))
Reaches-OneLeader_example = Reaches-OneLeader false elected (elected-Reaches false)

-- The liveness query fails on the live connection, and the session ends.
abbrev failed : World
failed = lose_session 0 elected

abbrev stranded : World
stranded = record failed { instances = put 0 (end_session (failed.instances 0)) failed.instances }

stranded-Reaches : Reaches true stranded
unfolding race connect try_acquire record_tick store lose_session fail end_session
stranded-Reaches =
    goes_on (goes_on (elected-Reaches true) (session_is_lost elected 0 refl refl refl))
      (ends failed 0 refl)

-- The idle connection keeps the lock, and another instance that races does not get it.
stranded-lock :
    (stranded.lock ≡ some (record { instance_of = 0; connection_of = 0; extra = 0 }))
    × ((race 1 stranded).lock ≡ stranded.lock)
unfolding race connect try_acquire record_tick store lose_session fail end_session
stranded-lock = (refl, refl)
