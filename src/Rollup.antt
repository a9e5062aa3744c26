-- ===== src/Rollup.antt =====
-- src/rollup.rs: the hourly rollup of `events_raw` into `events_rollup`. A `Db` is what the pass
-- reads and writes: the raw events of every tenant (the loader role bypasses row-level security),
-- the rollup table by its primary key, and the one row of the watermark table, if it is there.
-- Times are from 1970 on: hours and watermarks in seconds, the `ts` of an event in microseconds.
-- Each transaction takes effect as a whole or not at all; `commits n` says which for the n-th.

pub mod Group
pub mod Hour
pub mod Laws
pub mod Pass
use knievel.Base.{
  ltb, leb, eqb, if◌then◌else◌, Eq, nat_eq, ◌==◌, eq_of_==, ==_refl, int_eq, length, filter,
  contains, Text, text_eq, ℕ, zero, suc, ◌+◌, ◌-◌, ◌*◌, ◌/◌, ◌%◌, min, max, ◌≡◌, ◌↔◌, Bool, true,
  not, ◌&&◌, Option, none, some, List, [], ◌∷◌, map, arith,
}
use knievel.Base.Assoc.{Assoc, insert}
use knievel.Base.Result.{Result, ok, err, ok_or}

-- The columns of `events_raw` that the rollup reads.
pub record RawEvent : Type 0 where
  pub ts : ℕ
  pub is_duplicate : Bool
  pub project_id : Text
  pub site_id : Option ℕ
  pub zone_id : Option ℕ
  pub flight_id : Option ℕ
  pub ad_id : Option ℕ
  pub creative_id : Option ℕ
  pub kind : ℕ

-- The primary key of `events_rollup`.
pub record Dims : Type 0 where
  pub hour : ℕ
  pub project : Text
  pub kind_of : ℕ
  pub site : ℕ
  pub zone : ℕ
  pub flight : ℕ
  pub ad : ℕ
  pub creative : ℕ

abbrev pub eqb_dims : Dims → Dims → Bool
eqb_dims a b =
    eqb a.hour b.hour
    && (a.project == b.project)
    && eqb a.kind_of b.kind_of
    && eqb a.site b.site
    && eqb a.zone b.zone
    && eqb a.flight b.flight
    && eqb a.ad b.ad
    && eqb a.creative b.creative

pub eqb_dims_iff : (a b : Dims) → (eqb_dims a b ≡ true) ↔ (a ≡ b)
eqb_dims_iff a b = ground (arith, eq_of_== a.project b.project, ==_refl a.project)

instance abbrev pub dims_eq : Eq Dims
dims_eq = record { eq = eqb_dims; eq_iff = eqb_dims_iff }

-- `coalesce(id, 0)`
abbrev pub coalesce : Option ℕ → ℕ
coalesce none = 0
coalesce (some i) = i

-- `date_trunc('hour', ts)`, in seconds.
abbrev pub hour_of : RawEvent → ℕ
hour_of e = e.ts / (3600 * 1000000) * 3600

-- The columns that the rows are grouped by.
unfoldable pub dims_of : RawEvent → Dims
dims_of e = record {
  hour = hour_of e;
  project = e.project_id;
  kind_of = e.kind;
  site = coalesce e.site_id;
  zone = coalesce e.zone_id;
  flight = coalesce e.flight_id;
  ad = coalesce e.ad_id;
  creative = coalesce e.creative_id;
}

-- `NOT is_duplicate AND ts >= to_timestamp($1) AND ts < to_timestamp($2)`
abbrev pub in_window : ℕ → ℕ → RawEvent → Bool
in_window hour_start hour_end e =
    not e.is_duplicate && leb (hour_start * 1000000) e.ts && ltb e.ts (hour_end * 1000000)

-- `count(*)` of a group.
unfoldable pub count : Dims → List Dims → ℕ
count k [] = 0
count k (d ∷ ds) = let rest = count k ds in if d == k then suc rest else rest

-- The groups, each once.
unfoldable pub groups : List Dims → List Dims
groups [] = []
groups (d ∷ ds) = let rest = groups ds in if contains rest d then rest else d ∷ rest

-- One row for each group: `ON CONFLICT (...) DO UPDATE SET count = EXCLUDED.count`.
unfoldable pub upsert_groups : List Dims → List Dims → Assoc Dims ℕ → Assoc Dims ℕ
upsert_groups [] rows rollup = rollup
upsert_groups (k ∷ ks) rows rollup = upsert_groups ks rows (insert k (count k rows) rollup)

-- The rows of the window, by their grouping columns.
unfoldable pub grouped : ℕ → ℕ → List RawEvent → List Dims
grouped hour_start hour_end events = map dims_of (filter (in_window hour_start hour_end) events)

pub record Db : Type 0 where
  pub events_raw : List RawEvent
  pub events_rollup : Assoc Dims ℕ
  pub watermark : Option ℕ

-- The `UPDATE` of the watermark touches no row where there is none.
abbrev pub set_watermark : ℕ → Option ℕ → Option ℕ
set_watermark to_secs none = none
set_watermark to_secs (some w) = some to_secs

-- The rollup table after the hour, and the number of rows written.
unfoldable pub aggregate_hour : List RawEvent → ℕ → ℕ → Assoc Dims ℕ → Assoc Dims ℕ × ℕ
aggregate_hour events hour_start hour_end rollup =
    let rows = grouped hour_start hour_end events in
    let keys = groups rows in (upsert_groups keys rows rollup, length keys)

unfoldable pub aggregate_and_advance : Db → ℕ → ℕ → Db
aggregate_and_advance db hour_start hour_end = record db {
  events_rollup = (aggregate_hour db.events_raw hour_start hour_end db.events_rollup).0;
  watermark = set_watermark hour_end db.watermark;
}

unfoldable pub advance_watermark_to : Db → ℕ → Db
advance_watermark_to db to_secs = record db { watermark = set_watermark to_secs db.watermark }

-- `date_trunc('hour', min(ts))`, or none of an empty table.
unfoldable pub earliest_event_hour : List RawEvent → Option ℕ
earliest_event_hour [] = none
earliest_event_hour (e ∷ es) = elim (earliest_event_hour es) [
  | none ↦ some (hour_of e)
  | some h ↦ some (min (hour_of e) h)
]

-- `out_of_fuel` stands for a loop that the fuel cuts off: the program has no such error.
pub data RollupError : Type 0 where
  database out_of_fuel : RollupError

abbrev pub cold_start_gap_secs : ℕ
cold_start_gap_secs = 60 * 24 * 3600

-- `while wm < target`. `n` numbers the transactions.
unfoldable pub catch_up : ℕ → (ℕ → Bool) → ℕ → ℕ → ℕ → Db → Db × Result RollupError ℕ
catch_up zero commits n target wm db = if ltb wm target then (db, err out_of_fuel) else (db, ok wm)
catch_up (suc fuel) commits n target wm db =
    let rest =
      catch_up fuel commits (n + 1) target (wm + 3600) (aggregate_and_advance db wm (wm + 3600)) in
    if ltb wm target then (if commits n then rest else (db, err database)) else (db, ok wm)

-- floor(now / 3600) * 3600 - 3600. In the first hour of 1970 the program's `target` is negative and
-- this one 0: no watermark is below either.
abbrev pub target_of : ℕ → ℕ
target_of now = now - now % 3600 - 3600

-- One hour of the loop for each unit.
abbrev pub hours_between : ℕ → ℕ → ℕ
hours_between wm target = (target - wm + 3599) / 3600

abbrev pub loop : (ℕ → Bool) → ℕ → ℕ → ℕ → Db → Db × Result RollupError ℕ
loop commits n target wm db = catch_up (hours_between wm target) commits n target wm db

-- Transaction 0.
unfoldable pub read_watermark : (ℕ → Bool) → Db → Result RollupError ℕ
read_watermark commits db = if commits 0 then ok_or db.watermark database else err database

-- The pass after its read. A watermark far behind is moved to the earliest event's hour, which
-- transaction 1 asks for, and never back.
unfoldable pub pass_from : (ℕ → Bool) → ℕ → ℕ → Db → Db × Result RollupError ℕ
pass_from commits target wm db =
    if ltb (wm + cold_start_gap_secs) target
    then (if not (commits 1) then (db, err database) else elim (earliest_event_hour db.events_raw) [
      | some earliest ↦ loop commits 2 target (max wm earliest) db
      | none ↦ if commits 2 then (advance_watermark_to db target, ok target) else (db, err database)
    ])
    else loop commits 1 target wm db

-- The tables after the pass, and the result.
unfoldable pub run_once : (ℕ → Bool) → ℕ → Db → Db × Result RollupError ℕ
run_once commits now db = elim (read_watermark commits db) [
  | err e ↦ (db, err e)
  | ok wm ↦ pass_from commits (target_of now) wm db
]
