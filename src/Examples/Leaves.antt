-- ===== src/Examples/Leaves.antt =====
-- The maintenance of partitions on a few days.
use knievel.Base.{
  nat_eq, ◌+ℤ◌, ◌-ℤ◌, int_eq, as_u64, div_trunc, In, filter, any, text, text_eq, pos, ℕ, ◌+◌, ◌*◌,
  ◌≡◌, refl, inl, true, false, none, some, [], ◌∷◌, arith,
}
use knievel.Sql.{starts_with}
use knievel.Partitions.{
  Leaf, Catalog, DbAnswers, leaf_of, leaf_name, exists, overlaps, day_start_secs, create_leaf,
  premake, detach_aged, sweep, run_once, create_partition, ymd_from_epoch, ymd_of_era, as_i32,
  decimal,
}
use knievel.Partitions.Retained.{run_once-Retains}
use knievel.Partitions.Again.{run_once-again}
use knievel.Partitions.Seeded.{run_once-overlapped}

-- 2000-03-01 and the leap day before it.
leap_day : leaf_name (pos (11016 * 86400)) ≡ text "events_raw_p2000_02_29"
unfolding leaf_name ymd_from_epoch ymd_of_era as_i32 decimal as_u64 div_trunc ◌+ℤ◌ ◌-ℤ◌
leap_day = refl

-- 2026-01-02, an hour after midnight.
abbrev now_secs : ℕ
now_secs = 20455 * 86400 + 3600

abbrev answering : DbAnswers
answering = record {
  creates = λ name. true;
  alters = λ name. true;
  lists = true;
  detaches = λ name. true;
}

-- A leaf within the retention window and one before it.
abbrev daily : Catalog
daily = record {
  attached = leaf_of (pos (20450 * 86400)) ∷ leaf_of (pos (20420 * 86400)) ∷ [];
  detached = [];
}

run_once-Retains_example :
    In (leaf_of (pos (20450 * 86400))) (run_once answering (pos now_secs) (pos 30) daily).0.attached
run_once-Retains_example =
    run_once-Retains answering now_secs 30 daily (leaf_of (pos (20450 * 86400))) 20450 (omega arith)
      (omega arith) (omega arith) (omega arith) refl (inl refl)

abbrev swept_catalog : Catalog
swept_catalog = (run_once answering (pos now_secs) (pos 30) daily).0

ends_well : run_once answering (pos now_secs) (pos 30) daily ≡ (swept_catalog, none)
unfolding run_once premake create_leaf sweep any leaf_name ymd_from_epoch ymd_of_era as_i32 as_u64
    ◌-ℤ◌ ◌+ℤ◌ div_trunc decimal day_start_secs
ends_well = refl

run_once-again_example :
    run_once answering (pos now_secs) (pos 30) swept_catalog ≡ (swept_catalog, none)
run_once-again_example =
    run_once-again answering (pos now_secs) (pos 30) daily swept_catalog ends_well

-- The seed leaf of the migration has all of 2026.
abbrev seed_leaf : Leaf
seed_leaf = record {
  name = text "events_raw_p2026";
  from_secs = pos (20454 * 86400);
  to_secs = pos (20819 * 86400);
}

abbrev seeded : Catalog
seeded = record { attached = seed_leaf ∷ []; detached = [] }

no_daily_leaf : exists (leaf_name (day_start_secs (pos now_secs))) seeded ≡ false
unfolding any leaf_name ymd_from_epoch ymd_of_era as_i32 decimal as_u64 div_trunc day_start_secs
    ◌+ℤ◌ ◌-ℤ◌
no_daily_leaf = refl

covers_the_day :
    overlaps (day_start_secs (pos now_secs)) (day_start_secs (pos now_secs) +ℤ pos 86400) seed_leaf
    ≡ true
unfolding day_start_secs ◌+ℤ◌ ◌-ℤ◌
covers_the_day = refl

run_once-overlapped_example :
    run_once answering (pos now_secs) (pos 30) seeded ≡ (seeded, some create_partition)
run_once-overlapped_example =
    run_once-overlapped answering (pos now_secs) (pos 30) seeded seed_leaf (inl refl) covers_the_day
      no_daily_leaf

-- In 2027 the name of the seed leaf is before that of every cutoff, so it is detached as a whole.
seed_is_aged :
    (run_once answering (pos (20823 * 86400)) (pos 30) seeded).0.detached ≡ seed_leaf ∷ []
unfolding run_once premake create_leaf sweep detach_aged any filter starts_with leaf_name
    ymd_from_epoch ymd_of_era as_i32 decimal as_u64 div_trunc day_start_secs ◌+ℤ◌ ◌-ℤ◌
seed_is_aged = refl
