-- ===== src/Rollup/Group.antt =====
-- src/rollup.rs: what the aggregate query leaves under each key of the rollup table.
use knievel.Base.{
  ltb, if◌then◌else◌, nat_eq, eq_of_==, ==_refl, int_eq, contains, text_eq, ℕ, ◌≡◌, refl, some,
  List, [], ◌∷◌, arith,
}
use knievel.Base.Assoc.{Assoc, get, insert, get-insert}
use knievel.Rollup.{dims_eq, RawEvent, Dims, count, groups, upsert_groups, grouped, aggregate_hour}

-- A key counts in the list exactly when it stands there.
pub count-contains : (k : Dims) (ds : List Dims) → ltb 0 (count k ds) ≡ contains ds k
unfolding count contains
count-contains k [] = ground arith
count-contains k (d ∷ ds) = ground (arith, count-contains k ds)

-- The groups have the same keys as the rows.
pub contains-groups : (k : Dims) (ds : List Dims) → contains (groups ds) k ≡ contains ds k
unfolding groups contains
contains-groups k [] = refl
contains-groups k (d ∷ ds) =
    ground (arith, contains-groups k ds, contains-groups d ds, eq_of_== d k, ==_refl k)

pub get-upsert_groups :
    (k : Dims) (ks rows : List Dims) (rollup : Assoc Dims ℕ)
    → get k (upsert_groups ks rows rollup)
      ≡ (if contains ks k then some (count k rows) else get k rollup)
unfolding upsert_groups contains
get-upsert_groups k [] rows rollup = refl
get-upsert_groups k (j ∷ ks) rows rollup = ground (
  arith,
  get-upsert_groups k ks rows (insert j (count j rows) rollup),
  get-insert j k (count j rows) rollup,
  eq_of_== j k,
)

-- After the query a key has the count of its rows, where it has any.
pub get-aggregate_hour :
    (k : Dims) (events : List RawEvent) (a b : ℕ) (rollup : Assoc Dims ℕ)
    → get k (aggregate_hour events a b rollup).0 ≡ (
        if ltb 0 (count k (grouped a b events))
        then some (count k (grouped a b events))
        else get k rollup)
unfolding aggregate_hour
get-aggregate_hour k events a b rollup = ground (
  arith,
  get-upsert_groups k (groups (grouped a b events)) (grouped a b events) rollup,
  contains-groups k (grouped a b events),
  count-contains k (grouped a b events),
)
