-- ===== src/Partitions/Seeded.antt =====
-- src/partitions.rs: the daily leaves beside a longer one, such as the seed of the migration.
use knievel.Base.{
  Bool-cases, nat_eq, ℤ, ◌+ℤ◌, int_eq, In, any_of_In, text_eq, pos, ℕ, suc, ◌≡◌, refl, ap, inl, inr,
  true, false, none, some,
}
use knievel.Partitions.{
  day_start_secs, leaf_name, Leaf, Catalog, DbAnswers, exists, overlaps, create_leaf, premake,
  cutoff_of, then_sweep, run_once, create_partition,
}

create_leaf-overlapped :
    (s : ℤ) (c : Catalog) (leaf : Leaf)
    → In leaf c.attached
    → overlaps s (s +ℤ pos 86400) leaf ≡ true
    → exists (leaf_name s) c ≡ false
    → create_leaf s c ≡ none
unfolding create_leaf
create_leaf-overlapped s c leaf i over new =
    let blocked = any_of_In (overlaps s (s +ℤ pos 86400)) leaf c.attached i over in
    rw (new, blocked, create_leaf) refl

premake-overlapped :
    (db : DbAnswers) (left : ℕ) (s : ℤ) (c : Catalog)
    → create_leaf s c ≡ none
    → premake db (suc left) s c ≡ (c, some create_partition)
unfolding premake
premake-overlapped db left s c e = elim (Bool-cases (db.creates (leaf_name s))) [
  | inl t ↦ rw (t, e, premake) refl
  | inr f ↦ rw (f, premake) refl
]

-- While a leaf that is attached overlaps the day and the day has no table of its own, a pass fails
-- at its first statement: it changes nothing, so that nothing is detached either.
pub run_once-overlapped :
    (db : DbAnswers) (now retention : ℤ) (c : Catalog) (leaf : Leaf)
    → In leaf c.attached
    → overlaps (day_start_secs now) (day_start_secs now +ℤ pos 86400) leaf ≡ true
    → exists (leaf_name (day_start_secs now)) c ≡ false
    → run_once db now retention c ≡ (c, some create_partition)
unfolding run_once
run_once-overlapped db now retention c leaf i over new =
    ap (then_sweep db (leaf_name (cutoff_of now retention))) (
      premake-overlapped db 3 (day_start_secs now) c
        (create_leaf-overlapped (day_start_secs now) c leaf i over new))
