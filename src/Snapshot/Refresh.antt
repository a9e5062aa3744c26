-- ===== src/Snapshot/Refresh.antt =====
-- The refresh of the snapshot.
use knievel.Base.{nat_eq, ℤ, ◌≤ℤ◌, int_eq, All, text_eq, List, [], ◌∷◌, arith}
use knievel.Base.Result.{Result, ok, err}
use knievel.Snapshot.{Snapshot, SnapshotStore, DbError, read, swap, tick, ticks_from}

module _ {J : Type 0} where
  -- One tick, as a poll and a reload: a reload reads the version of its own transaction, which is no
  -- older than the version polled before (a sequence never goes back).
  abbrev pub IsOrdered : Result DbError ℤ × Result DbError (Snapshot J) → Type 0
  IsOrdered (err e, reload) = Unit
  IsOrdered (ok v, err e) = Unit
  IsOrdered (ok v, ok snap) = v ≤ℤ snap.config_version

  tick-ordered :
      (polled : Result DbError ℤ) (reload : Result DbError (Snapshot J)) (s : SnapshotStore J)
      → IsOrdered (polled, reload)
      → s.inner.config_version ≤ℤ (tick polled reload s).inner.config_version
  unfolding tick read swap
  tick-ordered (err e) reload s h = omega arith
  tick-ordered (ok v) (err e) s h = ground arith
  tick-ordered (ok v) (ok snap) s h = ground arith

  -- When no reload is older than the version polled before it, the version that readers see never goes
  -- back, whichever polls and reloads fail.
  ticks_from-ordered :
      (ts : List (Result DbError ℤ × Result DbError (Snapshot J))) (s : SnapshotStore J)
      → All IsOrdered ts
      → s.inner.config_version ≤ℤ (ticks_from ts s).inner.config_version
  unfolding ticks_from
  ticks_from-ordered [] s h = omega arith
  ticks_from-ordered ((polled, reload) ∷ ts) s h =
      let one = tick-ordered polled reload s h.0 in
      let rest = ticks_from-ordered ts (tick polled reload s) h.1 in omega (arith, one, rest)
