-- ===== src/Leader/Held.antt =====
-- src/leader.rs: an instance in the inner loop holds the lock, and has its flag set.
use knievel.Base.{
  eqb_iff, Option-cases, nat_eq, int_eq, text_eq, ℕ, ◌≡◌, ◌≢◌, ◌⊎◌, inl, inr, Bool, true, false,
  Option, none, some, arith,
}
use knievel.Leader.{
  racing, holding, ending, Instance, World, Holder, is_holder, try_acquire, release, freed, connect,
  race, lose_race, watch, lose_session, fail, end_session, sever, close, job_tick, record_tick,
  store, Step, connects, races, race_is_lost, watches, session_is_lost, finds_dead, ends, dies,
  closes, ticks, passes, Reaches, begins, goes_on,
}

-- The instance is in the inner loop on a live connection.
abbrev pub InCharge : Instance → Type 0
InCharge x = (x.phase ≡ holding) × (x.is_connected ≡ true)

abbrev pub is_held_by : ℕ → ℕ → Option Holder → Bool
is_held_by i c none = false
is_held_by i c (some h) = is_holder i c h

-- An instance in charge holds the lock. One in the inner loop has its flag set, and a set flag is of
-- one in the inner loop or of one whose session has failed.
abbrev pub IsSound : ℕ → Instance → Option Holder → Type 0
IsSound i x lock =
    (InCharge x → is_held_by i x.connection lock ≡ true)
    × (x.phase ≡ holding → x.handle.is_leader ≡ true)
    × (x.handle.is_leader ≡ true → (x.phase ≡ holding) ⊎ (x.phase ≡ ending))

abbrev pub IsGood : World → Type 0
IsGood w = (i : ℕ) → IsSound i (w.instances i) w.lock

race-IsGood : (w : World) (i : ℕ) → (w.instances i).phase ≡ racing → IsGood w → IsGood (race i w)
unfolding race try_acquire record_tick store
race-IsGood w i p good j = elim (Option-cases w.lock) [
  | inl n ↦
      rw (n, race)
        (ground (
          arith,
          n,
          good i,
          good j,
          eqb_iff i j,
          eqb_iff i i,
          eqb_iff (w.instances i).connection (w.instances i).connection,
        ))
  | inr (k, s) ↦
      rw (s, race)
        (ground
          (arith, s, good i, good j, eqb_iff i j, eqb_iff i k.instance_of, eqb_iff j k.instance_of))
]

-- What one instance does on a connection leaves the lock that another holds.
module _ (i j c d : ℕ) where
  try_acquire-other :
      (lock : Option Holder)
      → i ≢ j
      → is_held_by j d lock ≡ true
      → is_held_by j d (try_acquire i c lock).0 ≡ true
  unfolding try_acquire
  try_acquire-other none other h = ground (arith, h)
  try_acquire-other (some k) other h =
      ground (arith, h, eqb_iff i k.instance_of, eqb_iff j k.instance_of)

  release-other :
      (lock : Option Holder)
      → i ≢ j
      → is_held_by j d lock ≡ true
      → is_held_by j d (release i c lock) ≡ true
  unfolding release
  release-other none other h = h
  release-other (some k) other h =
      ground (arith, h, eqb_iff i k.instance_of, eqb_iff j k.instance_of)

  -- A connection that closes leaves the lock that another one holds.
  freed-other :
      (lock : Option Holder)
      → (i ≢ j) ⊎ (c ≢ d)
      → is_held_by j d lock ≡ true
      → is_held_by j d (freed i c lock) ≡ true
  unfolding freed
  freed-other none other h = h
  freed-other (some k) other h = ground (
    arith,
    h,
    eqb_iff i k.instance_of,
    eqb_iff j k.instance_of,
    eqb_iff c k.connection_of,
    eqb_iff d k.connection_of,
  )

lose_race-IsGood :
    (w : World) (i : ℕ) (taken : Bool)
    → (w.instances i).phase ≡ racing
    → IsGood w
    → IsGood (lose_race i taken w)
unfolding lose_race fail
lose_race-IsGood w i taken p good j =
    let c = (w.instances i).connection in
    let d = (w.instances j).connection in
    ground (arith, p, good i, good j, eqb_iff i j, try_acquire-other i j c d w.lock)

watch-IsGood :
    (w : World) (i : ℕ) (released : Bool)
    → (w.instances i).phase ≡ holding
    → IsGood w
    → IsGood (watch i released w)
unfolding watch fail
watch-IsGood w i released p good j =
    let c = (w.instances i).connection in
    let d = (w.instances j).connection in
    ground (arith, p, good i, good j, eqb_iff i j, release-other i j c d w.lock)

sever-IsGood : (w : World) (i : ℕ) → IsGood w → IsGood (sever i w)
unfolding sever
sever-IsGood w i good j =
    let c = (w.instances i).connection in
    let d = (w.instances j).connection in
    ground (arith, good i, good j, eqb_iff i j, freed-other i j c d w.lock)

close-IsGood :
    (w : World) (i c : ℕ)
    → ((w.instances i).is_connected ≡ false) ⊎ ((w.instances i).connection ≢ c)
    → IsGood w
    → IsGood (close i c w)
unfolding close
close-IsGood w i c idle good j =
    let d = (w.instances j).connection in
    ground (arith, idle, good i, good j, eqb_iff i j, freed-other i j c d w.lock)

Step-IsGood : {may_fail : Bool} {w w' : World} → Step may_fail w w' → IsGood w → IsGood w'
unfolding connect end_session store job_tick record_tick lose_session fail
Step-IsGood (connects w i c p) good j = ground (arith, p, good i, good j, eqb_iff i j)
Step-IsGood (races w i p c) good j = race-IsGood w i p good j
Step-IsGood (race_is_lost w i taken p c m) good j = lose_race-IsGood w i taken p good j
Step-IsGood (watches w i released p c m) good j = watch-IsGood w i released p good j
Step-IsGood (session_is_lost w i p c m) good j = ground (arith, p, good i, good j, eqb_iff i j)
Step-IsGood (finds_dead w i p c) good j = ground (arith, p, good i, good j, eqb_iff i j)
Step-IsGood (ends w i p) good j = ground (arith, p, good i, good j, eqb_iff i j)
Step-IsGood (dies w i c) good j = sever-IsGood w i good j
Step-IsGood (closes w i c idle) good j = close-IsGood w i c idle good j
Step-IsGood (ticks w i succeeds) good j = ground (arith, good i, good j, eqb_iff i j)
Step-IsGood (passes w seconds) good j = good j

pub Reaches-IsGood : {may_fail : Bool} {w : World} → Reaches may_fail w → IsGood w
Reaches-IsGood (begins now) i = ground arith
Reaches-IsGood (goes_on r s) i = Step-IsGood s (Reaches-IsGood r) i
