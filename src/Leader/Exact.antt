-- ===== src/Leader/Exact.antt =====
-- src/leader.rs: where queries fail on dead connections only, nobody else holds the lock.
use knievel.Base.{
  eqb_iff, Option-cases, nat_eq, int_eq, text_eq, ℕ, ◌≡◌, refl, inl, inr, true, false, Option, none,
  some, arith,
}
use knievel.Leader.{
  racing, holding, Instance, World, Holder, try_acquire, release, freed, connect, race, watch,
  lose_session, fail, put, end_session, sever, close, job_tick, record_tick, store, Step, connects,
  races, race_is_lost, watches, session_is_lost, finds_dead, ends, dies, closes, ticks, passes,
  Reaches, begins, goes_on,
}
use knievel.Leader.Held.{InCharge}

-- The connection that holds the lock is that of an instance in charge, and holds it once.
abbrev pub IsKept : (ℕ → Instance) → Option Holder → Type 0
IsKept instances none = Unit
IsKept instances (some h) =
    InCharge (instances h.instance_of)
    × ((instances h.instance_of).connection ≡ h.connection_of)
    × (h.extra ≡ 0)

abbrev pub IsExact : World → Type 0
IsExact w = IsKept w.instances w.lock

race-IsExact :
    (w : World) (i : ℕ)
    → (w.instances i).phase ≡ racing
    → (w.instances i).is_connected ≡ true
    → IsExact w
    → IsExact (race i w)
unfolding race try_acquire
race-IsExact w i p c exact = elim (Option-cases w.lock) [
  | inl n ↦ rw (n, race) (ground (arith, p, c, eqb_iff i i))
  | inr (k, s) ↦
      let e = rw s at exact in rw (s, race) (ground (arith, p, c, e, eqb_iff i k.instance_of))
]

watch-IsExact :
    (w : World) (i : ℕ) → (w.instances i).phase ≡ holding → IsExact w → IsExact (watch i true w)
unfolding watch release fail
watch-IsExact w i p exact = elim (Option-cases w.lock) [
  | inl n ↦ rw (n, watch) (ground (arith, n))
  | inr (k, s) ↦
      let e = rw s at exact in
      rw (s, watch)
        (ground (
          arith,
          p,
          s,
          e,
          eqb_iff i k.instance_of,
          eqb_iff (w.instances i).connection k.connection_of,
        ))
]

sever-IsExact : (w : World) (i : ℕ) → IsExact w → IsExact (sever i w)
unfolding sever freed
sever-IsExact w i exact = elim (Option-cases w.lock) [
  | inl n ↦ rw (n, sever) tt
  | inr (k, s) ↦
      let e = rw s at exact in
      rw (s, sever)
        (ground
          (arith, e, eqb_iff i k.instance_of, eqb_iff (w.instances i).connection k.connection_of))
]

close-IsExact : (w : World) (i c : ℕ) → IsExact w → IsExact (close i c w)
unfolding close freed
close-IsExact w i c exact = elim (Option-cases w.lock) [
  | inl n ↦ rw (n, close) tt
  | inr (k, s) ↦ let e = rw s at exact in rw (s, close) (ground (arith, e))
]

-- A step of one instance that is not in charge leaves the holder in charge.
put-IsExact :
    (w : World) (i : ℕ) (x : Instance)
    → (InCharge (w.instances i) → InCharge x × (x.connection ≡ (w.instances i).connection))
    → IsExact w
    → IsKept (put i x w.instances) w.lock
put-IsExact w i x keeps exact = elim (Option-cases w.lock) [
  | inl n ↦ rw n tt
  | inr (k, s) ↦ let e = rw s at exact in rw s (ground (arith, e, keeps, eqb_iff i k.instance_of))
]

Step-IsExact : {w w' : World} → Step false w w' → IsExact w → IsExact w'
unfolding connect end_session store job_tick record_tick lose_session fail
Step-IsExact (connects w i c p) exact =
    put-IsExact w i (connect c (w.instances i)) (ground (arith, p)) exact
Step-IsExact (races w i p c) exact = race-IsExact w i p c exact
Step-IsExact (race_is_lost w i taken p c m) exact = ground (arith, m)
Step-IsExact (watches w i released p c m) exact =
    let t : released ≡ true = ground (arith, m) in rw t (watch-IsExact w i p exact)
Step-IsExact (session_is_lost w i p c m) exact = ground (arith, m)
Step-IsExact (finds_dead w i p c) exact =
    put-IsExact w i (fail (w.instances i)) (ground (arith, p, c)) exact
Step-IsExact (ends w i p) exact =
    put-IsExact w i (end_session (w.instances i)) (ground (arith, p)) exact
Step-IsExact (dies w i c) exact = sever-IsExact w i exact
Step-IsExact (closes w i c idle) exact = close-IsExact w i c exact
Step-IsExact (ticks w i succeeds) exact =
    put-IsExact w i
      (record (w.instances i) { handle = job_tick w.now succeeds (w.instances i).handle })
      (λ c. (c, refl)) exact
Step-IsExact (passes w seconds) exact = exact

pub Reaches-IsExact : {w : World} → Reaches false w → IsExact w
Reaches-IsExact (begins now) = tt
Reaches-IsExact (goes_on r s) = Step-IsExact s (Reaches-IsExact r)
