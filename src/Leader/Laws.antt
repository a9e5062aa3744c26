-- ===== src/Leader/Laws.antt =====
-- src/leader.rs: who holds the lock, and who believes to lead.
use knievel.Base.{
  eqb_iff, Option-cases, nat_eq, int_eq, text_eq, ℕ, ◌≡◌, subst, ◌≢◌, inl, inr, Bool, true, false,
  Option, none, some, arith,
}
use knievel.Leader.{ending, Instance, World, Holder, try_acquire, race, Reaches}
use knievel.Leader.Held.{InCharge, is_held_by, IsGood, Reaches-IsGood}
use knievel.Leader.Exact.{IsExact, Reaches-IsExact}

is_held_by_unique :
    (i j c d : ℕ) (lock : Option Holder)
    → is_held_by i c lock ≡ true
    → is_held_by j d lock ≡ true
    → i ≡ j
is_held_by_unique i j c d none a b = ground (arith, a)
is_held_by_unique i j c d (some h) a b =
    ground (arith, a, b, eqb_iff i h.instance_of, eqb_iff j h.instance_of)

-- The instance believes to lead, its connection is alive, and its session has not failed.
abbrev pub Leads : Instance → Type 0
Leads x = (x.handle.is_leader ≡ true) × (x.is_connected ≡ true) × (x.phase ≢ ending)

-- An instance that races while none is in charge gets the lock, where only one in charge holds it.
race-InCharge :
    (w : World) (i : ℕ)
    → IsExact w
    → ((j : ℕ) → ¬ InCharge (w.instances j))
    → (w.instances i).is_connected ≡ true
    → InCharge ((race i w).instances i)
unfolding race try_acquire
race-InCharge w i exact vacant c = elim (Option-cases w.lock) [
  | inl n ↦ rw (n, race) (ground (arith, eqb_iff i i, c))
  | inr (k, s) ↦ let e = rw s at exact in elim (vacant k.instance_of e.0) [ ]
]

Leads-InCharge : (w : World) (i : ℕ) → IsGood w → Leads (w.instances i) → InCharge (w.instances i)
Leads-InCharge w i good a = ground (arith, good i, a)

-- However the steps of the instances interleave: an instance in the inner loop on a live connection
-- holds the lock with that connection, and two instances that lead are one, where an instance whose
-- connection has died or whose session has failed, its flag not yet cleared, does not count. And while
-- queries fail on dead connections only, the lock is held by such an instance or free, so that one that
-- races for it on a live connection gets it while none is in the inner loop on one.
pub Reaches-OneLeader :
    (may_fail : Bool) (w : World)
    → Reaches may_fail w
    → ((i : ℕ) → InCharge (w.instances i) → is_held_by i (w.instances i).connection w.lock ≡ true)
      × ((i j : ℕ) → Leads (w.instances i) → Leads (w.instances j) → i ≡ j)
      × (may_fail ≡ false
          → IsExact w
            × ((i : ℕ)
                → ((j : ℕ) → ¬ InCharge (w.instances j))
                → (w.instances i).is_connected ≡ true
                → InCharge ((race i w).instances i)))
Reaches-OneLeader may_fail w r =
    let good = Reaches-IsGood r in
    (
      (λ i. (good i).0),
      (λ i j a b.
          is_held_by_unique i j (w.instances i).connection (w.instances j).connection w.lock
            ((good i).0 (Leads-InCharge w i good a)) ((good j).0 (Leads-InCharge w j good b))),
      (λ never.
          let exact = Reaches-IsExact (subst (λ b. Reaches b w) never r) in
          (exact, λ i vacant c. race-InCharge w i exact vacant c)),
    )
