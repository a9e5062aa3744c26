-- ===== src/Leader.antt =====
-- src/leader.rs: the leader election of the background jobs, as a step relation on all instances of
-- the program. An instance is a number, and so is each connection of its pool. Postgres is given by the
-- advisory lock, which one connection holds at most, as often as it has taken it, and loses when it
-- dies. A query may fail on a live connection, which then goes back to the pool with what it holds.
-- Steps of different instances interleave freely; the time is in seconds, and the sleeps are left out: a
-- step may come whenever its guard lets it. A process that is started again is another instance.
pub mod Held
pub mod Exact
pub mod Laws
use knievel.Base.{
  ltb, eqb, if◌then◌else◌, nat_eq, int_eq, text_eq, ◌≢◌, ◌&&◌, zero, suc, ℕ, ◌+◌, ◌*◌, ◌≡◌, ◌⊎◌,
  Bool, true, false, not, Option, none, some,
}

pub record LeaderHandle : Type 0 where
  pub is_leader : Bool
  pub last_tick : Option ℕ

-- Where the task of `spawn` stands: between sessions, before the lock, in the inner loop, or where the
-- session has failed and the flag is not yet cleared.
pub data Phase : Type 0 where
  reconnecting racing holding ending : Phase

-- The session's connection is `connection` of the instance's pool, while it has a live one.
pub record Instance : Type 0 where
  pub handle : LeaderHandle
  pub phase : Phase
  pub connection : ℕ
  pub is_connected : Bool

-- The connection that holds the lock: its instance, its number in the pool, and how many more times
-- than once it has taken the lock.
pub record Holder : Type 0 where
  pub instance_of : ℕ
  pub connection_of : ℕ
  pub extra : ℕ

pub record World : Type 0 where
  pub now : ℕ
  pub lock : Option Holder
  pub instances : ℕ → Instance

abbrev pub watchdog_budget : ℕ
watchdog_budget = 4 * 60 * 60

abbrev pub new_handle : LeaderHandle
new_handle = record { is_leader = false; last_tick = none }

unfoldable pub record_tick : ℕ → LeaderHandle → LeaderHandle
record_tick now h = record h { last_tick = some now }

unfoldable pub store : Bool → LeaderHandle → LeaderHandle
store b h = record h { is_leader = b }

-- The instances with one replaced.
abbrev pub put : ℕ → Instance → (ℕ → Instance) → ℕ → Instance
put i x f j = if eqb i j then x else f j

abbrev pub is_holder : ℕ → ℕ → Holder → Bool
is_holder i c h = eqb i h.instance_of && eqb c h.connection_of

-- `pg_try_advisory_lock` on connection `c` of instance `i`: the lock afterwards, and the answer. A
-- connection may take a lock again that it holds.
unfoldable pub try_acquire : ℕ → ℕ → Option Holder → Option Holder × Bool
try_acquire i c none = (some (record { instance_of = i; connection_of = c; extra = 0 }), true)
try_acquire i c (some h) =
    if is_holder i c h then (some (record h { extra = suc h.extra }), true) else (some h, false)

-- `pg_advisory_unlock`: it takes back one time.
unfoldable pub release : ℕ → ℕ → Option Holder → Option Holder
release i c none = none
release i c (some h) =
    if is_holder i c h
    then elim h.extra [ zero ↦ none | suc n ↦ some (record h { extra = n }) ]
    else some h

-- A connection has closed: Postgres frees the lock, however often it was taken.
unfoldable pub freed : ℕ → ℕ → Option Holder → Option Holder
freed i c none = none
freed i c (some h) = if is_holder i c h then none else some h

-- `last_tick.unwrap_or_else(Instant::now).elapsed() > WATCHDOG_BUDGET`
unfoldable pub is_overdue : ℕ → LeaderHandle → Bool
is_overdue now h = elim h.last_tick [ none ↦ false | some t ↦ ltb (t + watchdog_budget) now ]

-- `pool.acquire()`: an idle connection of the pool, or a new one.
unfoldable pub connect : ℕ → Instance → Instance
connect c x = record x { phase = racing; connection = c; is_connected = true }

-- One round of the outer loop of `run_one_session`.
unfoldable pub race : ℕ → World → World
race i w =
    let x = w.instances i in
    let (lock', got) = try_acquire i x.connection w.lock in
    record w {
      lock = lock';
      instances =
          if got
          then put i
              (record x { handle = record_tick w.now (store true x.handle); phase = holding })
              w.instances
          else w.instances;
    }

-- The session fails and its connection goes back to the pool.
unfoldable pub fail : Instance → Instance
fail x = record x { phase = ending }

-- The answer of `try_acquire` does not arrive, and the lock may have been `taken` all the same.
unfoldable pub lose_race : ℕ → Bool → World → World
lose_race i taken w =
    let x = w.instances i in
    record w {
      lock = if taken then (try_acquire i x.connection w.lock).0 else w.lock;
      instances = put i (fail x) w.instances;
    }

-- One round of the inner loop whose `SELECT 1` is answered: the watchdog's branch up to the release,
-- whose error is ignored, or on.
unfoldable pub watch : ℕ → Bool → World → World
watch i released w =
    let x = w.instances i in
    if is_overdue w.now x.handle
    then record w {
      lock = if released then release i x.connection w.lock else w.lock;
      instances = put i (fail x) w.instances;
    }
    else w

-- `SELECT 1` fails.
unfoldable pub lose_session : ℕ → World → World
lose_session i w = record w { instances = put i (fail (w.instances i)) w.instances }

-- The end of a session: `spawn` clears the flag and goes round.
unfoldable pub end_session : Instance → Instance
end_session x = record x {
  handle = store false x.handle;
  phase = reconnecting;
  is_connected = false;
}

-- The session's connection dies, and the instance does not know yet.
unfoldable pub sever : ℕ → World → World
sever i w =
    let x = w.instances i in
    record w {
      lock = freed i x.connection w.lock;
      instances = put i (record x { is_connected = false }) w.instances;
    }

-- An idle connection of the pool closes.
unfoldable pub close : ℕ → ℕ → World → World
close i c w = record w { lock = freed i c w.lock }

-- `spawn` in src/rollup.rs and src/partitions.rs, at one tick of the interval: a follower does
-- nothing, and a pass that succeeds is recorded.
unfoldable pub job_tick : ℕ → Bool → LeaderHandle → LeaderHandle
job_tick now succeeds h = if not h.is_leader then h else if succeeds then record_tick now h else h

-- What may come next. `may_fail` says whether a query may fail on a live connection.
pub data Step (may_fail : Bool) : World → World → Type 0 where
  connects :
      (w : World) (i c : ℕ)
      → (w.instances i).phase ≡ reconnecting
      → Step may_fail w (record w { instances = put i (connect c (w.instances i)) w.instances })
  races :
      (w : World) (i : ℕ)
      → (w.instances i).phase ≡ racing
      → (w.instances i).is_connected ≡ true
      → Step may_fail w (race i w)
  race_is_lost :
      (w : World) (i : ℕ) (taken : Bool)
      → (w.instances i).phase ≡ racing
      → (w.instances i).is_connected ≡ true
      → may_fail ≡ true
      → Step may_fail w (lose_race i taken w)
  watches :
      (w : World) (i : ℕ) (released : Bool)
      → (w.instances i).phase ≡ holding
      → (w.instances i).is_connected ≡ true
      → (released ≡ true) ⊎ (may_fail ≡ true)
      → Step may_fail w (watch i released w)
  session_is_lost :
      (w : World) (i : ℕ)
      → (w.instances i).phase ≡ holding
      → (w.instances i).is_connected ≡ true
      → may_fail ≡ true
      → Step may_fail w (lose_session i w)
  -- Every query of a dead connection fails, and the release has no effect.
  finds_dead :
      (w : World) (i : ℕ)
      → ((w.instances i).phase ≡ racing) ⊎ ((w.instances i).phase ≡ holding)
      → (w.instances i).is_connected ≡ false
      → Step may_fail w (lose_session i w)
  ends :
      (w : World) (i : ℕ)
      → (w.instances i).phase ≡ ending
      → Step may_fail w (record w { instances = put i (end_session (w.instances i)) w.instances })
  dies : (w : World) (i : ℕ) → (w.instances i).is_connected ≡ true → Step may_fail w (sever i w)
  closes :
      (w : World) (i c : ℕ)
      → ((w.instances i).is_connected ≡ false) ⊎ ((w.instances i).connection ≢ c)
      → Step may_fail w (close i c w)
  ticks :
      (w : World) (i : ℕ) (succeeds : Bool)
      → Step may_fail w (record w {
        instances =
            put i
              (record (w.instances i) { handle = job_tick w.now succeeds (w.instances i).handle })
              w.instances;
      })
  passes : (w : World) (seconds : ℕ) → Step may_fail w (record w { now = w.now + seconds })

-- All instances are started, and none has a session.
abbrev pub fresh_world : ℕ → World
fresh_world now = record {
  now = now;
  lock = none;
  instances = λ i. record {
    handle = new_handle;
    phase = reconnecting;
    connection = 0;
    is_connected = false;
  };
}

pub data Reaches (may_fail : Bool) : World → Type 0 where
  begins : (now : ℕ) → Reaches may_fail (fresh_world now)
  goes_on : {w w' : World} → Reaches may_fail w → Step may_fail w w' → Reaches may_fail w'
