-- ===== src/Events.antt =====
-- src/events.rs: the bounded channel of event rows and the task that writes them to `events_raw`.
pub mod Flush
use knievel.Base.{
  ltb, leb, if◌then◌else◌, ◌==◌, nat_eq, ℤ, int_eq, length, take, drop, is_empty, Text, text_eq, ℕ,
  ◌-◌, Bool, true, false, not, ◌&&◌, Option, none, some, List, [], ◌∷◌, ◌++◌,
}

pub data EventKind : Type 0 where
  decision impression click : EventKind

pub record Event : Type 0 where
  pub ts_ms : ℤ
  pub org_id : Text
  pub project_id : Text
  pub kind : EventKind
  pub placement_id : Option Text
  pub site_id : Option ℤ
  pub zone_id : Option ℤ
  pub ad_id : Option ℤ
  pub creative_id : Option ℤ
  pub flight_id : Option ℤ
  pub campaign_id : Option ℤ
  pub advertiser_id : Option ℤ
  pub url : Option Text
  pub referrer_host : Option Text
  pub user_agent_hash : Option (List ℕ)
  pub signature_nonce : Option (List ℕ)
  pub dedup_key : Option (List ℕ)
  pub snapshot_version : Option ℤ

-- `e.kind as i16`
unfoldable pub as_i16 : EventKind → ℕ
as_i16 decision = 0
as_i16 impression = 1
as_i16 click = 2

abbrev pub drain_batch : ℕ
drain_batch = 5000

pub data SendError : Type 0 where
  channel_saturated flusher_down : SendError

-- The channel: `tokio::sync::mpsc` with a capacity.
pub record Channel : Type 0 where
  pub capacity : ℕ
  pub is_open : Bool
  pub queue : List Event

-- The channel after the call, and the error if there is one.
unfoldable pub try_send : Channel → Event → Channel × Option SendError
try_send ch e =
    if not ch.is_open
    then (ch, some flusher_down)
    else if ltb (length ch.queue) ch.capacity
    then (record ch { queue = ch.queue ++ e ∷ [] }, none)
    else (ch, some channel_saturated)

-- A row of `knievel.events_raw`.
pub record Row : Type 0 where
  pub event : Event
  pub is_duplicate : Bool

-- `(project_id, kind, dedup_key, ts)`; a NULL key conflicts with nothing.
unfoldable pub conflicts : Event → Event → Bool
unfolding as_i16
conflicts new old = elim new.dedup_key [
  | none ↦ false
  | some k ↦ elim old.dedup_key [
    | none ↦ false
    | some j ↦
        k == j
        && (new.project_id == old.project_id
            && (as_i16 new.kind == as_i16 old.kind && new.ts_ms == old.ts_ms))
  ]
]

-- `INSERT … ON CONFLICT … DO UPDATE SET is_duplicate = true`: the row that is there is marked.
unfoldable pub insert_row : Event → List Row → List Row
unfolding conflicts
insert_row e [] = record { event = e; is_duplicate = false } ∷ []
insert_row e (r ∷ rows) =
    let rest = insert_row e rows in
    if conflicts e r.event then record r { is_duplicate = true } ∷ rows else r ∷ rest

unfoldable pub insert_rows : List Event → List Row → List Row
unfolding insert_row
insert_rows [] rows = rows
insert_rows (e ∷ es) rows = insert_rows es (insert_row e rows)

-- One transaction: `commits` says whether every statement and the commit are answered.
unfoldable pub flush_batch : Bool → List Event → List Row → List Row
unfolding insert_rows
flush_batch commits batch table =
    if is_empty batch then table else if commits then insert_rows batch table else table

-- The flusher, the channel it receives from, its table, and whether its loop still runs.
pub record Flusher : Type 0 where
  pub batch : List Event
  pub channel : Channel
  pub table : List Row
  pub running : Bool

-- The branches of the `select!`: events received (the sender may be gone), the tick, and a send.
pub data Turn : Type 0 where
  received : Bool → Turn
  ticked : Bool → Turn
  sent : Event → Turn
  senders_dropped : Bool → Turn

unfoldable pub flush : Bool → Flusher → Flusher
unfolding flush_batch
flush commits s = record s { batch = []; table = flush_batch commits s.batch s.table }

-- `recv_many` with room for `DRAIN_BATCH - batch.len()`; it waits while the channel is empty.
unfoldable pub receive : Bool → Flusher → Flusher
unfolding flush
receive commits s =
    let want = drain_batch - length s.batch in
    let next = record s {
      batch = s.batch ++ take want s.channel.queue;
      channel = record s.channel { queue = drop want s.channel.queue };
    } in
    if is_empty s.channel.queue
    then s
    else if leb drain_batch (length next.batch)
    then flush commits next
    else next

unfoldable pub turn : Turn → Flusher → Flusher
unfolding receive flush try_send
turn (received commits) s = if s.running then receive commits s else s
turn (ticked commits) s = if s.running then (if is_empty s.batch then s else flush commits s) else s
turn (sent e) s = record s { channel = (try_send s.channel e).0 }
turn (senders_dropped commits) s =
    if s.running && is_empty s.channel.queue
    then record (if is_empty s.batch then s else flush commits s) {
      running = false;
      channel = record s.channel { is_open = false };
    }
    else s

unfoldable pub turns : List Turn → Flusher → Flusher
unfolding turn
turns [] s = s
turns (t ∷ ts) s = turns ts (turn t s)

-- `spawn(pool, capacity)`
unfoldable pub spawn : ℕ → List Row → Flusher
spawn capacity table = record {
  batch = [];
  channel = record { capacity = capacity; is_open = true; queue = [] };
  table = table;
  running = true;
}
