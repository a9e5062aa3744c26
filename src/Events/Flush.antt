-- ===== src/Events/Flush.antt =====
-- The channel and the flusher: nothing is lost or reordered on the way to the table.
use mathlib.Core.List.{append_assoc}
use knievel.Base.{
  ltb, leb, if◌then◌else◌, lt→ltb, Bool-cases, nat_eq, int_eq, length, take, drop, is_empty,
  length-append, take-append-drop, length-drop, text_eq, ◌-◌, ◌≤◌, ◌<◌, ◌≡◌, refl, sym, ap, ◌∙◌,
  subst, ◌⊎◌, inl, inr, Bool, true, false, ◌&&◌, Option, none, some, List, [], ◌∷◌, ◌++◌, arith,
}
use knievel.Events.{
  Event, Channel, SendError, channel_saturated, flusher_down, try_send, Row, insert_row,
  insert_rows, flush_batch, Flusher, Turn, received, ticked, sent, senders_dropped, flush, receive,
  turn, drain_batch,
}

-- A send goes through exactly when the channel is open and has room; a failed one changes nothing.
pub try_send-cases :
    (ch : Channel) (e : Event)
    → ((try_send ch e ≡ (record ch { queue = ch.queue ++ e ∷ [] }, none))
        × (ch.is_open ≡ true)
        × (length ch.queue < ch.capacity))
      ⊎ ((try_send ch e ≡ (ch, some channel_saturated))
          × (ch.is_open ≡ true)
          × (ch.capacity ≤ length ch.queue))
      ⊎ ((try_send ch e ≡ (ch, some flusher_down)) × (ch.is_open ≡ false))
unfolding try_send
try_send-cases ch e = ground arith

insert_rows-append :
    (a b : List Event) (table : List Row)
    → insert_rows (a ++ b) table ≡ insert_rows b (insert_rows a table)
unfolding insert_rows
insert_rows-append [] b table = refl
insert_rows-append (e ∷ a) b table = insert_rows-append a b (insert_row e table)

-- The table once everything that was accepted is written, in the order of arrival.
abbrev pub eventual : Flusher → List Row
eventual s = insert_rows (s.batch ++ s.channel.queue) s.table

flush_batch-commits :
    (batch : List Event) (table : List Row) → flush_batch true batch table ≡ insert_rows batch table
unfolding flush_batch insert_rows
flush_batch-commits [] table = refl
flush_batch-commits (e ∷ batch) table = refl

flush-eventual : (s : Flusher) → eventual (flush true s) ≡ eventual s
unfolding flush insert_rows
flush-eventual s =
    ap (insert_rows s.channel.queue) (flush_batch-commits s.batch s.table)
    ∙ sym (insert_rows-append s.batch s.channel.queue s.table)

receive-eventual : (s : Flusher) → eventual (receive true s) ≡ eventual s
unfolding receive
receive-eventual s =
    let n = drain_batch - length s.batch in
    let next = record s {
      batch = s.batch ++ take n s.channel.queue;
      channel = record s.channel { queue = drop n s.channel.queue };
    } in
    let same : eventual next ≡ eventual s =
      ap (λ es. insert_rows es s.table)
        (append_assoc s.batch (take n s.channel.queue) (drop n s.channel.queue)
          ∙ ap (λ es. s.batch ++ es) (take-append-drop n s.channel.queue)) in
    elim (Bool-cases (is_empty s.channel.queue)) [
      | inl e ↦ rw (e, receive) refl
      | inr e ↦ elim (Bool-cases (leb drain_batch (length next.batch))) [
        | inl f ↦ rw (e, receive) (rw f (flush-eventual next ∙ same))
        | inr f ↦ rw (e, receive) (rw f same)
      ]
    ]

-- What a turn whose transaction commits does to the eventual table: a send that goes through adds its
-- event behind all others, and everything else loses and reorders nothing.
abbrev pub effect : Turn → Flusher → List Row
effect (received commits) s = eventual s
effect (ticked commits) s = eventual s
effect (senders_dropped commits) s = eventual s
effect (sent e) s =
    if s.channel.is_open && ltb (length s.channel.queue) s.channel.capacity
    then insert_row e (eventual s)
    else eventual s

-- The flusher holds fewer than 5,000 events between its turns, and the channel no more than its capacity.
pub record IsBounded (s : Flusher) : Type 0 where
  pub batch : length s.batch < drain_batch
  pub queue : length s.channel.queue ≤ s.channel.capacity

-- Every turn keeps the bounds, whether its transaction commits or not.
pub turn-IsBounded : (t : Turn) (s : Flusher) → IsBounded s → IsBounded (turn t s)
unfolding turn receive flush try_send
turn-IsBounded (received commits) s w =
    ground (arith, w.batch, w.queue, length-drop (drain_batch - length s.batch) s.channel.queue)
turn-IsBounded (ticked commits) s w = ground (arith, w.batch, w.queue)
turn-IsBounded (sent e) s w =
    ground (arith, w.batch, w.queue, length-append s.channel.queue (e ∷ []))
turn-IsBounded (senders_dropped commits) s w = ground (arith, w.batch, w.queue)

-- The transaction of the turn commits.
abbrev pub IsCommitted : Turn → Type 0
IsCommitted (received commits) = commits ≡ true
IsCommitted (ticked commits) = commits ≡ true
IsCommitted (senders_dropped commits) = commits ≡ true
IsCommitted (sent e) = Unit

if-eventual :
    (b : Bool) (x y s : Flusher)
    → eventual x ≡ eventual s
    → eventual y ≡ eventual s
    → eventual (if b then x else y) ≡ eventual s
if-eventual true x y s h k = h
if-eventual false x y s h k = k

closed-eventual :
    (b : Bool) (s x : Flusher)
    → eventual x ≡ eventual s
    → x.channel.queue ≡ s.channel.queue
    → eventual (record (if b then s else x) {
      running = false;
      channel = record s.channel { is_open = false };
    })
      ≡ eventual s
closed-eventual true s x h q = refl
closed-eventual false s x h q = ap (λ es. insert_rows (x.batch ++ es) x.table) (sym q) ∙ h

effect-sent :
    (s : Flusher) (e : Event)
    → eventual (record s { channel = (try_send s.channel e).0 }) ≡ effect (sent e) s
unfolding insert_rows
effect-sent s e =
    let behind = λ (o : Channel × Option SendError). eventual (record s { channel = o.0 }) in
    let added =
      ap (λ es. insert_rows es s.table) (sym (append_assoc s.batch s.channel.queue (e ∷ [])))
      ∙ insert_rows-append (s.batch ++ s.channel.queue) (e ∷ []) s.table in
    elim (try_send-cases s.channel e) [
      | inl (q, o, room) ↦
          ap behind q
          ∙ added
          ∙ rw o (rw (lt→ltb (length s.channel.queue) s.channel.capacity room) refl)
      | inr (inl (q, o, full)) ↦
          let f : ltb (length s.channel.queue) s.channel.capacity ≡ false = ground arith in
          ap behind q ∙ rw o (rw f refl)
      | inr (inr (q, closed)) ↦ ap behind q ∙ rw closed refl
    ]

-- A turn whose transaction commits neither loses nor reorders an event: what the table will hold once
-- everything accepted is written changes only by a send that goes through, which adds its event last.
pub turn-eventual : (t : Turn) (s : Flusher) → IsCommitted t → eventual (turn t s) ≡ effect t s
unfolding turn flush
turn-eventual (received commits) s h =
    if-eventual s.running (receive commits s) s s
      (subst (λ c. eventual (receive c s) ≡ eventual s) (sym h) (receive-eventual s)) refl
turn-eventual (ticked commits) s h =
    let flushed = subst (λ c. eventual (flush c s) ≡ eventual s) (sym h) (flush-eventual s) in
    if-eventual s.running (if is_empty s.batch then s else flush commits s) s s
      (if-eventual (is_empty s.batch) s (flush commits s) s refl flushed) refl
turn-eventual (senders_dropped commits) s h =
    let last = if is_empty s.batch then s else flush commits s in
    let flushed = subst (λ c. eventual (flush c s) ≡ eventual s) (sym h) (flush-eventual s) in
    if-eventual (s.running && is_empty s.channel.queue)
      (record last { running = false; channel = record s.channel { is_open = false } }) s s
      (closed-eventual (is_empty s.batch) s (flush commits s) flushed refl) refl
turn-eventual (sent e) s h = effect-sent s e
