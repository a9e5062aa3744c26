-- ===== src/Rollup/Hour.antt =====
-- src/rollup.rs: the window of one hour, against the count of all canonical events of a key.
use knievel.Base.{
  ltb, leb, eqb, if◌then◌else◌, Option-cases, nat_eq, ◌==◌, eq_of_==, int_eq, filter, text_eq, ℕ,
  suc, ◌+◌, ◌%◌, ◌<◌, ◌≡◌, refl, sym, ap, ◌⊎◌, inl, inr, true, not, ◌&&◌, Option, none, some, List,
  [], ◌∷◌, arith,
}
use knievel.Rollup.{
  dims_eq, RawEvent, Dims, dims_of, hour_of, in_window, count, grouped, earliest_event_hour,
}

-- The events of a key that are no duplicates, whatever their hour.
unfoldable pub canonical : Dims → List RawEvent → ℕ
canonical k [] = 0
canonical k (e ∷ es) =
    let rest = canonical k es in if not e.is_duplicate && (dims_of e == k) then suc rest else rest

-- What the rollup table shows of a key once the hours from `v` up to `w` are rolled up.
abbrev pub tally : ℕ → ℕ → Dims → List RawEvent → Option ℕ → Option ℕ
tally v w k events before =
    if leb v k.hour && ltb k.hour w && ltb 0 (canonical k events)
    then some (canonical k events)
    else before

pub in_window-hour :
    (wm : ℕ) (e : RawEvent)
    → wm % 3600 ≡ 0
    → in_window wm (wm + 3600) e ≡ (not e.is_duplicate && eqb (hour_of e) wm)
in_window-hour wm e h = ground arith

pub hour-dims_of : (e : RawEvent) → (dims_of e).hour ≡ hour_of e
unfolding dims_of
hour-dims_of e = refl

pub count-grouped :
    (k : Dims) (wm : ℕ) (events : List RawEvent)
    → wm % 3600 ≡ 0
    → count k (grouped wm (wm + 3600) events) ≡ (if eqb k.hour wm then canonical k events else 0)
unfolding grouped filter count canonical
count-grouped k wm [] h = ground arith
count-grouped k wm (e ∷ es) h = ground (
  arith,
  in_window-hour wm e h,
  count-grouped k wm es h,
  hour-dims_of e,
  eq_of_== (dims_of e) k,
  ap (λ (d : Dims). d.hour) {x = dims_of e} {y = k},
)

pub canonical-none :
    (k : Dims) (events : List RawEvent) → earliest_event_hour events ≡ none → canonical k events ≡ 0
unfolding canonical earliest_event_hour
canonical-none k [] q = refl
canonical-none k (e ∷ es) q = elim (Option-cases (earliest_event_hour es)) [
  | inl n ↦ cc
  | inr (h, s) ↦ cc
]

-- An event of the key lies in the key's hour.
pub hour_of_key : (k : Dims) (e : RawEvent) → (dims_of e == k) ≡ true → k.hour ≡ hour_of e
unfolding dims_of
hour_of_key k e h = ap (λ (d : Dims). d.hour) (sym (eq_of_== (dims_of e) k h))

-- No hour before the earliest holds an event.
pub canonical-earliest :
    (k : Dims) (events : List RawEvent) {earliest : ℕ}
    → earliest_event_hour events ≡ some earliest
    → k.hour < earliest
    → canonical k events ≡ 0
unfolding canonical earliest_event_hour
canonical-earliest k [] q lt = cc
canonical-earliest k (e ∷ es) {earliest} q lt = elim (Option-cases (earliest_event_hour es)) [
  | inl n ↦
      let q' = rw (n, earliest_event_hour) at q in
      ground (arith, canonical-none k es n, hour_of_key k e)
  | inr (h, s) ↦
      let q' = rw (s, earliest_event_hour) at q in
      ground (arith, canonical-earliest k es s, hour_of_key k e)
]

-- A key that is not at an hour has no events.
pub canonical-hour :
    (k : Dims) (events : List RawEvent) → (canonical k events ≡ 0) ⊎ (k.hour % 3600 ≡ 0)
unfolding canonical
canonical-hour k [] = inl refl
canonical-hour k (e ∷ es) = ground (arith, canonical-hour k es, hour_of_key k e)
