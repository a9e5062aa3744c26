-- ===== src/Batch/Savepoints/Laws.antt =====
-- src/batch.rs: the savepoints against rows that are tried one by one.
use knievel.Base.{
  nat_eq, ==_refl, int_eq, Text, text_eq, ℕ, suc, ◌≡◌, refl, sym, ap, ◌∙◌, false, Option, none,
  some, List, [], ◌∷◌,
}
use knievel.Base.Result.{Result, ok, err}
use knievel.Batch.Savepoints.{
  Session, Statement, savepoint, release, rollback_to, savepoint_name, newest_of, effect_of,
  execute_at, unless_err, finish_row, settle_row, run_row, run_rows, run_batch_with_savepoints,
}

-- The outcome of a row, and the data after it.
abbrev pub after_row : {S T E : Type 0} → S → Result E (T × S) → Result E T × S
after_row s (ok (t, s')) = (ok t, s')
after_row s (err e) = (err e, s)

module _ {S R T E : Type 0} (step : S → ℕ → R → Result E (T × S)) where
  -- The rows one after the other on the data, each on what those before it that succeeded have left.
  abbrev pub outcomes_from : ℕ → List R → S → List (Result E T) × S
  outcomes_from idx [] s = ([], s)
  outcomes_from idx (row ∷ rows) s =
      let (outcome, s') = after_row s (step s idx row) in
      let (outcomes, end) = outcomes_from (suc idx) rows s' in (outcome ∷ outcomes, end)

  -- What the work of a row does on a transaction that is not aborted: a success leaves it so, and an
  -- error leaves the savepoints that were there.
  abbrev pub Ends : Session S → Result E (T × S) → Result E T × Session S → Type 0
  Ends tx (ok (t, s')) end = end ≡ (ok t, record tx { data_of = s' })
  Ends tx (err e) (outcome, tx') = (outcome ≡ err e) × (tx'.savepoints ≡ tx.savepoints)

  abbrev pub Performs : (Session S → ℕ → R → Result E T × Session S) → Type 0
  Performs per_row =
      (tx : Session S) (idx : ℕ) (row : R)
      → tx.is_aborted ≡ false
      → Ends tx (step tx.data_of idx row) (per_row tx idx row)

newest_of-top :
    {S : Type 0} (name : Text) (s : S) (rest : List (Text × S))
    → newest_of name ((name, s) ∷ rest) ≡ some (s, rest)
unfolding newest_of
newest_of-top name s rest = rw (==_refl name, newest_of) refl

module _ {S R T E : Type 0} (step : S → ℕ → R → Result E (T × S)) (refused : E)
    (per_row : Session S → ℕ → R → Result E T × Session S) where
  abbrev answered : ℕ → Statement → Option E
  answered idx statement = none

  -- The transaction that a row begins with.
  abbrev at : S → List (Text × S) → Session S
  at s points = record { data_of = s; is_aborted = false; savepoints = points }

  abbrev opened : ℕ → S → List (Text × S) → Session S
  opened idx s points = at s ((savepoint_name idx, s) ∷ points)

  execute_at-done :
      (idx : ℕ) (statement : Statement) (tx : Session S) {tx' : Session S}
      → effect_of statement (savepoint_name idx) tx ≡ some tx'
      → execute_at answered refused per_row idx statement tx ≡ (ok tt, tx')
  unfolding execute_at
  execute_at-done idx statement tx h = rw (h, execute_at) refl

  release-opened :
      (idx : ℕ) (s s' : S) (points : List (Text × S))
      → effect_of release (savepoint_name idx) (at s' ((savepoint_name idx, s) ∷ points))
        ≡ some (at s' points)
  unfolding effect_of
  release-opened idx s s' points = rw (newest_of-top (savepoint_name idx) s points, effect_of) refl

  rollback-opened :
      (idx : ℕ) (s : S) (points : List (Text × S)) (tx : Session S)
      → tx.savepoints ≡ (savepoint_name idx, s) ∷ points
      → effect_of rollback_to (savepoint_name idx) tx ≡ some (opened idx s points)
  unfolding effect_of
  rollback-opened idx s points tx h =
      let found : newest_of (savepoint_name idx) tx.savepoints ≡ some (s, points) =
        ap (newest_of (savepoint_name idx)) h ∙ newest_of-top (savepoint_name idx) s points in
      rw (found, effect_of) refl

  finish_row-opened :
      (idx : ℕ) (outcome : Result E T) (s s' : S) (points : List (Text × S))
      → finish_row answered refused per_row idx outcome (at s' ((savepoint_name idx, s) ∷ points))
        ≡ (outcome, at s' points)
  unfolding finish_row
  finish_row-opened idx outcome s s' points =
      let tx = at s' ((savepoint_name idx, s) ∷ points) in
      ap (λ r. unless_err answered refused per_row r (λ tx'. (outcome, tx')))
        (execute_at-done idx release tx (release-opened idx s s' points))

  settle_row-err :
      (idx : ℕ) (e : E) (s : S) (points : List (Text × S)) (tx : Session S)
      → tx.savepoints ≡ (savepoint_name idx, s) ∷ points
      → settle_row answered refused per_row idx (err e, tx) ≡ (err e, at s points)
  unfolding settle_row
  settle_row-err idx e s points tx h =
      ap
        (λ r.
          unless_err answered refused per_row r
            (λ tx'. finish_row answered refused per_row idx (err e) tx'))
        (execute_at-done idx rollback_to tx (rollback-opened idx s points tx h))
      ∙ finish_row-opened idx (err e) s s points

  settle_row-Ends :
      (idx : ℕ) (s : S) (points : List (Text × S)) (r : Result E (T × S))
      (end : Result E T × Session S)
      → Ends step (opened idx s points) r end
      → settle_row answered refused per_row idx end
        ≡ ((after_row s r).0, at (after_row s r).1 points)
  unfolding settle_row
  settle_row-Ends idx s points (ok (t, s')) end h =
      ap (settle_row answered refused per_row idx) h ∙ finish_row-opened idx (ok t) s s' points
  settle_row-Ends idx s points (err e) (outcome, tx) (same, kept) =
      ap (λ o. settle_row answered refused per_row idx (o, tx)) same
      ∙ settle_row-err idx e s points tx kept

  run_row-Performs :
      (idx : ℕ) (row : R) (s : S) (points : List (Text × S))
      → Performs step per_row
      → run_row answered refused per_row idx row (at s points)
        ≡ ((after_row s (step s idx row)).0, at (after_row s (step s idx row)).1 points)
  unfolding run_row effect_of
  run_row-Performs idx row s points performs =
      ap
        (λ r.
          unless_err answered refused per_row r
            (λ tx'. settle_row answered refused per_row idx (per_row tx' idx row)))
        (execute_at-done idx savepoint (at s points) refl)
      ∙ (settle_row-Ends idx s points (step s idx row) (per_row (opened idx s points) idx row)
          (performs (opened idx s points) idx row refl))

  run_rows-Performs :
      (idx : ℕ) (rows : List R) (s : S) (points : List (Text × S))
      → Performs step per_row
      → run_rows answered refused per_row idx rows (at s points)
        ≡ ((outcomes_from step idx rows s).0, at (outcomes_from step idx rows s).1 points)
  unfolding run_rows
  run_rows-Performs idx [] s points performs = refl
  run_rows-Performs idx (row ∷ rows) s points performs =
      let here = step s idx row in
      ap
        (λ (r : Result E T × Session S).
          let (outcomes, end) = run_rows answered refused per_row (suc idx) rows r.1 in
          (r.0 ∷ outcomes, end))
        (run_row-Performs idx row s points performs)
      ∙ (λ i.
          let r = run_rows-Performs (suc idx) rows (after_row s here).1 points performs i in
          ((after_row s here).0 ∷ r.0, r.1))

-- With a server that answers, a batch in a transaction that is not aborted gives each row's
-- outcome in order and leaves the data of the rows that succeeded, each tried on what those before
-- it left; the transaction goes on, with the savepoints that it had. The work of a row may abort
-- the transaction when it fails.
pub run_batch-IsPerRow :
    {S R T E : Type 0} (step : S → ℕ → R → Result E (T × S)) (refused : E)
    (per_row : Session S → ℕ → R → Result E T × Session S) (rows : List R) (tx : Session S)
    → Performs step per_row
    → tx.is_aborted ≡ false
    → run_batch_with_savepoints (λ idx statement. none) refused per_row rows tx ≡ (
      (outcomes_from step 0 rows tx.data_of).0,
      record tx { data_of = (outcomes_from step 0 rows tx.data_of).1 },
    )
unfolding run_batch_with_savepoints
run_batch-IsPerRow {S} step refused per_row rows tx performs live =
    ap (run_batch_with_savepoints (λ idx statement. none) refused per_row rows) began
    ∙ run_rows-Performs step refused per_row 0 rows tx.data_of tx.savepoints performs
    ∙ ap
        (λ (t : Session S). (
          (outcomes_from step 0 rows tx.data_of).0,
          record t { data_of = (outcomes_from step 0 rows tx.data_of).1 },
        ))
        (sym began)
  where
    began : tx ≡ record { data_of = tx.data_of; is_aborted = false; savepoints = tx.savepoints }
    began = λ i. record { data_of = tx.data_of; is_aborted = live i; savepoints = tx.savepoints }
